-- ===== src/Atomic/Main/Balance.antt =====
-- Whole runs of perftools/X/drm-howto/modeset-atomic.c.
use Prim.Native.String.{String}
use debian_config_files.Base.{
  ℕ, suc, ◌+◌, ◌≡◌, refl, Bool, true, List, [], ◌∷◌, arith, All, length, ap, subst, sym, ◌⊎◌, inl,
  inr, ◌∙◌,
}
use debian_config_files.Modeset.Kernel.{Reply, done, fail, Resource, resources, request, descriptor}
use debian_config_files.Modeset.Kernel.Balance.{same}
use debian_config_files.Modeset.Setup.{Status, ok, err}
use debian_config_files.Modeset.Main.{card_of}
use debian_config_files.Vsync.Host.{Answer}
use debian_config_files.Vsync.Main.{Script}
use debian_config_files.Atomic.Program.{ClientCap, Card, Program}
use debian_config_files.Atomic.Program.Owns.{
  Owns, Any, Owns-bind, Owns-next, Owns-pure, Owns-same, Owns-give,
}
use debian_config_files.Atomic.Objects.Balance.{Known}
use debian_config_files.Atomic.Output.{Output, crtcs_of}
use debian_config_files.Atomic.Output.Open.{held_fd, open_card-Owns}
use debian_config_files.Atomic.Output.Objects.{IsReady}
use debian_config_files.Atomic.Output.Balance.{held_outs, output_destroy-Owns}
use debian_config_files.Atomic.Output.Prepare.{Prepared, prepare-Owns}
use debian_config_files.Atomic.Draw.Balance.{Stops, draw-Owns}
use debian_config_files.Atomic.Main.Wait.{Served, tail_of, Rest, wait_flip-Owns}
use debian_config_files.Atomic.Main.{
  destroy_first, cleanup_outs, cleanup, run_prepared, run_card, main_from, main,
}

length-crtcs_of : (outs : List Output) → length (crtcs_of outs) ≡ length outs
length-crtcs_of [] = refl
length-crtcs_of (out ∷ outs) = ap suc (length-crtcs_of outs)

module _ (card : Card) (w : Bool) (r : Resource) (free : (at : ℕ) → same r (request at) ≡ 0) where
  destroy_first-Owns :
      (n : ℕ) (cs : List ℕ) (next : List Output → Program (Unit {0})) (outs : List Output)
      → All IsReady outs
      → tail_of (crtcs_of outs) ≡ cs
      → ((rest : List Output)
          → All IsReady rest
          → crtcs_of rest ≡ cs
          → Owns w r (held_outs r rest + n) (next rest) (λ _. n) Any)
      → Owns w r (held_outs r outs + n) (destroy_first next outs) (λ _. n) Any
  unfolding destroy_first
  destroy_first-Owns n cs next [] h e g = Owns-pure w r _ (omega arith) tt
  destroy_first-Owns n cs next (out ∷ outs) h e g =
      Owns-next w r
        (Owns-same w r (omega arith) (λ _ _. (refl, tt))
          (output_destroy-Owns card w r (held_outs r outs + n) out h.0))
        (g outs h.1 e)

  -- `cs` are the CRTCs of the outputs, and as many are the rounds.
  cleanup_outs-Owns :
      (n : ℕ) (cs : List ℕ) (answers : List Answer) (outs : List Output)
      → All IsReady outs
      → crtcs_of outs ≡ cs
      → (w ≡ true) ⊎ Served cs answers
      → Owns w r (held_outs r outs + n) (cleanup_outs card (length cs) answers outs) (λ _. n) Any
  unfolding cleanup_outs
  cleanup_outs-Owns n [] answers [] h e s = Owns-pure w r _ (omega arith) tt
  cleanup_outs-Owns n [] answers (out ∷ outs) h e s = cc
  cleanup_outs-Owns n (c ∷ cs) answers [] h e s = cc
  cleanup_outs-Owns n (c ∷ cs) answers (out ∷ outs) h e s =
      let marked : Output = record out { cleanup = true } in
      let ready : IsReady marked = record { conn = h.0.conn; crtc = h.0.crtc; plane = h.0.plane } in
      Owns-bind w r
        (wait_flip-Owns card w r free n answers (marked ∷ outs) (ready, h.1) refl
          (Served-as w answers _ _ (sym e) s))
        (λ waited q.
          destroy_first-Owns n cs _ waited.0 q.ready (ap tail_of (q.ids ∙ e)) (λ rest k ids.
            cleanup_outs-Owns n cs waited.1 rest k ids (Rest-as w waited.1 _ _ e q.rest)))
    where
      Served-as :
          (w : Bool) (answers : List Answer) (xs ys : List ℕ)
          → xs ≡ ys
          → (w ≡ true) ⊎ Served xs answers
          → (w ≡ true) ⊎ Served ys answers
      Served-as w answers xs ys e s = subst (λ zs. (w ≡ true) ⊎ Served zs answers) e s

      Rest-as :
          (w : Bool) (answers : List Answer) (xs ys : List ℕ)
          → xs ≡ ys
          → Rest w xs answers
          → Rest w ys answers
      Rest-as w answers xs ys e s = subst (λ zs. Rest w zs answers) e s

  -- `modeset_cleanup` ends, if it may not wait for ever, where the answers serve the outputs.
  cleanup-Owns :
      (n : ℕ) (answers : List Answer) (outs : List Output)
      → All IsReady outs
      → (w ≡ true) ⊎ Served (crtcs_of outs) answers
      → Owns w r (held_outs r outs + n) (cleanup card answers outs) (λ _. n) Any
  unfolding cleanup
  cleanup-Owns n answers outs h s =
      subst (λ k. Owns w r (held_outs r outs + n) (cleanup_outs card k answers outs) (λ _. n) Any)
        (length-crtcs_of outs) (cleanup_outs-Owns n (crtcs_of outs) answers outs h refl s)

  -- What `run_card` does after `modeset_prepare`.
  pub run_prepared-Owns :
      (script : Script) (fd : ℕ) (prepared : Status × List Output)
      → Prepared prepared
      → (w ≡ true)
        ⊎ Stops (script.start + 5) script.rounds × Served (crtcs_of prepared.1) script.answers
      → Owns w r
          (held_outs r prepared.1 + (same r (descriptor fd) + 0))
          (run_prepared card script fd prepared)
          (λ _. 0)
          Any
  unfolding run_prepared
  run_prepared-Owns script fd (err e, outs) h s =
      Owns-next w r
        (Owns-same w r (rw h (omega arith)) (λ _ _. (refl, tt)) (Owns-give w r 0 (descriptor fd)))
        (Owns-pure w r _ refl tt)
  run_prepared-Owns script fd (ok, outs) h s =
      Owns-bind w r (draw-Owns card w r free _ script.start script.rounds outs (stops s) h.0.ready)
        (λ outs' k.
          Owns-next w r (cleanup-Owns _ script.answers outs' k.0 (serves outs' k.1 s))
            (Owns-next w r (Owns-give w r 0 (descriptor fd)) (Owns-pure w r _ refl tt)))
    where
      stops :
          {A : Type 0}
          → (w ≡ true) ⊎ Stops (script.start + 5) script.rounds × A
          → (w ≡ true) ⊎ Stops (script.start + 5) script.rounds
      stops (inl may) = inl may
      stops (inr t) = inr t.0

      serves :
          (outs' : List Output)
          → crtcs_of outs' ≡ crtcs_of outs
          → (w ≡ true)
            ⊎ Stops (script.start + 5) script.rounds × Served (crtcs_of outs) script.answers
          → (w ≡ true) ⊎ Served (crtcs_of outs') script.answers
      serves outs' e (inl may) = inl may
      serves outs' e (inr t) = inr (subst (λ cs. Served cs script.answers) (sym e) t.1)

  module _ (known : Known card) (may : w ≡ true) (z : same r resources ≡ 0) where
    run_card-Owns :
        (script : Script) (fd : ℕ)
        → Owns w r (same r (descriptor fd) + 0) (run_card card script fd) (λ _. 0) Any
    unfolding run_card
    run_card-Owns script fd =
        Owns-bind w r (prepare-Owns card known w r _ z)
          (λ prepared h. run_prepared-Owns script fd prepared h (inl may))

    main_from-Owns :
        (script : Script) (reply : Reply ℕ)
        → Owns w r (held_fd r reply + 0) (main_from card script reply) (λ _. 0) Any
    unfolding main_from
    main_from-Owns script (fail e) = Owns-pure w r _ (omega arith) tt
    main_from-Owns script (done fd) = run_card-Owns script fd

    pub main-Owns :
        (caps : (fd : ℕ) (cap : ClientCap) → card.set_cap fd cap ≡ ok)
        → (script : Script) (argv : List String) → Owns w r 0 (main card script argv) (λ _. 0) Any
    unfolding main
    main-Owns caps script argv =
        Owns-bind w r (open_card-Owns card w r caps (card_of argv))
          (λ opened _. main_from-Owns script opened)
