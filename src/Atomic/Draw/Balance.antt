-- ===== src/Atomic/Draw/Balance.antt =====
-- Drawing in perftools/X/drm-howto/modeset-atomic.c gets and gives back nothing but requests, reads
-- no null pointer, and ends when the time or the user says so.
use debian_config_files.Base.{
  Bool, ℕ, ◌+◌, ◌≤◌, ◌≡◌, ◌⊎◌, inl, inr, refl, ap, subst, ◌∙◌, ltb, true, List, [], ◌∷◌, arith, All,
}
use debian_config_files.Modeset.Kernel.{Resource, request}
use debian_config_files.Modeset.Kernel.Balance.{same}
use debian_config_files.Modeset.Setup.{Status}
use debian_config_files.Vsync.Host.{Select, error, input, ready, timeout, Round}
use debian_config_files.Atomic.Program.{Card, Program}
use debian_config_files.Atomic.Program.Owns.{
  Meets-map, Owns, Any, Owns-bind, Owns-next, Owns-pure, Owns-same, Owns-test, Owns-if, Owns-status,
  Owns-wait,
}
use debian_config_files.Atomic.Objects.{Request}
use debian_config_files.Atomic.Output.{Output, crtcs_of}
use debian_config_files.Atomic.Output.Objects.{IsReady}
use debian_config_files.Atomic.Output.Balance.{held_out, held_outs}
use debian_config_files.Atomic.Draw.{
  test_flags, modeset_flags, paint_framebuffer, prepare_all, start_shade, start_out, start_all,
  commit_all, perform_modeset, on_select, watch, draw,
}
use debian_config_files.Atomic.Draw.Commit.{prepare_commit-Owns, atomic_commit-Owns}
use debian_config_files.Atomic.Draw.Events.{
  Drawn, alloc_request-Owns, give-request-Owns, paint_framebuffer-Owns, handle_events-Owns,
}

-- `select` ends the loop of `modeset_draw`.
abbrev pub Quits : Select → Type 0
Quits error = Unit
Quits input = Unit
Quits timeout = ⊥
Quits (ready crtcs) = ⊥

-- In one of the rounds the time is up, or `select` ends the loop.
abbrev pub Stops : ℕ → List Round → Type 0
Stops stop [] = ⊥
Stops stop (round ∷ rounds) = (stop ≤ round.now) ⊎ (Quits round.select ⊎ Stops stop rounds)

-- Each output has its properties, and keeps its CRTC.
abbrev pub Same : List Output → List Output → Type 0
Same outs outs' = All IsReady outs' × (crtcs_of outs' ≡ crtcs_of outs)

Same-cons :
    (out out' : Output) (outs outs' : List Output)
    → Drawn out out'
    → Same outs outs'
    → Same (out ∷ outs) (out' ∷ outs')
Same-cons out out' outs outs' k q = (
  (k.ready, q.0),
  subst (λ c. (out'.crtc.id ∷ crtcs_of outs') ≡ (c ∷ crtcs_of outs)) k.crtc
      (ap (λ cs. out'.crtc.id ∷ cs) q.1),
)

module _ (card : Card) (w : Bool) (r : Resource) (free : (at : ℕ) → same r (request at) ≡ 0) where
  -- A list of outputs stays as it is held.
  abbrev HoldsAll : ℕ → List Output → Program (List Output) → Type 0
  HoldsAll n outs p = Owns w r (held_outs r outs + n) p (λ outs'. held_outs r outs' + n) (Same outs)

  prepare_all-Owns :
      (n : ℕ) (outs : List Output) (req : Request)
      → All IsReady outs
      → Owns w r n (prepare_all card outs req) (λ _. n) Any
  unfolding prepare_all
  prepare_all-Owns n [] req h = Owns-pure w r _ refl tt
  prepare_all-Owns n (out ∷ outs) req h =
      Owns-bind w r (prepare_commit-Owns card w r n out h.0 req) (λ p _.
        Owns-status w r _ p.0 (λ e q. Owns-pure w r _ refl tt)
          (λ q. prepare_all-Owns n outs p.1 h.1))

  start_out-Owns :
      (n : ℕ) (out : Output)
      → IsReady out
      → Owns w r (held_out r out + n) (start_out card out) (λ out'. held_out r out' + n) (Drawn out)
  unfolding start_out
  start_out-Owns n out h = record {
    runs = λ m l c g.
        let lit : Output = record out { shade = start_shade card m.rands } in
        let k : IsReady lit = record { conn = h.conn; crtc = h.crtc; plane = h.plane } in
        Meets-map w (paint_framebuffer card lit (record m { rands = m.rands + 3 }))
          (λ out' m' q. (q.0, record { ready = q.1.ready; crtc = q.1.crtc; cleanup = q.1.cleanup }))
          ((paint_framebuffer-Owns card w r free n lit k).runs (record m { rands = m.rands + 3 }) l
            c g);
  }

  start_all-Owns :
      (n : ℕ) (outs : List Output) → All IsReady outs → HoldsAll n outs (start_all card outs)
  unfolding start_all
  start_all-Owns n [] h = Owns-pure w r _ refl (h, refl)
  start_all-Owns n (out ∷ outs) h =
      Owns-bind w r
        (Owns-same w r (omega arith) (λ _ k. (refl, k))
          (start_out-Owns (held_outs r outs + n) out h.0))
        (λ out' k.
          Owns-bind w r
            (Owns-same w r (omega arith) (λ _ q. (refl, q))
              (start_all-Owns (held_out r out' + n) outs h.1))
            (λ outs' q. Owns-pure w r _ (omega arith) (Same-cons out out' outs outs' k q)))

  -- And what `modeset_perform_modeset` and its parts return.
  abbrev HoldsBoth : ℕ → List Output → Program (Status × List Output) → Type 0
  HoldsBoth n outs p =
      Owns w r (held_outs r outs + n) p (λ q. held_outs r q.1 + n) (λ q. Same outs q.1)

  commit_all-Owns :
      (n : ℕ) (outs : List Output) (req : Request)
      → All IsReady outs
      → HoldsBoth n outs (commit_all card outs req)
  unfolding commit_all
  commit_all-Owns n outs req h =
      Owns-bind w r (atomic_commit-Owns card w r test_flags req _) (λ tested _.
        Owns-status w r _ tested
          (λ e q.
            Owns-next w r (give-request-Owns card w r free _ req.at)
              (Owns-pure w r _ refl (h, refl)))
          (λ q. Owns-bind w r (start_all-Owns n outs h) (λ outs' k.
            Owns-bind w r (atomic_commit-Owns card w r modeset_flags req _) (λ status _.
              Owns-next w r (give-request-Owns card w r free _ req.at) (Owns-pure w r _ refl k)))))

  perform_modeset-Owns :
      (n : ℕ) (outs : List Output) → All IsReady outs → HoldsBoth n outs (perform_modeset card outs)
  unfolding perform_modeset
  perform_modeset-Owns n outs h = Owns-bind w r (alloc_request-Owns card w r free _) (λ req _.
      Owns-bind w r (prepare_all-Owns _ outs req h) (λ p _.
        Owns-status w r _ p.0 (λ e q. Owns-pure w r _ refl (h, refl))
          (λ q. commit_all-Owns n outs p.1 h)))

  on_select-Owns :
      (n : ℕ) (next : List Output → Program (List Output)) (outs : List Output) (s : Select)
      → All IsReady outs
      → Quits s ⊎ ((outs' : List Output) → All IsReady outs' → HoldsAll n outs' (next outs'))
      → HoldsAll n outs (on_select card next outs s)
  unfolding on_select
  on_select-Owns n next outs error h g = Owns-pure w r _ refl (h, refl)
  on_select-Owns n next outs input h g = Owns-pure w r _ refl (h, refl)
  on_select-Owns n next outs timeout h (inl q) = absurd q
  on_select-Owns n next outs timeout h (inr g) = g outs h
  on_select-Owns n next outs (ready crtcs) h (inl q) = absurd q
  on_select-Owns n next outs (ready crtcs) h (inr g) =
      Owns-bind w r (handle_events-Owns card w r free n crtcs outs h)
        (λ outs' k. Owns-same w r refl (λ _ q. (refl, (q.0, q.1 ∙ k.ids))) (g outs' k.ready))

  watch-Owns :
      (n stop : ℕ) (rounds : List Round) (outs : List Output)
      → (w ≡ true) ⊎ Stops stop rounds
      → All IsReady outs
      → HoldsAll n outs (watch card stop rounds outs)
  unfolding watch
  watch-Owns n stop [] outs (inl may) h = Owns-wait w r _ _ _ may
  watch-Owns n stop [] outs (inr e) h = absurd e
  watch-Owns n stop (round ∷ rounds) outs (inl may) h =
      Owns-if w r (ltb round.now stop)
        (on_select-Owns n (watch card stop rounds) outs round.select h
          (inr (λ outs' k. watch-Owns n stop rounds outs' (inl may) k)))
        (Owns-pure w r _ refl (h, refl))
  watch-Owns n stop (round ∷ rounds) outs (inr (inl late)) h =
      Owns-test w r (ltb round.now stop) (λ e. absurd (ground arith))
        (λ _. Owns-pure w r _ refl (h, refl))
  watch-Owns n stop (round ∷ rounds) outs (inr (inr (inl q))) h =
      Owns-if w r (ltb round.now stop)
        (on_select-Owns n (watch card stop rounds) outs round.select h (inl q))
        (Owns-pure w r _ refl (h, refl))
  watch-Owns n stop (round ∷ rounds) outs (inr (inr (inr later))) h =
      Owns-if w r (ltb round.now stop)
        (on_select-Owns n (watch card stop rounds) outs round.select h
          (inr (λ outs' k. watch-Owns n stop rounds outs' (inr later) k)))
        (Owns-pure w r _ refl (h, refl))

  pub draw-Owns :
      (n start : ℕ) (rounds : List Round) (outs : List Output)
      → (w ≡ true) ⊎ Stops (start + 5) rounds
      → All IsReady outs
      → HoldsAll n outs (draw card start rounds outs)
  unfolding draw
  draw-Owns n start rounds outs e h = Owns-bind w r (perform_modeset-Owns n outs h) (λ performed k.
      Owns-same w r refl (λ _ q. (refl, (q.0, q.1 ∙ k.1)))
        (watch-Owns n (start + 5) rounds performed.1 e k.0))
