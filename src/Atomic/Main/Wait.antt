-- ===== src/Atomic/Main/Wait.antt =====
-- The wait for a flip in `modeset_cleanup` of perftools/X/drm-howto/modeset-atomic.c.
use debian_config_files.Base.{
  Bool, ℕ, ◌+◌, ◌≡◌, ◌⊎◌, inl, inr, refl, sym, subst, ◌∙◌, true, false, List, [], ◌∷◌, arith, All,
}
use debian_config_files.Modeset.Kernel.{Resource, request}
use debian_config_files.Modeset.Kernel.Balance.{same}
use debian_config_files.Vsync.Host.{Answer, failed, events}
use debian_config_files.Vsync.Cleanup.Progress.{Has}
use debian_config_files.Atomic.Program.{Card}
use debian_config_files.Atomic.Program.Owns.{
  Owns, Owns-bind, Owns-pure, Owns-wait, Owns-same, Owns-test,
}
use debian_config_files.Atomic.Output.{Output, crtcs_of, first_pending}
use debian_config_files.Atomic.Output.Objects.{IsReady}
use debian_config_files.Atomic.Output.Balance.{held_outs}
use debian_config_files.Atomic.Draw.Events.{first_marked, Handled, handle_events-Owns}
use debian_config_files.Atomic.Main.{wait_flip}

-- An answer ends the wait for the flip of a CRTC.
abbrev pub Serves : ℕ → Answer → Type 0
Serves c failed = Unit
Serves c (events crtcs) = Has c crtcs

-- The answers end the wait for each CRTC in turn, others between them.
abbrev pub Served : List ℕ → List Answer → Type 0
Served [] answers = Unit
Served (c ∷ cs) [] = ⊥
Served (c ∷ cs) (a ∷ answers) = (Serves c a × Served cs answers) ⊎ Served (c ∷ cs) answers

Served-more :
    (cs : List ℕ) (a : Answer) (answers : List Answer) → Served cs answers → Served cs (a ∷ answers)
Served-more [] a answers s = tt
Served-more (c ∷ cs) a answers s = inr s

abbrev pub tail_of : List ℕ → List ℕ
tail_of [] = []
tail_of (c ∷ cs) = cs

Served-tail :
    (cs : List ℕ) (answers : List Answer) → Served cs answers → Served (tail_of cs) answers
Served-tail [] answers s = tt
Served-tail (c ∷ cs) [] s = absurd s
Served-tail (c ∷ cs) (a ∷ answers) (inl s) = Served-more cs a answers s.1
Served-tail (c ∷ cs) (a ∷ answers) (inr s) =
    Served-more cs a answers (Served-tail (c ∷ cs) answers s)

-- What follows for the later CRTCs if an answer is used up.
Served-used :
    (cs : List ℕ) (a : Answer) (answers : List Answer)
    → Served cs (a ∷ answers)
    → Served (tail_of cs) answers
Served-used [] a answers s = tt
Served-used (c ∷ cs) a answers (inl s) = s.1
Served-used (c ∷ cs) a answers (inr s) = Served-tail (c ∷ cs) answers s

-- The wait may last for ever, or the answers end it and serve the later outputs.
abbrev Hope : Bool → List Output → List Answer → Type 0
Hope w outs answers =
    (w ≡ true)
    ⊎ (Served (crtcs_of outs) answers
        ⊎ (first_pending outs ≡ false) × Served (tail_of (crtcs_of outs)) answers)

-- The same once the wait has ended.
abbrev pub Rest : Bool → List ℕ → List Answer → Type 0
Rest w cs answers = (w ≡ true) ⊎ Served (tail_of cs) answers

Hope-Rest :
    (w : Bool) (outs : List Output) (answers : List Answer)
    → Hope w outs answers
    → Rest w (crtcs_of outs) answers
Hope-Rest w outs answers (inl may) = inl may
Hope-Rest w outs answers (inr (inl s)) = inr (Served-tail (crtcs_of outs) answers s)
Hope-Rest w outs answers (inr (inr s)) = inr s.1

Hope-used :
    (w : Bool) (outs : List Output) (a : Answer) (answers : List Answer)
    → first_pending outs ≡ true
    → Hope w outs (a ∷ answers)
    → Rest w (crtcs_of outs) answers
Hope-used w outs a answers p (inl may) = inl may
Hope-used w outs a answers p (inr (inl s)) = inr (Served-used (crtcs_of outs) a answers s)
Hope-used w outs a answers p (inr (inr s)) = absurd (let q = s.0 in ground arith)

Hope-none : (w : Bool) (outs : List Output) → first_pending outs ≡ true → Hope w outs [] → w ≡ true
Hope-none w outs p (inl may) = may
Hope-none w [] p (inr (inl s)) = absurd (ground arith)
Hope-none w (out ∷ outs) p (inr (inl s)) = absurd s
Hope-none w outs p (inr (inr s)) = absurd (let q = s.0 in ground arith)

Hope-events :
    (w : Bool) (crtcs : List ℕ) (answers : List Answer) (outs outs' : List Output)
    → first_marked outs ≡ true
    → first_pending outs ≡ true
    → Handled crtcs outs outs'
    → Hope w outs (events crtcs ∷ answers)
    → Hope w outs' answers
Hope-events w crtcs answers outs outs' m p k (inl may) = inl may
Hope-events w crtcs answers [] outs' m p k (inr (inl s)) = absurd (ground arith)
Hope-events w crtcs answers (out ∷ outs) outs' m p k (inr (inl (inl s))) =
    inr (inr (k.served m s.0, subst (λ cs. Served (tail_of cs) answers) (sym k.ids) s.1))
Hope-events w crtcs answers (out ∷ outs) outs' m p k (inr (inl (inr s))) =
    inr (inl (subst (λ cs. Served cs answers) (sym k.ids) s))
Hope-events w crtcs answers outs outs' m p k (inr (inr s)) = absurd (let q = s.0 in ground arith)

module _ (card : Card) (w : Bool) (r : Resource) (free : (at : ℕ) → same r (request at) ≡ 0) where
  -- What the wait leaves.
  pub record Waited (outs : List Output) (out : List Output × List Answer) : Type 0 where
    pub ready : All IsReady out.0
    pub ids : crtcs_of out.0 ≡ crtcs_of outs
    pub rest : Rest w (crtcs_of outs) out.1

  wait_flip-Hope :
      (n : ℕ) (answers : List Answer) (outs : List Output)
      → All IsReady outs
      → first_marked outs ≡ true
      → Hope w outs answers
      → Owns w r
          (held_outs r outs + n)
          (wait_flip card answers outs)
          (λ out. held_outs r out.0 + n)
          (Waited outs)
  unfolding wait_flip
  wait_flip-Hope n [] outs h m g =
      Owns-test w r (first_pending outs) (λ p. Owns-wait w r _ _ _ (Hope-none w outs p g))
        (λ p. Owns-pure w r _ refl (record { ready = h; ids = refl; rest = Hope-Rest w outs [] g }))
  wait_flip-Hope n (failed ∷ answers) outs h m g =
      Owns-test w r (first_pending outs)
        (λ p.
          Owns-pure w r _ refl
            (record { ready = h; ids = refl; rest = Hope-used w outs failed answers p g }))
        (λ p.
          Owns-pure w r _ refl
            (record { ready = h; ids = refl; rest = Hope-Rest w outs (failed ∷ answers) g }))
  wait_flip-Hope n (events crtcs ∷ answers) outs h m g =
      Owns-test w r (first_pending outs)
        (λ p. Owns-bind w r (handle_events-Owns card w r free n crtcs outs h) (λ outs' k.
          Owns-same w r refl
            (λ out q. (
              refl,
              record {
                ready = q.ready;
                ids = q.ids ∙ k.ids;
                rest = subst (λ cs. Rest w cs out.1) k.ids q.rest;
              },
            ))
            (wait_flip-Hope n answers outs' k.ready (k.marked m)
              (Hope-events w crtcs answers outs outs' m p k g))))
        (λ p.
          Owns-pure w r _ refl
            (record { ready = h; ids = refl; rest = Hope-Rest w outs (events crtcs ∷ answers) g }))

  -- The wait ends, if it may not last for ever, where the answers serve the outputs.
  pub wait_flip-Owns :
      (n : ℕ) (answers : List Answer) (outs : List Output)
      → All IsReady outs
      → first_marked outs ≡ true
      → (w ≡ true) ⊎ Served (crtcs_of outs) answers
      → Owns w r
          (held_outs r outs + n)
          (wait_flip card answers outs)
          (λ out. held_outs r out.0 + n)
          (Waited outs)
  wait_flip-Owns n answers outs h m (inl may) = wait_flip-Hope n answers outs h m (inl may)
  wait_flip-Owns n answers outs h m (inr s) = wait_flip-Hope n answers outs h m (inr (inl s))
