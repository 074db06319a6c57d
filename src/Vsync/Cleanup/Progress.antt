-- ===== src/Vsync/Cleanup/Progress.antt =====
-- What the handling of events does to the first device, while `modeset_cleanup` of
-- perftools/X/drm-howto/modeset-vsync.c waits for it.
use debian_config_files.Base.{
  ℕ, ◌≡◌, ◌≢◌, ◌⊎◌, inl, inr, refl, ap, sym, subst, ◌∙◌, Bool, true, false, List, [], ◌∷◌, arith,
  ◌==◌, Bool-cases, Option-cases,
}
use debian_config_files.Double.Draw.{Display}
use debian_config_files.Vsync.Host.{Dev, Host, Outcome, ended, blocked, crashed, undocumented}
use debian_config_files.Vsync.Draw.{
  arrived, finish_flip, page_flip_event, handle_event, handle_events,
}
use debian_config_files.Vsync.Draw.Invariant.{ids_of, Inv}
use debian_config_files.Vsync.Draw.Events.{
  waiting-Good, with_first, page_flip_event-found, page_flip_event-missed,
}
use debian_config_files.Vsync.Draw.Safety.{
  Safe, Safe-and_then, Safe-map, Kept, Kept-trans, handle_event-none, handle_event-some,
  handle_event-Kept,
}
use debian_config_files.Vsync.Cleanup.{first_pending}
use debian_config_files.Vsync.Cleanup.Laws.{Inv-Quiet}

abbrev pub Has : ℕ → List ℕ → Type 0
Has c [] = ⊥
Has c (x ∷ xs) = (x ≡ c) ⊎ Has c xs

abbrev pub first_cleanup : List Dev → Bool
first_cleanup [] = true
first_cleanup (d ∷ devs) = d.cleanup

abbrev pub first_crtc : List (ℕ × ℕ) → ℕ
first_crtc [] = 0
first_crtc (i ∷ is) = i.1

-- What the handling of events does to the first device, which is cleaned up.
pub record Progress (crtcs : List ℕ) (devs : List Dev) (out : List Dev × Host) : Type 0 where
  pub kept : Kept devs out
  pub marked : first_cleanup out.0 ≡ true
  still : first_pending devs ≡ false → first_pending out.0 ≡ false
  pub served : Has (first_crtc (ids_of devs)) crtcs → first_pending out.0 ≡ false

Safe-both {ℓ} :
    {A : Type ℓ} {P : A → Type 0} (may : Bool) (Q R : A → Type 0) (o : Outcome A)
    → ((a : A) → P a → Q a → R a)
    → Safe may P o
    → Safe may Q o
    → Safe may R o
Safe-both may Q R (ended a) f p q = f a p q
Safe-both may Q R blocked f p q = p
Safe-both may Q R crashed f p q = absurd p
Safe-both may Q R undocumented f p q = tt

-- What there is to know of the first device alone.
record Moved (crtc : ℕ) (d : Dev) (out : List Dev × Host) : Type 0 where
  pub marked : first_cleanup out.0 ≡ true
  still : d.pending ≡ false → first_pending out.0 ≡ false
  served : crtc ≡ d.dev.crtc → first_pending out.0 ≡ false

below-Moved :
    (crtc : ℕ) (d : Dev) (P : List Dev × Host → Type 0) (o : Outcome (List Dev × Host))
    → d.cleanup ≡ true
    → d.dev.crtc ≢ crtc
    → Safe false P (with_first d o)
    → Safe false (Moved crtc d) (with_first d o)
below-Moved crtc d P (ended (devs, h)) m n s = record {
  marked = m;
  still = λ p. p;
  served = λ e. absurd (n (sym e));
}
below-Moved crtc d P blocked m n s = s
below-Moved crtc d P crashed m n s = s
below-Moved crtc d P undocumented m n s = s

module _ (display : Display) where
  finish_flip-marked :
      (d : Dev) (h : Host)
      → d.cleanup ≡ true
      → (finish_flip display d h).0 ≡ record d { pending = false }
  unfolding finish_flip
  finish_flip-marked d h m = simp (m)

  handle_event-Moved :
      (crtc : ℕ) (d : Dev) (devs : List Dev) (h : Host)
      → Inv (d ∷ devs) h.kernel
      → d.cleanup ≡ true
      → Safe false (Moved crtc d) (handle_event display crtc (d ∷ devs) h)
  handle_event-Moved crtc d devs h i m = elim (Option-cases (h.kernel.flip crtc)) [
    | inl e ↦
        subst (Safe false (Moved crtc d)) (sym (handle_event-none display crtc (d ∷ devs) h e)) tt
    | inr (f, e) ↦
        let h' : Host = record h { kernel = arrived crtc f h.kernel } in
        let q = handle_event-some display crtc (d ∷ devs) h f e in
        elim (Bool-cases (d.dev.self == f.user)) [
          | inl same ↦
              let x = finish_flip-marked d h' m in
              subst (Safe false (Moved crtc d))
                (sym (q ∙ page_flip_event-found display d devs h' f.user (ground arith)))
                (record {
                  marked = ap (λ y. y.cleanup) x ∙ m;
                  still = λ p. ap (λ y. y.pending) x;
                  served = λ p. ap (λ y. y.pending) x;
                })
          | inr differ ↦
              let r = q ∙ page_flip_event-missed display d devs h' f.user (ground arith) in
              let n : d.dev.crtc ≢ crtc = λ c.
                let w =
                  ap (λ y. y.user)
                    (waiting-Good h.kernel d f i.good.0 (ap h.kernel.flip c ∙ e)).1 in
                absurd (ground arith) in
              subst (Safe false (Moved crtc d)) (sym r) (
                below-Moved crtc d (Kept (d ∷ devs)) (page_flip_event display f.user devs h') m n (
                  subst (Safe false (Kept (d ∷ devs))) r
                    (handle_event-Kept display crtc (d ∷ devs) h i)))
        ]
  ]

  handle_event-Progress :
      (crtc : ℕ) (devs : List Dev) (h : Host)
      → Inv devs h.kernel
      → first_cleanup devs ≡ true
      → Safe false (Progress (crtc ∷ []) devs) (handle_event display crtc devs h)
  handle_event-Progress crtc [] h i m =
      subst (Safe false (Progress (crtc ∷ []) []))
        (sym (handle_event-none display crtc [] h (Inv-Quiet display h i crtc))) tt
  handle_event-Progress crtc (d ∷ devs) h i m =
      Safe-both false (Moved crtc d) (Progress (crtc ∷ []) (d ∷ devs))
        (handle_event display crtc (d ∷ devs) h)
        (λ out k v. record {
          kept = k;
          marked = v.marked;
          still = v.still;
          served = λ u. elim u [ inl e ↦ v.served e | inr nil ↦ absurd nil ];
        })
        (handle_event-Kept display crtc (d ∷ devs) h i) (handle_event-Moved crtc d devs h i m)

  Progress-trans :
      (crtc : ℕ) (crtcs : List ℕ) (devs : List Dev) (out out' : List Dev × Host)
      → Progress (crtc ∷ []) devs out
      → Progress crtcs out.0 out'
      → Progress (crtc ∷ crtcs) devs out'
  Progress-trans crtc crtcs devs out out' p p' = record {
    kept = Kept-trans devs out out' p.kept p'.kept;
    marked = p'.marked;
    still = λ e. p'.still (p.still e);
    served = λ u. elim u [
      | inl e ↦ p'.still (p.served (inl e))
      | inr v ↦ p'.served (subst (λ c. Has c crtcs) (sym (ap first_crtc p.kept.ids)) v)
    ];
  }

  pub handle_events-Progress :
      (crtcs : List ℕ) (devs : List Dev) (h : Host)
      → Inv devs h.kernel
      → first_cleanup devs ≡ true
      → Safe false (Progress crtcs devs) (handle_events display crtcs devs h)
  unfolding handle_events
  handle_events-Progress [] devs h i m = record {
    kept = record { inv = i; ids = refl };
    marked = m;
    still = λ e. e;
    served = λ u. absurd u;
  }
  handle_events-Progress (crtc ∷ crtcs) devs h i m =
      Safe-and_then false (Progress (crtc ∷ crtcs) devs) (handle_event display crtc devs h)
        (λ out. handle_events display crtcs out.0 out.1) (handle_event-Progress crtc devs h i m)
        (λ out p.
          Safe-map false (handle_events display crtcs out.0 out.1)
            (λ out' p'. Progress-trans crtc crtcs devs out out' p p')
            (handle_events-Progress crtcs out.0 out.1 p.kept.inv p.marked))
