-- ===== src/Vsync/Draw/Safety.antt =====
-- Drawing in perftools/X/drm-howto/modeset-vsync.c, from its first flip to the end of
-- `modeset_draw`.
use debian_config_files.Base.{
  ℕ, ◌≡◌, inl, inr, refl, sym, subst, ◌∙◌, Bool, true, false, none, some, List, [], ◌∷◌, arith,
  ◌==◌, if◌then◌else◌, Bool-cases, Option-cases, ltb,
}
use debian_config_files.Double.Draw.{Display}
use debian_config_files.Vsync.Host.{
  Dev, Flip, Kernel, Host, Outcome, ended, blocked, crashed, undocumented, Round, Select, error,
  input, ready, timeout,
}
use debian_config_files.Vsync.Draw.{arrived, page_flip_event, handle_event, handle_events, watch}
use debian_config_files.Vsync.Draw.Invariant.{ids_of, Uses, Inv, Ends}
use debian_config_files.Vsync.Draw.Events.{Handled, page_flip_event-Handled}

-- It did not crash, it is not stuck unless it may be, and what it ended with has a property; or
-- the kernel sent an event of a flip that was not pending.
abbrev pub Safe {ℓ} : {A : Type ℓ} → Bool → (A → Type 0) → Outcome A → Type 0
Safe may P (ended a) = P a
Safe may P blocked = may ≡ true
Safe may P crashed = ⊥
Safe may P undocumented = Unit

abbrev pub and_then {ℓ κ} : {A : Type ℓ} {B : Type κ} → Outcome A → (A → Outcome B) → Outcome B
and_then o f = elim o [
  | ended a ↦ f a
  | blocked ↦ blocked
  | crashed ↦ crashed
  | undocumented ↦ undocumented
]

pub Safe-and_then {ℓ κ} :
    {A : Type ℓ} {B : Type κ} {P : A → Type 0} (may : Bool) (Q : B → Type 0) (o : Outcome A)
    (f : A → Outcome B)
    → Safe may P o
    → ((a : A) → P a → Safe may Q (f a))
    → Safe may Q (and_then o f)
Safe-and_then may Q (ended a) f h g = g a h
Safe-and_then may Q blocked f h g = h
Safe-and_then may Q crashed f h g = absurd h
Safe-and_then may Q undocumented f h g = tt

pub Safe-if {ℓ} :
    {A : Type ℓ} (may : Bool) (P : A → Type 0) (b : Bool) (x y : Outcome A)
    → Safe may P x
    → Safe may P y
    → Safe may P (if b then x else y)
Safe-if may P true x y hx hy = hx
Safe-if may P false x y hx hy = hy

pub Safe-map {ℓ} :
    {A : Type ℓ} {P Q : A → Type 0} (may : Bool) (o : Outcome A)
    → ((a : A) → P a → Q a)
    → Safe may P o
    → Safe may Q o
Safe-map may (ended a) f h = f a h
Safe-map may blocked f h = h
Safe-map may crashed f h = h
Safe-map may undocumented f h = tt

pub Safe-may {ℓ} : {A : Type ℓ} (P : A → Type 0) (o : Outcome A) → Safe false P o → Safe true P o
Safe-may P (ended a) h = h
Safe-may P blocked h = refl
Safe-may P crashed h = h
Safe-may P undocumented h = h

pub Ends-Safe {ℓ} :
    {A : Type ℓ} {P Q : A → Type 0} (o : Outcome A)
    → ((a : A) → P a → Q a)
    → Ends P o
    → Safe false Q o
Ends-Safe (ended a) f h = f a h
Ends-Safe blocked f h = absurd h
Ends-Safe crashed f h = absurd h
Ends-Safe undocumented f h = absurd h

-- The invariant, for the same devices.
pub record Kept (devs : List Dev) (out : List Dev × Host) : Type 0 where
  pub inv : Inv out.0 out.1.kernel
  pub ids : ids_of out.0 ≡ ids_of devs

Handled-Kept :
    (crtc : ℕ) (devs : List Dev) (k : Kernel) (out : List Dev × Host)
    → Inv devs k
    → Uses crtc (ids_of devs)
    → Handled crtc devs k out
    → Kept devs out
Handled-Kept crtc devs k out i u r = record {
  inv = record {
    good = r.good;
    distinct = rw r.ids i.distinct;
    owned = λ c f e. elim (Bool-cases (c == crtc)) [
      | inl q ↦ rw r.ids (subst (λ x. Uses x (ids_of devs)) (ground arith) u)
      | inr q ↦ rw r.ids (i.owned c f (sym (r.elsewhere.flip c (ground arith)) ∙ e))
    ];
  };
  ids = r.ids;
}

pub Kept-trans :
    (devs : List Dev) (out out' : List Dev × Host)
    → Kept devs out
    → Kept out.0 out'
    → Kept devs out'
Kept-trans devs out out' k k' = record { inv = k'.inv; ids = k'.ids ∙ k.ids }

module _ (display : Display) where
  pub handle_event-none :
      (crtc : ℕ) (devs : List Dev) (h : Host)
      → h.kernel.flip crtc ≡ none
      → handle_event display crtc devs h ≡ undocumented
  unfolding handle_event
  handle_event-none crtc devs h e = rw (e, handle_event) refl

  pub handle_event-some :
      (crtc : ℕ) (devs : List Dev) (h : Host) (f : Flip)
      → h.kernel.flip crtc ≡ some f
      → handle_event display crtc devs h
        ≡ page_flip_event display f.user devs (record h { kernel = arrived crtc f h.kernel })
  unfolding handle_event
  handle_event-some crtc devs h f e = rw (e, handle_event) refl

  pub handle_event-Kept :
      (crtc : ℕ) (devs : List Dev) (h : Host)
      → Inv devs h.kernel
      → Safe false (Kept devs) (handle_event display crtc devs h)
  unfolding handle_event
  handle_event-Kept crtc devs h i = elim (Option-cases (h.kernel.flip crtc)) [
    | inl e ↦ subst (Safe false (Kept devs)) (sym (handle_event-none crtc devs h e)) tt
    | inr (f, e) ↦
        let u = i.owned crtc f e in
        let h' : Host = record h { kernel = arrived crtc f h.kernel } in
        subst (Safe false (Kept devs)) (sym (handle_event-some crtc devs h f e)) (
          Ends-Safe (page_flip_event display f.user devs h')
            (λ out r. Handled-Kept crtc devs h.kernel out i u r)
            (page_flip_event-Handled display crtc f h.kernel devs h' i.good i.distinct u e refl))
  ]

  -- From a state where each pending flip is of the front buffer of a device that waits for it, while
  -- the other buffer is shown, the handling of any events of pending flips crashes nothing, waits for
  -- nothing, and leads to such a state of the same devices.
  pub handle_events-Kept :
      (crtcs : List ℕ) (devs : List Dev) (h : Host)
      → Inv devs h.kernel
      → Safe false (Kept devs) (handle_events display crtcs devs h)
  unfolding handle_events
  handle_events-Kept [] devs h i = record { inv = i; ids = refl }
  handle_events-Kept (crtc ∷ crtcs) devs h i =
      Safe-and_then false (Kept devs) (handle_event display crtc devs h)
        (λ out. handle_events display crtcs out.0 out.1) (handle_event-Kept crtc devs h i)
        (λ out k.
          Safe-map false (handle_events display crtcs out.0 out.1)
            (λ out' k'. Kept-trans devs out out' k k') (handle_events-Kept crtcs out.0 out.1 k.inv))

  -- What one round does, when the others are safe.
  round-Kept :
      (stop : ℕ) (rounds : List Round) (devs : List Dev) (h : Host) (go : Bool) (s : Select)
      → Inv devs h.kernel
      → ((devs' : List Dev) (h' : Host)
          → Inv devs' h'.kernel
          → Safe true (Kept devs') (watch display stop rounds devs' h'))
      → Safe true (Kept devs) (elim go [
        | false ↦ ended (devs, h)
        | true ↦ elim s [
          | error ↦ ended (devs, h)
          | input ↦ ended (devs, h)
          | timeout ↦ watch display stop rounds devs h
          | ready crtcs ↦
              and_then
                (handle_events display crtcs devs h)
                (λ out. watch display stop rounds out.0 out.1)
        ]
      ])
  round-Kept stop rounds devs h false s i rest = record { inv = i; ids = refl }
  round-Kept stop rounds devs h true error i rest = record { inv = i; ids = refl }
  round-Kept stop rounds devs h true input i rest = record { inv = i; ids = refl }
  round-Kept stop rounds devs h true timeout i rest = rest devs h i
  round-Kept stop rounds devs h true (ready crtcs) i rest =
      Safe-and_then true (Kept devs) (handle_events display crtcs devs h)
        (λ out. watch display stop rounds out.0 out.1)
        (Safe-may (Kept devs) (handle_events display crtcs devs h)
          (handle_events-Kept crtcs devs h i))
        (λ out k.
          Safe-map true (watch display stop rounds out.0 out.1)
            (λ out' k'. Kept-trans devs out out' k k') (rest out.0 out.1 k.inv))

  pub watch-Kept :
      (stop : ℕ) (rounds : List Round) (devs : List Dev) (h : Host)
      → Inv devs h.kernel
      → Safe true (Kept devs) (watch display stop rounds devs h)
  unfolding watch
  watch-Kept stop [] devs h i = refl
  watch-Kept stop (round ∷ rounds) devs h i =
      round-Kept stop rounds devs h (ltb round.now stop) round.select i
        (λ devs' h' i'. watch-Kept stop rounds devs' h' i')
