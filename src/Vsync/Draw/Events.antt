-- ===== src/Vsync/Draw/Events.antt =====
-- The handling of page-flip events in perftools/X/drm-howto/modeset-vsync.c.
use debian_config_files.Base.{
  ℕ, ◌≡◌, ◌≢◌, inl, inr, refl, ap, sym, subst, ◌∙◌, Bool, true, false, none, some, List, [], ◌∷◌,
  All, arith, ◌==◌, if◌then◌else◌, Bool-cases, some_inj,
}
use debian_config_files.Double.Draw.{Display, front_of, back_of}
use debian_config_files.Vsync.Host.{
  Dev, Flip, Kernel, Host, Outcome, ended, blocked, crashed, undocumented,
}
use debian_config_files.Vsync.Draw.{arrived, draw_dev, finish_flip, page_flip_event}
use debian_config_files.Vsync.Draw.Invariant.{
  Phase, Good, ids_of, AllDistinct, Uses, Ends, Elsewhere, Good-Elsewhere, set_at-at, set_at-off,
  Stepped, Ready, Ready-Stepped, draw_dev-Stepped,
}

-- The flip of a device's CRTC is of its front buffer, and the device waits for it.
pub waiting-Good :
    (k : Kernel) (d : Dev) (f : Flip)
    → Good k d
    → k.flip d.dev.crtc ≡ some f
    → (d.pending ≡ true) × (f ≡ record { fb = (front_of d.dev).fb; user = d.dev.self })
waiting-Good k d f g e = elim (Bool-cases d.pending) [
  | inl p ↦
      let h : Phase true (k.flip d.dev.crtc) (k.scan d.dev.crtc) (front_of d.dev).fb
          (back_of d.dev).fb d.dev.self =
        subst
          (λ b.
            Phase b (k.flip d.dev.crtc) (k.scan d.dev.crtc) (front_of d.dev).fb (back_of d.dev).fb
              d.dev.self)
          p g.phase in
      (p, some_inj (sym e ∙ h.0))
  | inr p ↦
      let h : Phase false (k.flip d.dev.crtc) (k.scan d.dev.crtc) (front_of d.dev).fb
          (back_of d.dev).fb d.dev.self =
        subst
          (λ b.
            Phase b (k.flip d.dev.crtc) (k.scan d.dev.crtc) (front_of d.dev).fb (back_of d.dev).fb
              d.dev.self)
          p g.phase in
      absurd (ground (arith, sym e ∙ h.0))
]

arrived-Elsewhere : (crtc : ℕ) (f : Flip) (k : Kernel) → Elsewhere crtc k (arrived crtc f k)
arrived-Elsewhere crtc f k = record {
  flip = λ c n. set_at-off crtc c none k.flip n;
  scan = λ c n. set_at-off crtc c f.fb k.scan n;
}

arrived-Ready :
    (k : Kernel) (d : Dev) (f : Flip)
    → Good k d
    → k.flip d.dev.crtc ≡ some f
    → Ready (record d { pending = false }) (arrived d.dev.crtc f k)
arrived-Ready k d f g e =
    let w = waiting-Good k d f g e in
    record {
      saved = g.saved;
      fbs = g.fbs;
      pending = refl;
      flip = set_at-at d.dev.crtc none k.flip;
      scan = rw (set_at-at d.dev.crtc f.fb k.scan, w.1) g.fbs;
    }

Elsewhere-trans :
    (crtc : ℕ) (k k' k'' : Kernel)
    → Elsewhere crtc k k'
    → Elsewhere crtc k' k''
    → Elsewhere crtc k k''
Elsewhere-trans crtc k k' k'' e e' = record {
  flip = λ c n. e'.flip c n ∙ e.flip c n;
  scan = λ c n. e'.scan c n ∙ e.scan c n;
}

-- What the handling of an event of a CRTC leaves.
pub record Handled (crtc : ℕ) (devs : List Dev) (k : Kernel) (out : List Dev × Host) : Type 0 where
  pub good : All (Good out.1.kernel) out.0
  pub ids : ids_of out.0 ≡ ids_of devs
  pub elsewhere : Elsewhere crtc k out.1.kernel

-- The devices with other CRTCs.
pub Good-others :
    (crtc : ℕ) (k k' : Kernel) (devs : List Dev)
    → Elsewhere crtc k k'
    → (Uses crtc (ids_of devs) → ⊥)
    → All (Good k) devs
    → All (Good k') devs
Good-others crtc k k' [] e n g = tt
Good-others crtc k k' (d ∷ devs) e n g = (
  Good-Elsewhere crtc k k' d e (λ h. n (inl h)) g.0,
  Good-others crtc k k' devs e (λ h. n (inr h)) g.1,
)

pub fresh_crtc :
    (i : ℕ × ℕ) (is : List (ℕ × ℕ)) (crtc : ℕ)
    → i.1 ≡ crtc
    → All (λ j. (i.0 ≢ j.0) × (i.1 ≢ j.1)) is
    → Uses crtc is
    → ⊥
fresh_crtc i [] crtc e a u = u
fresh_crtc i (j ∷ js) crtc e a (inl h) = a.0.1 (e ∙ sym h)
fresh_crtc i (j ∷ js) crtc e a (inr u) = fresh_crtc i js crtc e a.1 u

-- The pointer in a pending flip leads to the device with its CRTC.
pub fresh_self :
    (k : Kernel) (i : ℕ × ℕ) (devs : List Dev) (crtc : ℕ) (f : Flip)
    → All (Good k) devs
    → k.flip crtc ≡ some f
    → All (λ j. (i.0 ≢ j.0) × (i.1 ≢ j.1)) (ids_of devs)
    → Uses crtc (ids_of devs)
    → i.0 ≢ f.user
fresh_self k i [] crtc f g e a u s = absurd u
fresh_self k i (d ∷ devs) crtc f g e a (inl h) s =
    a.0.0 (s ∙ ap (λ x. x.user) (waiting-Good k d f g.0 (ap k.flip h ∙ e)).1)
fresh_self k i (d ∷ devs) crtc f g e a (inr u) s = fresh_self k i devs crtc f g.1 e a.1 u s

Stepped-if :
    (b : Bool) {d : Dev} {k : Kernel} (x y : Dev × Host)
    → Stepped d k x.0 x.1.kernel
    → Stepped d k y.0 y.1.kernel
    → Stepped d k (if b then x else y).0 (if b then x else y).1.kernel
Stepped-if true x y hx hy = hx
Stepped-if false x y hx hy = hy

-- The outcome for the rest of a list, with a device before it.
abbrev pub with_first : Dev → Outcome (List Dev × Host) → Outcome (List Dev × Host)
with_first d o = elim o [
  | ended (devs, h) ↦ ended (d ∷ devs, h)
  | blocked ↦ blocked
  | crashed ↦ crashed
  | undocumented ↦ undocumented
]

Ends-below :
    (d : Dev) (k : Kernel) (crtc : ℕ) (devs : List Dev) (o : Outcome (List Dev × Host))
    → Good k d
    → d.dev.crtc ≢ crtc
    → Ends (Handled crtc devs k) o
    → Ends (Handled crtc (d ∷ devs) k) (with_first d o)
Ends-below d k crtc devs (ended (devs', h')) g n r = record {
  good = (Good-Elsewhere crtc k h'.kernel d r.elsewhere n g, r.good);
  ids = ap (λ is. (d.dev.self, d.dev.crtc) ∷ is) r.ids;
  elsewhere = r.elsewhere;
}
Ends-below d k crtc devs blocked g n r = absurd r
Ends-below d k crtc devs crashed g n r = absurd r
Ends-below d k crtc devs undocumented g n r = absurd r

module _ (display : Display) where
  pub finish_flip-Stepped :
      (d : Dev) (h : Host) (k : Kernel) (f : Flip)
      → Good k d
      → k.flip d.dev.crtc ≡ some f
      → h.kernel ≡ arrived d.dev.crtc f k
      → Stepped d k (finish_flip display d h).0 (finish_flip display d h).1.kernel
  unfolding finish_flip
  finish_flip-Stepped d h k f g e a =
      let d' : Dev = record d { pending = false } in
      let r : Ready d' h.kernel = rw a (arrived-Ready k d f g e) in
      let s = draw_dev-Stepped display d' h r in
      let far : Elsewhere d.dev.crtc k h.kernel = rw a (arrived-Elsewhere d.dev.crtc f k) in
      Stepped-if d.cleanup (d', h) (draw_dev display d' h)
        (record {
          self = refl;
          crtc = refl;
          buf0 = refl;
          buf1 = refl;
          cleanup = refl;
          good = (Ready-Stepped d' h.kernel r).good;
          elsewhere = far;
        })
        (record {
          self = s.self;
          crtc = s.crtc;
          buf0 = s.buf0;
          buf1 = s.buf1;
          cleanup = s.cleanup;
          good = s.good;
          elsewhere =
              Elsewhere-trans d.dev.crtc k h.kernel (draw_dev display d' h).1.kernel far
                s.elsewhere;
        })

  pub page_flip_event-found :
      (d : Dev) (devs : List Dev) (h : Host) (user : ℕ)
      → user ≡ d.dev.self
      → page_flip_event display user (d ∷ devs) h
        ≡ ended ((finish_flip display d h).0 ∷ devs, (finish_flip display d h).1)
  unfolding page_flip_event
  page_flip_event-found d devs h user e =
      let same : (d.dev.self == user) ≡ true = ground arith in rw (same, page_flip_event) refl

  pub page_flip_event-missed :
      (d : Dev) (devs : List Dev) (h : Host) (user : ℕ)
      → d.dev.self ≢ user
      → page_flip_event display user (d ∷ devs) h
        ≡ with_first d (page_flip_event display user devs h)
  unfolding page_flip_event
  page_flip_event-missed d devs h user n =
      let differ : (d.dev.self == user) ≡ false = ground arith in rw (differ, page_flip_event) refl

  pub page_flip_event-Handled :
      (crtc : ℕ) (f : Flip) (k : Kernel) (devs : List Dev) (h : Host)
      → All (Good k) devs
      → AllDistinct (ids_of devs)
      → Uses crtc (ids_of devs)
      → k.flip crtc ≡ some f
      → h.kernel ≡ arrived crtc f k
      → Ends (Handled crtc devs k) (page_flip_event display f.user devs h)
  unfolding page_flip_event
  page_flip_event-Handled crtc f k [] h g u s e a = absurd s
  page_flip_event-Handled crtc f k (d ∷ devs) h g u (inl here) e a =
      let e' : k.flip d.dev.crtc ≡ some f = ap k.flip here ∙ e in
      let user = ap (λ x. x.user) (waiting-Good k d f g.0 e').1 in
      let s = finish_flip-Stepped d h k f g.0 e' (rw here a) in
      let far = subst (λ c. Elsewhere c k (finish_flip display d h).1.kernel) here s.elsewhere in
      subst (Ends (Handled crtc (d ∷ devs) k)) (sym (page_flip_event-found d devs h f.user user))
        (record {
          good = (
            s.good,
            Good-others crtc k _ devs far
                (fresh_crtc (d.dev.self, d.dev.crtc) (ids_of devs) crtc here u.0) g.1,
          );
          ids = rw (s.self, s.crtc) refl;
          elsewhere = far;
        })
  page_flip_event-Handled crtc f k (d ∷ devs) h g u (inr there) e a =
      let n = fresh_self k (d.dev.self, d.dev.crtc) devs crtc f g.1 e u.0 there in
      let m : d.dev.crtc ≢ crtc =
        λ q. fresh_crtc (d.dev.self, d.dev.crtc) (ids_of devs) crtc q u.0 there in
      subst (Ends (Handled crtc (d ∷ devs) k)) (sym (page_flip_event-missed d devs h f.user n)) (
        Ends-below d k crtc devs (page_flip_event display f.user devs h) g.0 m
          (page_flip_event-Handled crtc f k devs h g.1 u.1 there e a))
