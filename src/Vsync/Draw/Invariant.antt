-- ===== src/Vsync/Draw/Invariant.antt =====
-- The state that perftools/X/drm-howto/modeset-vsync.c keeps together with the kernel: which flips
-- are pending, and which of a device's two buffers is shown.
use debian_config_files.Base.{
  ℕ, ◌≡◌, ◌≢◌, ◌⊎◌, inl, inr, refl, sym, Bool, true, false, Option, none, some, List, [], ◌∷◌, All,
  arith, Bool-cases, ◌&&◌,
}
use debian_config_files.Modeset.Kernel.{SavedCrtc}
use debian_config_files.Modeset.Draw.{color_of, next_shade}
use debian_config_files.Double.Draw.{Display, front_of, back_of, paint}
use debian_config_files.Vsync.Host.{
  Dev, Flip, Kernel, Host, set_at, Outcome, ended, blocked, crashed, undocumented,
}
use debian_config_files.Vsync.Draw.{flipped, schedule, is_idle, flip_dev, draw_dev}

-- A flip is pending of the front buffer, and another buffer is shown; or none is pending, and the
-- back buffer is not shown.
abbrev pub Phase : Bool → Option Flip → ℕ → ℕ → ℕ → ℕ → Type 0
Phase false flip scan front back self = (flip ≡ none) × (scan ≢ back)
Phase true flip scan front back self =
    (flip ≡ some (record { fb = front; user = self })) × (scan ≢ front)

-- What was saved of the device's CRTC.
abbrev pub Restores : Dev → Type 0
Restores d = (c : SavedCrtc) × (d.dev.saved ≡ some c) × (c.crtc_id ≡ d.dev.crtc)

pub record Good (k : Kernel) (d : Dev) : Type 0 where
  pub saved : Restores d
  pub fbs : (front_of d.dev).fb ≢ (back_of d.dev).fb
  pub phase :
      Phase d.pending
        (k.flip d.dev.crtc)
        (k.scan d.dev.crtc)
        (front_of d.dev).fb
        (back_of d.dev).fb
        d.dev.self

-- The allocation and the CRTC of each device, which do not change.
abbrev pub ids_of : List Dev → List (ℕ × ℕ)
ids_of [] = []
ids_of (d ∷ devs) = (d.dev.self, d.dev.crtc) ∷ ids_of devs

abbrev pub AllDistinct : List (ℕ × ℕ) → Type 0
AllDistinct [] = Unit
AllDistinct (i ∷ is) = All (λ j. (i.0 ≢ j.0) × (i.1 ≢ j.1)) is × AllDistinct is

-- The CRTC is one of the devices'.
abbrev pub Uses : ℕ → List (ℕ × ℕ) → Type 0
Uses crtc [] = ⊥
Uses crtc (i ∷ is) = (i.1 ≡ crtc) ⊎ Uses crtc is

pub record Inv (devs : List Dev) (k : Kernel) : Type 0 where
  pub good : All (Good k) devs
  pub distinct : AllDistinct (ids_of devs)
  pub owned : (crtc : ℕ) (f : Flip) → k.flip crtc ≡ some f → Uses crtc (ids_of devs)

-- It did not crash or block, and what it ended with has a property.
abbrev pub Ends {ℓ} : {A : Type ℓ} → (A → Type 0) → Outcome A → Type 0
Ends P (ended a) = P a
Ends P blocked = ⊥
Ends P crashed = ⊥
Ends P undocumented = ⊥

-- The kernel's state is the same but for one CRTC, and no flip of another is new.
pub record Elsewhere (crtc : ℕ) (k k' : Kernel) : Type 0 where
  pub flip : (c : ℕ) → c ≢ crtc → k'.flip c ≡ k.flip c
  pub scan : (c : ℕ) → c ≢ crtc → k'.scan c ≡ k.scan c

pub Good-Elsewhere :
    (crtc : ℕ) (k k' : Kernel) (d : Dev)
    → Elsewhere crtc k k'
    → d.dev.crtc ≢ crtc
    → Good k d
    → Good k' d
Good-Elsewhere crtc k k' d e n g = record {
  saved = g.saved;
  fbs = g.fbs;
  phase = rw (e.flip d.dev.crtc n, e.scan d.dev.crtc n) g.phase;
}

pub set_at-at {ℓ} : {A : Type ℓ} (i : ℕ) (a : A) (f : ℕ → A) → set_at i a f i ≡ a
set_at-at i a f = ground arith

pub set_at-off {ℓ} : {A : Type ℓ} (i j : ℕ) (a : A) (f : ℕ → A) → j ≢ i → set_at i a f j ≡ f j
set_at-off i j a f n = ground arith

-- What a step for one device leaves.
pub record Stepped (d : Dev) (k : Kernel) (d' : Dev) (k' : Kernel) : Type 0 where
  pub self : d'.dev.self ≡ d.dev.self
  pub crtc : d'.dev.crtc ≡ d.dev.crtc
  pub buf0 : d'.dev.buf0 ≡ d.dev.buf0
  pub buf1 : d'.dev.buf1 ≡ d.dev.buf1
  pub cleanup : d'.cleanup ≡ d.cleanup
  pub good : Good k' d'
  pub elsewhere : Elsewhere d.dev.crtc k k'

-- A device that waits for nothing.
pub record Ready (d : Dev) (k : Kernel) : Type 0 where
  pub saved : Restores d
  pub fbs : (front_of d.dev).fb ≢ (back_of d.dev).fb
  pub pending : d.pending ≡ false
  pub flip : k.flip d.dev.crtc ≡ none
  pub scan : k.scan d.dev.crtc ≢ (back_of d.dev).fb

Elsewhere-refl : (crtc : ℕ) (k : Kernel) → Elsewhere crtc k k
Elsewhere-refl crtc k = record { flip = λ c n. refl; scan = λ c n. refl }

pub Ready-Stepped : (d : Dev) (k : Kernel) → Ready d k → Stepped d k d k
Ready-Stepped d k r = record {
  self = refl;
  crtc = refl;
  buf0 = refl;
  buf1 = refl;
  cleanup = refl;
  good = record { saved = r.saved; fbs = r.fbs; phase = rw r.pending (r.flip, r.scan) };
  elsewhere = Elsewhere-refl d.dev.crtc k;
}

front_of-flipped : (d : Dev) → front_of (flipped d).dev ≡ back_of d.dev
front_of-flipped d = elim (Bool-cases d.dev.front) [ inl e ↦ rw e refl | inr e ↦ rw e refl ]

back_of-flipped : (d : Dev) → back_of (flipped d).dev ≡ front_of d.dev
back_of-flipped d = elim (Bool-cases d.dev.front) [ inl e ↦ rw e refl | inr e ↦ rw e refl ]

flipped-Stepped :
    (d : Dev) (k : Kernel)
    → Ready d k
    → Stepped d k
        (flipped d)
        (schedule d.dev.crtc (record { fb = (back_of d.dev).fb; user = d.dev.self }) k)
flipped-Stepped d k r =
    let f : Flip = record { fb = (back_of d.dev).fb; user = d.dev.self } in
    record {
      self = refl;
      crtc = refl;
      buf0 = refl;
      buf1 = refl;
      cleanup = refl;
      good = record {
        saved = r.saved;
        fbs = rw (front_of-flipped d, back_of-flipped d) (λ e. r.fbs (sym e));
        phase = rw (front_of-flipped d) (set_at-at d.dev.crtc (some f) k.flip, r.scan);
      };
      elsewhere = record {
        flip = λ c n. set_at-off d.dev.crtc c (some f) k.flip n;
        scan = λ c n. refl;
      };
    }

module _ (display : Display) where
  pub flip_dev-Stepped :
      (d : Dev) (h : Host)
      → Ready d h.kernel
      → Stepped d h.kernel (flip_dev display d h).0 (flip_dev display d h).1.kernel
  unfolding flip_dev
  flip_dev-Stepped d h r =
      elim (Bool-cases (
        is_idle (h.kernel.flip d.dev.crtc)
        && display.flips h.world.log d.dev.crtc (back_of d.dev).fb)) [
          | inl e ↦ rw e (flipped-Stepped d h.kernel r)
          | inr e ↦ rw e (Ready-Stepped d h.kernel r)
        ]

  pub draw_dev-Stepped :
      (d : Dev) (h : Host)
      → Ready d h.kernel
      → Stepped d h.kernel (draw_dev display d h).0 (draw_dev display d h).1.kernel
  unfolding draw_dev
  draw_dev-Stepped d h r =
      let shade = next_shade display.drm (record d.shade { calls = h.rands }) in
      let memory = paint (back_of d.dev) (color_of shade) h.world.memory in
      let h' : Host = record h {
        world = record h.world { memory = memory };
        rands = shade.calls;
      } in
      let s =
        flip_dev-Stepped (record d { shade = shade }) h'
          (record {
            saved = r.saved;
            fbs = r.fbs;
            pending = r.pending;
            flip = r.flip;
            scan = r.scan;
          }) in
      record {
        self = s.self;
        crtc = s.crtc;
        buf0 = s.buf0;
        buf1 = s.buf1;
        cleanup = s.cleanup;
        good = s.good;
        elsewhere = s.elsewhere;
      }
