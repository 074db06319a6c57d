-- ===== src/Vsync/Draw/Untouched.antt =====
-- The bytes that the handling of a page-flip event leaves alone in
-- perftools/X/drm-howto/modeset-vsync.c.
use debian_config_files.Base.{
  ℕ, ◌+◌, ◌≡◌, ◌≤◌, ◌<◌, inl, inr, refl, ap, sym, subst, ◌∙◌, Bool, true, false, List, [], ◌∷◌, All,
  arith, Bool-cases, if◌then◌else◌, ◌&&◌, ◌==◌,
}
use debian_config_files.Modeset.Draw.{Buf, Memory, color_of, next_shade}
use debian_config_files.Modeset.Draw.Pixels.{Covers}
use debian_config_files.Double.Setup as Double
use debian_config_files.Double.Draw.{Display, front_of, back_of, paint}
use debian_config_files.Double.Draw.Screen.{Apart, bufs_of, front-All, paint-Apart}
use debian_config_files.Vsync.Host.{Dev, Host, Outcome, ended, blocked, crashed, undocumented}
use debian_config_files.Vsync.Draw.{is_idle, flip_dev, draw_dev, finish_flip, page_flip_event}
use debian_config_files.Vsync.Draw.Events.{
  with_first, page_flip_event-found, page_flip_event-missed,
}
use debian_config_files.Vsync.Draw.Safety.{Safe}

abbrev pub inner : List Dev → List Double.Dev
inner [] = []
inner (d ∷ devs) = d.dev ∷ inner devs

-- No byte of a buffer differs.
abbrev pub SameBytes : Buf → Memory → Memory → Type 0
SameBytes b m m' = (p : ℕ) → b.map ≤ p → p < b.map + b.size → m' p ≡ m p

-- Whatever it ends with has a property.
abbrev pub After {ℓ} : {A : Type ℓ} → (A → Type 0) → Outcome A → Type 0
After P (ended a) = P a
After P blocked = Unit
After P crashed = Unit
After P undocumented = Unit

pub After-Safe {ℓ} :
    {A : Type ℓ} (P Q : A → Type 0) (o : Outcome A) → Safe false P o → After Q o → Safe false Q o
After-Safe P Q (ended a) s h = h
After-Safe P Q blocked s h = s
After-Safe P Q crashed s h = s
After-Safe P Q undocumented s h = s

-- What is true of the front and the back buffer is true of the two buffers.
pub both-All :
    (P : Buf → Type 0) (d : Double.Dev) → P (front_of d) → P (back_of d) → P d.buf0 × P d.buf1
both-All P d f b = go d.front refl
  where
    go : (x : Bool) → d.front ≡ x → P d.buf0 × P d.buf1
    go true e = (
      subst (λ y. P (if y then d.buf0 else d.buf1)) e b,
      subst (λ y. P (if y then d.buf1 else d.buf0)) e f,
    )
    go false e = (
      subst (λ y. P (if y then d.buf1 else d.buf0)) e f,
      subst (λ y. P (if y then d.buf0 else d.buf1)) e b,
    )

-- What an event leaves of a buffer that lies apart, and of what is shown.
pub record Untouched (b : Buf) (h : Host) (out : Host) : Type 0 where
  pub bytes : SameBytes b h.world.memory out.world.memory
  pub scan : out.kernel.scan ≡ h.kernel.scan

After-with_first :
    (P : Host → Type 0) (d : Dev) (o : Outcome (List Dev × Host))
    → After (λ out. P out.1) o
    → After (λ out. P out.1) (with_first d o)
After-with_first P d (ended (devs, h)) a = a
After-with_first P d blocked a = a
After-with_first P d crashed a = a
After-with_first P d undocumented a = a

module _ (display : Display) where
  flip_dev-memory :
      (d : Dev) (h : Host)
      → ((flip_dev display d h).1.world.memory ≡ h.world.memory)
        × ((flip_dev display d h).1.kernel.scan ≡ h.kernel.scan)
  unfolding flip_dev
  flip_dev-memory d h =
      elim (Bool-cases (
        is_idle (h.kernel.flip d.dev.crtc)
        && display.flips h.world.log d.dev.crtc (back_of d.dev).fb)) [
          | inl e ↦ rw e (refl, refl)
          | inr e ↦ rw e (refl, refl)
        ]

  draw_dev-Untouched :
      (b : Buf) (d : Dev) (h : Host)
      → Covers (back_of d.dev)
      → Apart b (back_of d.dev)
      → Untouched b h (draw_dev display d h).1
  unfolding draw_dev
  draw_dev-Untouched b d h v a =
      let shade = next_shade display.drm (record d.shade { calls = h.rands }) in
      let memory = paint (back_of d.dev) (color_of shade) h.world.memory in
      let (same, scan) =
        flip_dev-memory (record d { shade = shade })
          (record h { world = record h.world { memory = memory }; rands = shade.calls }) in
      record {
        bytes = λ p lo hi.
            ap (λ m. m p) same
            ∙ paint-Apart (back_of d.dev) b (color_of shade) h.world.memory p v a lo hi;
        scan = scan;
      }

  pub finish_flip-Untouched :
      (b : Buf) (d : Dev) (h : Host)
      → Covers (back_of d.dev)
      → Apart b (back_of d.dev)
      → Untouched b h (finish_flip display d h).1
  unfolding finish_flip
  finish_flip-Untouched b d h v a = go d.cleanup
    where
      d' : Dev
      d' = record d { pending = false }

      go : (c : Bool) → Untouched b h (if c then (d', h) else draw_dev display d' h).1
      go true = record { bytes = λ p lo hi. refl; scan = refl }
      go false = let u = draw_dev-Untouched b d' h v a in record { bytes = u.bytes; scan = u.scan }

  -- A buffer that lies apart from those of all devices.
  pub page_flip_event-Untouched :
      (b : Buf) (user : ℕ) (devs : List Dev) (h : Host)
      → All Covers (bufs_of (inner devs))
      → All (Apart b) (bufs_of (inner devs))
      → After (λ out. Untouched b h out.1) (page_flip_event display user devs h)
  unfolding page_flip_event
  page_flip_event-Untouched b user [] h v a = tt
  page_flip_event-Untouched b user (d ∷ devs) h v a = elim (Bool-cases (d.dev.self == user)) [
    | inl same ↦
        subst (After (λ out. Untouched b h out.1))
          (sym (page_flip_event-found display d devs h user (ground arith)))
          (finish_flip-Untouched b d h (front-All Covers d.dev v.0 v.1.0).1
            (front-All (Apart b) d.dev a.0 a.1.0).1)
    | inr differ ↦
        subst (After (λ out. Untouched b h out.1))
          (sym (page_flip_event-missed display d devs h user (ground arith)))
          (After-with_first (Untouched b h) d (page_flip_event display user devs h)
            (page_flip_event-Untouched b user devs h v.1.1 a.1.1))
  ]
