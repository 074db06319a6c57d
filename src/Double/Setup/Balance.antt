-- ===== src/Double/Setup/Balance.antt =====
-- What `modeset_setup_dev` and `modeset_prepare` of
-- perftools/X/drm-howto/modeset-double-buffered.c hold when they return.
use debian_config_files.Base.{
  ℕ, ◌+◌, ◌≡◌, ◌⊎◌, refl, Bool, true, false, List, [], ◌∷◌, arith, ap, inl, inr,
}
use debian_config_files.Modeset.Kernel.{
  ModeInfo, Connector, Resources, Resource, device, dumb_buffer, framebuffer, mapping, World, Drm,
  Log, Reply-cases,
}
use debian_config_files.Modeset.Kernel.Balance.{same, Gains}
use debian_config_files.Modeset.Crtc.{find_crtc}
use debian_config_files.Modeset.Crtc.Release.{find_crtc-Gains}
use debian_config_files.Modeset.Setup.{Status, ok, err}
use debian_config_files.Modeset.Draw.{Buf}
use debian_config_files.Double.Setup.{
  Dev, crtcs_of, blank_buf, destroy_dumb, remove_fb, destroy_fb, map_fb, create_fb, second_fb,
  both_fbs, setup_mode, setup_dev,
}

-- How many times a buffer, a device with its two buffers, and a list of devices hold `r`.
abbrev pub held_buf : Resource → Buf → ℕ
held_buf r b = same r (dumb_buffer b.handle) + same r (framebuffer b.fb) + same r (mapping b.map)

abbrev pub held_bufs : Resource → Dev → ℕ
held_bufs r d = held_buf r d.buf0 + held_buf r d.buf1

abbrev pub held : Resource → List Dev → ℕ
held r [] = 0
held r (d ∷ devs) = same r (device d.self) + held_bufs r d + held r devs

abbrev pub fb_held : Resource → Status × Buf × World → ℕ
fb_held r (ok, b, w) = held_buf r b
fb_held r (err e, b, w) = 0

abbrev pub held_by : Resource → Status × Dev × World → ℕ
held_by r (ok, d, w) = held_bufs r d
held_by r (err e, d, w) = 0

-- The device that `modeset_setup_dev` creates the buffers for.
abbrev sized : ModeInfo → ℕ → Dev → Dev
sized m crtc d = record d {
  mode = m;
  buf0 = blank_buf m.hdisplay m.vdisplay;
  buf1 = blank_buf m.hdisplay m.vdisplay;
  crtc = crtc;
}

pub Status-cases : (s : Status) → (s ≡ ok) ⊎ ((e : ℕ) × (s ≡ err e))
Status-cases ok = inl refl
Status-cases (err e) = inr (e, refl)

module _ (drm : Drm) (r : Resource) where
  pub create_fb-Gains :
      (b : Buf) (w : World)
      → Gains r w.log (create_fb drm b w).2.log (fb_held r (create_fb drm b w))
  unfolding create_fb map_fb destroy_dumb remove_fb
  create_fb-Gains b w = ground arith

  pub destroy_fb-released :
      (b : Buf) (w : World) → Gains r (destroy_fb b w).log w.log (held_buf r b)
  unfolding destroy_fb destroy_dumb remove_fb
  destroy_fb-released b w = omega arith

  pub create_fb-ok :
      (b : Buf) (w : World)
      → (create_fb drm b w).0 ≡ ok
      → fb_held r (create_fb drm b w) ≡ held_buf r (create_fb drm b w).1
  create_fb-ok b w e = ap (λ s. fb_held r (s, (create_fb drm b w).1, (create_fb drm b w).2)) e

  pub create_fb-err :
      (b : Buf) (w : World) {x : ℕ}
      → (create_fb drm b w).0 ≡ err x
      → fb_held r (create_fb drm b w) ≡ 0
  create_fb-err b w e = ap (λ s. fb_held r (s, (create_fb drm b w).1, (create_fb drm b w).2)) e

  second_fb-Gains :
      (d : Dev) (b0 : Buf) (w : World) (l : Log)
      → Gains r l w.log (held_buf r b0)
      → Gains r l (second_fb drm d b0 w).2.log (held_by r (second_fb drm d b0 w))
  unfolding second_fb
  second_fb-Gains d b0 w l h =
      let g = create_fb-Gains d.buf1 w in
      let undone = destroy_fb-released b0 (create_fb drm d.buf1 w).2 in
      elim (Status-cases (create_fb drm d.buf1 w).0) [
        | inl e ↦ rw (e, second_fb) (omega (arith, h, rw (create_fb-ok d.buf1 w e) at g))
        | inr (x, e) ↦
            rw (e, second_fb) (omega (arith, h, undone, rw (create_fb-err d.buf1 w e) at g))
      ]

  both_fbs-Gains :
      (d : Dev) (w : World) → Gains r w.log (both_fbs drm d w).2.log (held_by r (both_fbs drm d w))
  unfolding both_fbs
  both_fbs-Gains d w =
      let g = create_fb-Gains d.buf0 w in
      elim (Status-cases (create_fb drm d.buf0 w).0) [
        | inl e ↦
            rw (e, both_fbs)
              (second_fb-Gains d _ _ w.log (omega (arith, rw (create_fb-ok d.buf0 w e) at g)))
        | inr (x, e) ↦ rw (e, both_fbs) (omega (arith, rw (create_fb-err d.buf0 w e) at g))
      ]

  setup_mode-Gains :
      (devs : List Dev) (res : Resources) (c : Connector) (m : ModeInfo) (d : Dev) (w : World)
      → Gains r w.log
          (setup_mode drm devs res c m d w).2.log
          (held_by r (setup_mode drm devs res c m d w))
  unfolding setup_mode
  setup_mode-Gains devs res c m d w =
      let g = find_crtc-Gains r drm (crtcs_of devs) res c w.log in
      elim (Reply-cases (find_crtc drm (crtcs_of devs) res c w.log).0) [
        | inl (crtc, s) ↦ rw (s, setup_mode) (omega (arith, g, both_fbs-Gains (sized m crtc d) _))
        | inr (e, s) ↦ rw (s, setup_mode) (omega (arith, g))
      ]

  pub setup_dev-Gains :
      (devs : List Dev) (res : Resources) (c : Connector) (d : Dev) (w : World)
      → Gains r w.log
          (setup_dev drm devs res c d w).2.log
          (held_by r (setup_dev drm devs res c d w))
  unfolding setup_dev
  setup_dev-Gains devs res c d w = go c.connected c.modes refl refl
    where
      go :
          (b : Bool) (ms : List ModeInfo)
          → c.connected ≡ b
          → c.modes ≡ ms
          → Gains r w.log
              (setup_dev drm devs res c d w).2.log
              (held_by r (setup_dev drm devs res c d w))
      go false ms p q = rw (p, setup_dev) (omega arith)
      go true [] p q = rw (p, q, setup_dev) (omega arith)
      go true (m ∷ ms) p q = rw (p, q, setup_dev) (setup_mode-Gains devs res c m d w)
