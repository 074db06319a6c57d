-- ===== src/Modeset/Setup/Framebuffer.antt =====
-- What `modeset_create_fb` of perftools/X/drm-howto/modeset.c leaves behind, on each branch.
use debian_config_files.Base.{ℕ, ◌+◌, ◌≡◌, arith}
use debian_config_files.Modeset.Kernel.{
  ModeInfo, Resource, dumb_buffer, framebuffer, mapping, World, Drm, clear,
}
use debian_config_files.Modeset.Kernel.Balance.{same, Gains}
use debian_config_files.Modeset.Crtc.{Dev}
use debian_config_files.Modeset.Setup.{Status, ok, err, destroy_dumb, remove_fb, map_fb, create_fb}

-- The device that `modeset_setup_dev` hands to `modeset_create_fb`.
abbrev pub chosen : ModeInfo → ℕ → Dev → Dev
chosen m crtc d = record d { mode = m; width = m.hdisplay; height = m.vdisplay; crtc = crtc }

-- How many times a device holds `r` through its framebuffer.
abbrev pub buffers : Resource → Dev → ℕ
buffers r d = same r (dumb_buffer d.handle) + same r (framebuffer d.fb) + same r (mapping d.map)

abbrev pub held_by : Resource → Status × Dev × World → ℕ
held_by r (ok, d, w) = buffers r d
held_by r (err e, d, w) = 0

module _ (drm : Drm) (r : Resource) where
  -- `modeset_create_fb` keeps, of any resource, exactly what its success leaves in the device (the
  -- buffer, the framebuffer and the mapping), and nothing when it fails, wherever it fails.
  pub create_fb-Gains :
      (d : Dev) (w : World)
      → Gains r w.log (create_fb drm d w).2.log (held_by r (create_fb drm d w))
  unfolding create_fb map_fb destroy_dumb remove_fb
  create_fb-Gains d w = ground arith

abbrev pub memory_after : World → Status × Dev × World → ℕ → ℕ
memory_after w (ok, d, w') = clear w.memory d.map d.size
memory_after w (err e, d, w') = w.memory

-- How a device and the memory compare with what they were.
pub record IsMapped (d : Dev) (w : World) (out : Status × Dev × World) : Type 0 where
  pub bytes : out.2.memory ≡ memory_after w out
  pub self : out.1.self ≡ d.self
  pub conn : out.1.conn ≡ d.conn
  pub crtc : out.1.crtc ≡ d.crtc
  pub mode : out.1.mode ≡ d.mode
  pub width : out.1.width ≡ d.width
  pub height : out.1.height ≡ d.height

-- `modeset_create_fb` clears the memory that it maps and no other, and does not touch the device's
-- address, connector, CRTC, mode and size.
pub create_fb-IsMapped : (drm : Drm) (d : Dev) (w : World) → IsMapped d w (create_fb drm d w)
unfolding create_fb map_fb destroy_dumb remove_fb
create_fb-IsMapped drm d w = ground arith
