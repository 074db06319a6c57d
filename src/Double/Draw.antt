-- ===== src/Double/Draw.antt =====
-- `modeset_draw` of perftools/X/drm-howto/modeset-double-buffered.c; `next_color` is that of
-- modeset.c.
pub mod Screen
pub mod View
pub mod Refine
pub mod Balance
use debian_config_files.Base.{ℕ, zero, suc, Bool, true, false, not, List, [], ◌∷◌, if◌then◌else◌}
use debian_config_files.Modeset.Kernel.{set_crtc, CrtcSetting, Log, World, Drm}
use debian_config_files.Modeset.Setup.{note}
use debian_config_files.Modeset.Draw.{
  Buf, Memory, fill_rows, Shade, color_of, next_shade, start_shade,
}
use debian_config_files.Double.Setup.{Dev}

-- The kernel, and whether a `drmModeSetCrtc` or a `drmModePageFlip` of a CRTC to a framebuffer
-- succeeds after the calls of a log.
pub record Display : Type 0 where
  pub drm : Drm
  pub sets : Log → CrtcSetting → Bool
  pub flips : Log → ℕ → ℕ → Bool

-- `bufs[front_buf]` and `bufs[front_buf ^ 1]`.
abbrev pub front_of : Dev → Buf
front_of d = if d.front then d.buf1 else d.buf0

abbrev pub back_of : Dev → Buf
back_of d = if d.front then d.buf0 else d.buf1

-- The arguments of `drmModeSetCrtc` that show a buffer of a device.
abbrev pub program : Dev → Buf → CrtcSetting
program d b = record { crtc = d.crtc; buffer = b.fb; x = 0; y = 0; conn = d.conn; mode = d.mode }

-- The nested loops over the pixels.
pub paint : Buf → ℕ → Memory → Memory
paint b color memory = fill_rows b color 0 b.height memory

module _ (display : Display) where
  -- The body of the loop over the devices.
  pub draw_dev : ℕ → Dev → World → Dev × World
  draw_dev color d w =
      let w' : World = record w { memory = paint (back_of d) color w.memory } in
      let s = program d (back_of d) in
      (
        (if display.sets w'.log s then record d { front = not d.front } else d),
        note (set_crtc s) w',
      )

  pub draw_devs : ℕ → List Dev → World → List Dev × World
  draw_devs color [] w = ([], w)
  draw_devs color (d ∷ devs) w =
      let (d', w') = draw_dev color d w in
      let (devs', w'') = draw_devs color devs w' in (d' ∷ devs', w'')

  -- The loop over `i`, with `n` rounds left.
  pub frames : ℕ → List Dev → Shade → World → List Dev × World
  frames zero devs s w = (devs, w)
  frames (suc n) devs s w =
      let s' = next_shade display.drm s in
      let (devs', w') = draw_devs (color_of s') devs w in frames n devs' s' w'

  pub draw : List Dev → World → List Dev × World
  draw devs w = frames 50 devs (start_shade display.drm) w
