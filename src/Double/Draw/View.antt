-- ===== src/Double/Draw/View.antt =====
-- What a viewer sees of modeset-double-buffered.c in perftools/X/drm-howto, without its buffers'
-- bytes: for each screen the buffer that the kernel shows and one colour.
use debian_config_files.Base.{ℕ, zero, suc, List, [], ◌∷◌, if◌then◌else◌}
use debian_config_files.Modeset.Kernel.{ModeInfo, CrtcSetting, set_crtc, Log}
use debian_config_files.Modeset.Draw.{Buf, Shade, color_of, next_shade}
use debian_config_files.Double.Setup.{Dev}
use debian_config_files.Double.Draw.{Display, front_of, back_of}

-- A screen: how it is driven, the buffer that is shown, the one that is not, and the colour.
pub record Screen : Type 0 where
  pub crtc : ℕ
  pub conn : ℕ
  pub mode : ModeInfo
  pub shown : Buf
  pub hidden : Buf
  pub color : ℕ

-- The setting that would show the hidden buffer.
abbrev pub wanted : Screen → CrtcSetting
wanted s = record {
  crtc = s.crtc;
  buffer = s.hidden.fb;
  x = 0;
  y = 0;
  conn = s.conn;
  mode = s.mode;
}

-- The screen of a device whose front buffer shows a colour.
abbrev pub screen_of : Dev → ℕ → Screen
screen_of d color = record {
  crtc = d.crtc;
  conn = d.conn;
  mode = d.mode;
  shown = front_of d;
  hidden = back_of d;
  color = color;
}

abbrev pub screens_of : List Dev → List ℕ → List Screen
screens_of [] colors = []
screens_of (d ∷ devs) [] = []
screens_of (d ∷ devs) (c ∷ colors) = screen_of d c ∷ screens_of devs colors

abbrev pub colors_of : List Screen → List ℕ
colors_of [] = []
colors_of (s ∷ screens) = s.color ∷ colors_of screens

module _ (display : Display) where
  -- The kernel is asked to show the hidden buffer. If it does, that buffer has the new colour, and
  -- if not, nothing changes on the screen.
  abbrev pub turn : ℕ → Screen → Log → Screen
  turn color s log =
      if display.sets log (wanted s)
      then record s { shown = s.hidden; hidden = s.shown; color = color }
      else s

  -- One frame: the screens in their order, each asked for once.
  abbrev pub frame : ℕ → List Screen → Log → List Screen × Log
  frame color [] log = ([], log)
  frame color (s ∷ screens) log =
      let rest = frame color screens (set_crtc (wanted s) ∷ log) in
      (turn color s log ∷ rest.0, rest.1)

  -- `n` frames, whose colours follow on a shade.
  unfoldable pub view : ℕ → Shade → List Screen → Log → List Screen × Log
  view zero shade screens log = (screens, log)
  view (suc n) shade screens log =
      let shade' = next_shade display.drm shade in
      let (screens', log') = frame (color_of shade') screens log in view n shade' screens' log'
