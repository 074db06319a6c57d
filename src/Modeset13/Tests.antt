-- ===== src/Modeset13/Tests.antt =====
-- The theorems on perftools/X/drm-howto/modeset13.c at work on a screen of 400 by 400 pixels and on
-- a card whose screen has two modes.
use Prim.Native.String.{String}
use debian_config_files.Base.{ℕ, ◌≡◌, refl, subst, some, some_inj, [], ◌∷◌, arith, All}
use debian_config_files.Modeset.Kernel.{ModeInfo, Connector, Drm}
use debian_config_files.Modeset.Crtc.{Dev}
use debian_config_files.Modeset.Setup.{blank}
use debian_config_files.Modeset.Draw.{buf_of}
use debian_config_files.Modeset.Draw.Pixels.{Outside}
use debian_config_files.Modeset.Main as Modeset
use debian_config_files.Modeset.Tests.{small, card, screen, dark, start}
use debian_config_files.Modeset13.Setup.{ℤ, pos, mode_at}
use debian_config_files.Modeset13.Setup.Same.{picking, AllHaveMode}
use debian_config_files.Modeset13.Draw.{draw2}
use debian_config_files.Modeset13.Draw.Band.{Fits}
use debian_config_files.Modeset13.Draw.Pictures.{AllPaint}
use debian_config_files.Modeset13.Draw.Nested.{nested, draw2-Nested}
use debian_config_files.Modeset13.Main.{index_of, main}
use debian_config_files.Modeset13.Main.Same.{calls, calls-main}

abbrev square : Dev
square = record (blank 5000 30) {
  width = 400;
  height = 400;
  stride = 1600;
  size = 640000;
  map = 8192;
}

square-Fits : Fits 200 (buf_of square)
square-Fits = record {
  covers = record { row = omega arith; rows = omega arith; bits = omega arith };
  wide = omega arith;
  tall = omega arith;
  width_bits = omega arith;
  height_bits = omega arith;
}

draw2-Nested_example :
    AllPaint (square ∷ []) (λ d. nested (buf_of d)) (draw2 (square ∷ []) dark)
    × ((p : ℕ)
        → All (λ d. Outside p d.map d.size) (square ∷ [])
        → draw2 (square ∷ []) dark p ≡ dark p)
draw2-Nested_example = draw2-Nested (square ∷ []) dark (square-Fits, tt) (tt, tt)

abbrev big : ModeInfo
big = record { hdisplay = 8; vdisplay = 6; timings = 9 }

abbrev two_modes : Connector
two_modes = record screen { modes = small ∷ big ∷ [] }

abbrev two_mode_card : Drm
two_mode_card = record card { get_connector = λ id. some two_modes }

abbrev to_one : String → ℤ
to_one s = pos 1

two_mode_card-AllHaveMode : AllHaveMode two_mode_card (index_of to_one ("modeset13" ∷ "1" ∷ []))
unfolding mode_at index_of
two_mode_card-AllHaveMode id c e ne =
    (big, subst (λ x. mode_at (pos 1) x.modes ≡ some big) (some_inj e) refl)

calls-main_example :
    calls (main two_mode_card to_one ("modeset13" ∷ "1" ∷ []) start)
    ≡ calls
        (Modeset.main (picking (index_of to_one ("modeset13" ∷ "1" ∷ [])) two_mode_card) [] start)
calls-main_example =
    calls-main two_mode_card to_one ("modeset13" ∷ "1" ∷ []) start two_mode_card-AllHaveMode
