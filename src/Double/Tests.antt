-- ===== src/Double/Tests.antt =====
-- The theorems on perftools/X/drm-howto/modeset-double-buffered.c at work on a device with two
-- buffers of 4 by 2 pixels.
use debian_config_files.Base.{ℕ, true, false, some, [], ◌∷◌, arith, inl}
use debian_config_files.Modeset.Kernel.{World}
use debian_config_files.Modeset.Draw.{Buf, Memory, fill_rows, start_shade}
use debian_config_files.Modeset.Draw.Pixels.{Covers, fill_rows-pixel}
use debian_config_files.Modeset.Tests.{small, crtc_of, card, dark, start, card-known}
use debian_config_files.Double.Setup.{Dev}
use debian_config_files.Double.Draw.{Display, draw}
use debian_config_files.Double.Draw.Screen.{bufs_of, Layout, Screens}
use debian_config_files.Double.Draw.View.{screens_of}
use debian_config_files.Double.Draw.Refine.{Viewed, draw-Viewed}
use debian_config_files.Double.Main.{main}
use debian_config_files.Double.Main.Run.{EndsBalanced, double-IsBalanced}

abbrev pub lit : Display
lit = record { drm = card; sets = λ log s. true; flips = λ log c fb. true }

abbrev pub buf_at : ℕ → ℕ → Buf
buf_at map fb = record {
  width = 4;
  height = 2;
  stride = 16;
  size = 32;
  handle = fb;
  map = map;
  fb = fb;
}

pub buf_at-Covers : (map fb : ℕ) → Covers (buf_at map fb)
buf_at-Covers map fb = record { row = omega arith; rows = omega arith; bits = omega arith }

abbrev pub twin : Dev
twin = record {
  self = 5000;
  front = false;
  buf0 = buf_at 8192 40;
  buf1 = buf_at 8224 41;
  mode = small;
  conn = 30;
  crtc = 10;
  saved = some (crtc_of 10);
}

twin-Layout : Layout (bufs_of (twin ∷ []))
twin-Layout = record {
  covers = (buf_at-Covers 8192 40, (buf_at-Covers 8224 41, tt));
  apart = ((inl (omega arith), tt), (tt, tt));
}

-- The front buffer shows 5.
abbrev five : Memory
five = fill_rows (buf_at 8192 40) 5 0 2 dark

five-Screens : Screens (twin ∷ []) (5 ∷ []) five
five-Screens =
    (λ i k hi hk. fill_rows-pixel (buf_at 8192 40) 5 dark i k (buf_at-Covers 8192 40) hi hk, tt)

abbrev lit_world : World
lit_world = record { log = []; memory = five }

double-IsBalanced_example : EndsBalanced lit card-known (main lit [] start)
double-IsBalanced_example = double-IsBalanced lit card-known [] dark

draw-Viewed_example :
    Viewed lit 50
      (start_shade card)
      (screens_of (twin ∷ []) (5 ∷ []))
      []
      (draw lit (twin ∷ []) lit_world)
draw-Viewed_example = draw-Viewed lit (twin ∷ []) (5 ∷ []) lit_world twin-Layout five-Screens
