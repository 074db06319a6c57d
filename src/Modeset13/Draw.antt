-- ===== src/Modeset13/Draw.antt =====
-- `modeset_draw2` of perftools/X/drm-howto/modeset13.c; `usleep` is left out.
pub mod Band
pub mod Pictures
pub mod Nested
use debian_config_files.Base.{ℕ, zero, suc, ◌+◌, ◌-◌, ◌%◌, ◌^◌, List, [], ◌∷◌}
use debian_config_files.Modeset.Crtc.{Dev}
use debian_config_files.Modeset.Draw.{Memory, Buf, buf_of, fill_row}

-- `n - a` of the unsigned 32-bit numbers, `a` below 2 ^ 32.
abbrev pub less : ℕ → ℕ → ℕ
less n a = (n + 2 ^ 32 - a) % 2 ^ 32

-- The loop over `j`, with `n` rounds left; the loop over `k` goes from `a` to `width - a`.
pub fill_band : Buf → ℕ → ℕ → ℕ → ℕ → Memory → Memory
fill_band d color a j zero memory = memory
fill_band d color a j (suc n) memory =
    fill_band d color a (j + 1) n (fill_row d color j a (less d.width a - a) memory)

-- Both loops, from `a` on.
pub fill_inner : Buf → ℕ → ℕ → Memory → Memory
fill_inner d color a memory = fill_band d color a a (less d.height a - a) memory

-- One of the loops over the devices.
pub fill_all : ℕ → ℕ → List Dev → Memory → Memory
fill_all a color [] memory = memory
fill_all a color (d ∷ devs) memory = fill_all a color devs (fill_inner (buf_of d) color a memory)

abbrev pub red : ℕ
red = 0xff0000

abbrev pub green : ℕ
green = 0xff00

abbrev pub blue : ℕ
blue = 0xff

pub draw2 : List Dev → Memory → Memory
draw2 devs memory = fill_all 200 blue devs (fill_all 100 green devs (fill_all 0 red devs memory))
