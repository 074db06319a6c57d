-- ===== src/Modeset/Draw.antt =====
-- `next_color` and `modeset_draw` of perftools/X/drm-howto/modeset.c, and its 32-bit arithmetic.
-- `srand(time(NULL))` picks the sequence of `rand()` that is a parameter; `usleep` is left out.
pub mod Pixels
pub mod Frames
use debian_config_files.Base.{
  ℕ, zero, suc, ◌+◌, ◌-◌, ◌*◌, ◌/◌, ◌%◌, ◌^◌, Bool, true, false, not, ◌&&◌, ◌||◌, List, [], ◌∷◌,
  ltb, ◌==◌, if◌then◌else◌,
}
use debian_config_files.Modeset.Kernel.{Drm}
use debian_config_files.Modeset.Crtc.{Dev}

abbrev pub Memory : Type 0
Memory = ℕ → ℕ

-- The new colour and the new direction, from the result `v` of `rand()`. The step is unsigned, so
-- going down adds its 32-bit complement.
pub next_color : Bool → ℕ → ℕ → ℕ → ℕ × Bool
next_color up cur m v =
    let next = if up then (cur + v % m) % 256 else (cur + 2 ^ 32 - v % m) % 2 ^ 32 % 256 in
    if (up && ltb next cur) || (not up && ltb cur next) then (cur, not up) else (next, up)

-- `*(uint32_t*)p = v` on a little-endian machine.
pub write_word : ℕ → ℕ → Memory → Memory
write_word a v memory p =
    if p == a
    then v % 256
    else if p == a + 1
    then v / 256 % 256
    else if p == a + 2
    then v / 65536 % 256
    else if p == a + 3
    then v / 16777216 % 256
    else memory p

-- The part of a device that describes its framebuffer (`struct modeset_buf` of
-- modeset-double-buffered.c, where it is a structure of its own).
pub record Buf : Type 0 where
  pub width : ℕ
  pub height : ℕ
  pub stride : ℕ
  pub size : ℕ
  pub handle : ℕ
  pub map : ℕ
  pub fb : ℕ

abbrev pub buf_of : Dev → Buf
buf_of d = record {
  width = d.width;
  height = d.height;
  stride = d.stride;
  size = d.size;
  handle = d.handle;
  map = d.map;
  fb = d.fb;
}

-- The loop over `k`, with `n` rounds left.
pub fill_row : Buf → ℕ → ℕ → ℕ → ℕ → Memory → Memory
fill_row d color j k zero memory = memory
fill_row d color j k (suc n) memory =
    fill_row d color j (k + 1) n (write_word (d.map + (d.stride * j + k * 4) % 2 ^ 32) color memory)

-- The loop over `j`, with `n` rounds left.
pub fill_rows : Buf → ℕ → ℕ → ℕ → Memory → Memory
fill_rows d color j zero memory = memory
fill_rows d color j (suc n) memory =
    fill_rows d color (j + 1) n (fill_row d color j 0 d.width memory)

pub fill : ℕ → List Dev → Memory → Memory
fill color [] memory = memory
fill color (d ∷ devs) memory = fill color devs (fill_rows (buf_of d) color 0 d.height memory)

-- The local variables of `modeset_draw`; `calls` counts the calls of `rand()`.
pub record Shade : Type 0 where
  pub r : ℕ
  pub g : ℕ
  pub b : ℕ
  pub r_up : Bool
  pub g_up : Bool
  pub b_up : Bool
  pub calls : ℕ

-- `(r << 16) | (g << 8) | b` of three bytes.
abbrev pub color_of : Shade → ℕ
color_of s = s.r * 65536 + s.g * 256 + s.b

module _ (drm : Drm) where
  pub next_shade : Shade → Shade
  next_shade s =
      let (r, r_up) = next_color s.r_up s.r 20 (drm.rand s.calls) in
      let (g, g_up) = next_color s.g_up s.g 10 (drm.rand (s.calls + 1)) in
      let (b, b_up) = next_color s.b_up s.b 5 (drm.rand (s.calls + 2)) in
      record { r = r; g = g; b = b; r_up = r_up; g_up = g_up; b_up = b_up; calls = s.calls + 3 }

  -- The loop over `i`, with `n` rounds left.
  pub frames : ℕ → List Dev → Shade → Memory → Memory
  frames zero devs s memory = memory
  frames (suc n) devs s memory =
      frames n devs (next_shade s) (fill (color_of (next_shade s)) devs memory)

  pub start_shade : Shade
  start_shade = record {
    r = drm.rand 0 % 255;
    g = drm.rand 1 % 255;
    b = drm.rand 2 % 255;
    r_up = true;
    g_up = true;
    b_up = true;
    calls = 3;
  }

  pub draw : List Dev → Memory → Memory
  draw devs memory = frames 50 devs start_shade memory
