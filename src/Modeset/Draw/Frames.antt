-- ===== src/Modeset/Draw/Frames.antt =====
-- The colours of `modeset_draw` of perftools/X/drm-howto/modeset.c, and its whole run.
use debian_config_files.Base.{
  ℕ, zero, suc, ◌+◌, ◌-◌, ◌%◌, ◌≤◌, ◌<◌, ◌≡◌, refl, ◌∙◌, Bool, true, false, List, [], ◌∷◌, All,
  arith, ltb, leb, if◌then◌else◌,
}
use debian_config_files.Modeset.Kernel.{Drm}
use debian_config_files.Modeset.Crtc.{Dev}
use debian_config_files.Modeset.Draw.{
  Memory, buf_of, next_color, fill, Shade, next_shade, frames, draw,
}
use debian_config_files.Modeset.Draw.Pixels.{Outside, Covers, fill_rows_bounds}

-- A step up or down within a byte; one that would leave the byte turns round instead.
abbrev pub bounce : Bool → ℕ → ℕ → ℕ × Bool
bounce true cur step = if ltb (cur + step) 256 then (cur + step, true) else (cur, false)
bounce false cur step = if leb step cur then (cur - step, false) else (cur, true)

-- For a byte and a modulus of at most 256, the wrapping arithmetic of `next_color` moves by the
-- random step or turns round.
pub next_color-bounce :
    (up : Bool) (cur m v : ℕ)
    → cur < 256
    → 0 < m
    → m ≤ 256
    → next_color up cur m v ≡ bounce up cur (v % m)
unfolding next_color
next_color-bounce true cur m v hc lo hi = let h : v % m < m = omega arith in ground arith
next_color-bounce false cur m v hc lo hi = let h : v % m < m = omega arith in ground arith

-- All three colours are bytes.
pub record IsByteShade (s : Shade) : Type 0 where
  pub red : s.r < 256
  pub green : s.g < 256
  pub blue : s.b < 256

next_color-byte : (up : Bool) (cur m v : ℕ) → cur < 256 → (next_color up cur m v).0 < 256
unfolding next_color
next_color-byte true cur m v h = ground arith
next_color-byte false cur m v h = ground arith

module _ (drm : Drm) where
  pub next_shade-IsByteShade : (s : Shade) → IsByteShade s → IsByteShade (next_shade drm s)
  unfolding next_shade
  next_shade-IsByteShade s h = record {
    red = next_color-byte s.r_up s.r 20 _ h.red;
    green = next_color-byte s.g_up s.g 10 _ h.green;
    blue = next_color-byte s.b_up s.b 5 _ h.blue;
  }

  fill_bounds :
      (color : ℕ) (devs : List Dev) (memory : Memory) (p : ℕ)
      → All (λ d. Covers (buf_of d)) devs
      → All (λ d. Outside p d.map d.size) devs
      → fill color devs memory p ≡ memory p
  unfolding fill
  fill_bounds color [] memory p c o = refl
  fill_bounds color (d ∷ devs) memory p c o =
      fill_bounds color devs _ p c.1 o.1 ∙ fill_rows_bounds (buf_of d) color memory p c.0 o.0

  frames_bounds :
      (n : ℕ) (devs : List Dev) (s : Shade) (memory : Memory) (p : ℕ)
      → All (λ d. Covers (buf_of d)) devs
      → All (λ d. Outside p d.map d.size) devs
      → frames drm n devs s memory p ≡ memory p
  unfolding frames
  frames_bounds zero devs s memory p c o = refl
  frames_bounds (suc n) devs s memory p c o =
      frames_bounds n devs _ _ p c o ∙ fill_bounds _ devs memory p c o

  -- The whole animation writes nothing outside the mapped framebuffers.
  pub draw_bounds :
      (devs : List Dev) (memory : Memory) (p : ℕ)
      → All (λ d. Covers (buf_of d)) devs
      → All (λ d. Outside p d.map d.size) devs
      → draw drm devs memory p ≡ memory p
  unfolding draw
  draw_bounds devs memory p c o = frames_bounds 50 devs _ memory p c o
