-- ===== src/Modeset13/Draw/Pictures.antt =====
-- What a framebuffer shows after one pass of `modeset_draw2` of perftools/X/drm-howto/modeset13.c.
use debian_config_files.Base.{
  ℕ, suc, ◌+◌, ◌-◌, ◌*◌, ◌≤◌, ◌<◌, ◌≡◌, inl, inr, ◌∙◌, Bool, ◌&&◌, Option, none, some, List, [],
  ◌∷◌, All, arith, ltb, leb, if◌then◌else◌, Bool-cases,
}
use native.Mathlib.Nat.{mul-le-mul_left}
use debian_config_files.Modeset.Crtc.{Dev}
use debian_config_files.Modeset.Draw.{Memory, Buf, buf_of}
use debian_config_files.Modeset.Draw.Pixels.{HasWord, Covers}
use debian_config_files.Double.Draw.Screen.{Apart}
use debian_config_files.Modeset13.Draw.{less, fill_inner}
use debian_config_files.Modeset13.Draw.Band.{Fits, fill_band-kept, fill_band-HasWord}

-- The pixel lies at least `a` away from each edge.
abbrev pub inside : Buf → ℕ → ℕ → ℕ → Bool
inside d a i k = leb a i && ltb i (d.height - a) && leb a k && ltb k (d.width - a)

-- What a picture says of a pixel; `none` says nothing.
abbrev pub Holds : Memory → ℕ → Option ℕ → Type 0
Holds memory p none = Unit
Holds memory p (some color) = HasWord memory p color

-- A framebuffer shows a picture, which gives the colour of a pixel from its row and column.
abbrev pub Picture : Type 0
Picture = ℕ → ℕ → Option ℕ

abbrev pub Paints : Buf → Picture → Memory → Type 0
Paints d f memory =
    (i k : ℕ) → i < d.height → k < d.width → Holds memory (d.map + (d.stride * i + k * 4)) (f i k)

-- A picture with a rectangle painted over it.
abbrev pub over : ℕ → ℕ → Buf → Picture → Picture
over a color d f i k = if inside d a i k then some color else f i k

Holds-kept :
    (memory memory' : Memory) (a : ℕ) (c : Option ℕ)
    → ((p : ℕ) → a ≤ p → p < a + 4 → memory' p ≡ memory p)
    → Holds memory a c
    → Holds memory' a c
Holds-kept memory memory' a none same h = tt
Holds-kept memory memory' a (some color) same h = record {
  byte0 = same a (omega arith) (omega arith) ∙ h.byte0;
  byte1 = same (a + 1) (omega arith) (omega arith) ∙ h.byte1;
  byte2 = same (a + 2) (omega arith) (omega arith) ∙ h.byte2;
  byte3 = same (a + 3) (omega arith) (omega arith) ∙ h.byte3;
}

pub fill_inner-Paints :
    (a color : ℕ) (d : Buf) (f : Picture) (memory : Memory)
    → Fits a d
    → Paints d f memory
    → Paints d (over a color d f) (fill_inner d color a memory)
unfolding fill_inner
fill_inner-Paints a color d f memory v h i k hi hk =
    let tall = v.tall in
    let bits = v.height_bits in
    elim (Bool-cases (inside d a i k)) [
      | inl e ↦ rw e (
          fill_band-HasWord d color a v a (less d.height a - a) i k memory (omega arith)
            (ground arith) (ground arith) (ground arith) (ground arith))
      | inr e ↦ rw e (
          Holds-kept memory _ _ (f i k)
            (fill_band-kept d color a v a (less d.height a - a) i k memory (omega arith) hk
              (ground arith))
            (h i k hi hk))
    ]

-- Pictures of all devices.
abbrev pub AllPaint : List Dev → (Dev → Picture) → Memory → Type 0
AllPaint devs f memory = All (λ d. Paints (buf_of d) (f d) memory) devs

-- No two mappings of the devices overlap.
abbrev pub AllApart : List Dev → Type 0
AllApart [] = Unit
AllApart (d ∷ devs) = All (λ e. Apart (buf_of d) (buf_of e)) devs × AllApart devs

-- A picture stays while the mapping is left alone.
pub Paints-kept :
    (d : Buf) (f : Picture) (memory memory' : Memory)
    → Covers d
    → ((p : ℕ) → d.map ≤ p → p < d.map + d.size → memory' p ≡ memory p)
    → Paints d f memory
    → Paints d f memory'
Paints-kept d f memory memory' c same h i k hi hk =
    let row = c.row in
    let rows = c.rows in
    let below = mul-le-mul_left {m = suc i} {n = d.height} d.stride hi in
    Holds-kept memory memory' _ (f i k) (λ p lo up. same p (omega arith) (omega arith))
      (h i k hi hk)
