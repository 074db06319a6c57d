-- ===== src/Modeset/Draw/Pixels.antt =====
-- What the nested loops of `modeset_draw` write to one framebuffer, in
-- perftools/X/drm-howto/modeset.c.
use debian_config_files.Base.{
  ℕ, zero, suc, ◌+◌, ◌*◌, ◌/◌, ◌%◌, ◌^◌, ◌≤◌, ◌<◌, ◌≡◌, ◌⊎◌, inl, inr, refl, ap, subst, ◌∙◌, arith,
}
use native.Mathlib.Decide.{dec_lt}
use native.Mathlib.Nat.{mul-le-mul_left}
use debian_config_files.Modeset.Draw.{Memory, Buf, write_word, fill_row, fill_rows}

-- The four bytes at `a` hold the word `v`.
pub record HasWord (memory : Memory) (a v : ℕ) : Type 0 where
  pub byte0 : memory a ≡ v % 256
  pub byte1 : memory (a + 1) ≡ v / 256 % 256
  pub byte2 : memory (a + 2) ≡ v / 65536 % 256
  pub byte3 : memory (a + 3) ≡ v / 16777216 % 256

-- The address lies outside the `n` bytes at `a`.
abbrev pub Outside : ℕ → ℕ → ℕ → Type 0
Outside p a n = (p < a) ⊎ (a + n ≤ p)

write_word-HasWord : (a v : ℕ) (memory : Memory) → HasWord (write_word a v memory) a v
unfolding write_word
write_word-HasWord a v memory = ground arith

write_word-Outside :
    (a v : ℕ) (memory : Memory) (p : ℕ) → Outside p a 4 → write_word a v memory p ≡ memory p
unfolding write_word
write_word-Outside a v memory p h = ground arith

module _ (d : Buf) (color : ℕ) where
  abbrev pub pixel : ℕ → ℕ → ℕ
  pixel j k = d.map + (d.stride * j + k * 4)

  pub fill_row-Outside :
      (j k n : ℕ) (memory : Memory) (p : ℕ)
      → d.stride * j + (k + n) * 4 < 2 ^ 32
      → Outside p (pixel j k) (n * 4)
      → fill_row d color j k n memory p ≡ memory p
  unfolding fill_row
  fill_row-Outside j k zero memory p h o = refl
  fill_row-Outside j k (suc n) memory p h o =
      let o' : Outside p (pixel j (k + 1)) (n * 4) = ground arith in
      fill_row-Outside j (k + 1) n _ p (omega arith) o'
      ∙ write_word-Outside _ color memory p (ground arith)

  pub keep_word :
      (memory memory' : Memory) (a : ℕ)
      → ((p : ℕ) → a ≤ p → p < a + 4 → memory' p ≡ memory p)
      → HasWord memory a color
      → HasWord memory' a color
  keep_word memory memory' a same h = record {
    byte0 = same a (omega arith) (omega arith) ∙ h.byte0;
    byte1 = same (a + 1) (omega arith) (omega arith) ∙ h.byte1;
    byte2 = same (a + 2) (omega arith) (omega arith) ∙ h.byte2;
    byte3 = same (a + 3) (omega arith) (omega arith) ∙ h.byte3;
  }

  pub fill_row-HasWord :
      (j k n : ℕ) (memory : Memory) (i : ℕ)
      → d.stride * j + (k + n) * 4 < 2 ^ 32
      → k ≤ i
      → i < k + n
      → HasWord (fill_row d color j k n memory) (pixel j i) color
  unfolding fill_row
  fill_row-HasWord j k zero memory i h lo hi = absurd (omega arith)
  fill_row-HasWord j k (suc n) memory i h lo hi = elim (dec_lt k i) [
    | yes above ↦ fill_row-HasWord j (k + 1) n _ i (omega arith) (omega arith) (omega arith)
    | no here ↦
        let a : ℕ = d.map + (d.stride * j + k * 4) % 2 ^ 32 in
        let e : a ≡ pixel j i = omega arith in
        let written = write_word a color memory in
        keep_word written _ (pixel j i)
          (λ p ge lt. fill_row-Outside j (k + 1) n written p (omega arith) (inl (omega arith)))
          (subst (λ b. HasWord written b color) e (write_word-HasWord a color memory))
  ]

  module _ (fits : d.width * 4 ≤ d.stride) where
    fill_rows-Outside :
        (j n : ℕ) (memory : Memory) (p : ℕ)
        → d.stride * (j + n) < 2 ^ 32
        → Outside p (d.map + d.stride * j) (d.stride * n)
        → fill_rows d color j n memory p ≡ memory p
    unfolding fill_rows
    fill_rows-Outside j zero memory p h o = refl
    fill_rows-Outside j (suc n) memory p h o =
        let o' : Outside p (d.map + d.stride * (j + 1)) (d.stride * n) = elim o [
          | inl lo ↦ inl (omega arith)
          | inr hi ↦ inr (omega arith)
        ] in
        let o'' : Outside p (pixel j 0) (d.width * 4) = elim o [
          | inl lo ↦ inl (omega arith)
          | inr hi ↦ inr (omega arith)
        ] in
        fill_rows-Outside (j + 1) n _ p (omega arith) o'
        ∙ fill_row-Outside j 0 d.width memory p (omega arith) o''

    fill_rows-HasWord :
        (j n : ℕ) (memory : Memory) (i k : ℕ)
        → d.stride * (j + n) < 2 ^ 32
        → j ≤ i
        → i < j + n
        → k < d.width
        → HasWord (fill_rows d color j n memory) (pixel i k) color
    unfolding fill_rows
    fill_rows-HasWord j zero memory i k h lo hi hk = absurd (omega arith)
    fill_rows-HasWord j (suc n) memory i k h lo hi hk = elim (dec_lt j i) [
      | yes above ↦ fill_rows-HasWord (j + 1) n _ i k (omega arith) (omega arith) (omega arith) hk
      | no here ↦
          let e : j ≡ i = omega arith in
          let row = fill_row d color j 0 d.width memory in
          keep_word row _ (pixel i k)
            (λ p ge lt.
              let e' : d.stride * j ≡ d.stride * i = ap (λ t. d.stride * t) e in
              fill_rows-Outside (j + 1) n row p (omega arith) (inl (omega arith)))
            (subst (λ t. HasWord row (pixel t k) color) e
              (fill_row-HasWord j 0 d.width memory k (omega arith) (omega arith) (omega arith)))
    ]

-- A buffer as the kernel hands it out: it holds `height` rows of `stride` bytes, each with room
-- for `width` pixels, and its size has 32 bits.
pub record Covers (d : Buf) : Type 0 where
  pub row : d.width * 4 ≤ d.stride
  pub rows : d.stride * d.height ≤ d.size
  pub bits : d.size < 2 ^ 32

-- The loops paint every pixel of a framebuffer in the colour, at its place in the mapping.
pub fill_rows-pixel :
    (d : Buf) (color : ℕ) (memory : Memory) (i k : ℕ)
    → Covers d
    → i < d.height
    → k < d.width
    → HasWord (fill_rows d color 0 d.height memory) (d.map + (d.stride * i + k * 4)) color
fill_rows-pixel d color memory i k c hi hk =
    let h = c.row in
    let rows = c.rows in
    let bits = c.bits in
    fill_rows-HasWord d color h 0 d.height memory i k (omega arith) (omega arith) (omega arith) hk

-- As far as the loops have come, they have written nothing outside the mapping.
pub fill_rows_part :
    (d : Buf) (color n : ℕ) (memory : Memory) (p : ℕ)
    → Covers d
    → n ≤ d.height
    → Outside p d.map d.size
    → fill_rows d color 0 n memory p ≡ memory p
fill_rows_part d color n memory p c le o =
    let h = c.row in
    let rows = c.rows in
    let bits = c.bits in
    let part = mul-le-mul_left d.stride le in
    fill_rows-Outside d color h 0 n memory p (omega arith)
      (elim o [ inl lo ↦ inl (omega arith) | inr hi ↦ inr (omega arith) ])

-- The loops write nothing outside the mapping.
pub fill_rows_bounds :
    (d : Buf) (color : ℕ) (memory : Memory) (p : ℕ)
    → Covers d
    → Outside p d.map d.size
    → fill_rows d color 0 d.height memory p ≡ memory p
fill_rows_bounds d color memory p c o = fill_rows_part d color d.height memory p c (omega arith) o

-- The pixels of a framebuffer show a colour.
abbrev pub Shows : Buf → ℕ → Memory → Type 0
Shows d color memory =
    (i k : ℕ) → i < d.height → k < d.width → HasWord memory (d.map + (d.stride * i + k * 4)) color

-- They lie in the mapping, so they show the same while the mapping is left alone.
pub Shows-kept :
    (d : Buf) (color : ℕ) (memory memory' : Memory)
    → Covers d
    → ((p : ℕ) → d.map ≤ p → p < d.map + d.size → memory' p ≡ memory p)
    → Shows d color memory
    → Shows d color memory'
Shows-kept d color memory memory' c same h i k hi hk =
    let row = c.row in
    let rows = c.rows in
    let below = mul-le-mul_left {m = suc i} {n = d.height} d.stride hi in
    keep_word d color memory memory' (d.map + (d.stride * i + k * 4))
      (λ p ge lt. same p (omega arith) (omega arith)) (h i k hi hk)
