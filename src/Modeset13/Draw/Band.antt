-- ===== src/Modeset13/Draw/Band.antt =====
-- One rectangle that `modeset_draw2` of perftools/X/drm-howto/modeset13.c paints.
use debian_config_files.Base.{
  ℕ, zero, suc, ◌+◌, ◌-◌, ◌*◌, ◌^◌, ◌≤◌, ◌<◌, ◌≡◌, ◌⊎◌, inl, inr, refl, ap, subst, ◌∙◌, arith,
}
use native.Mathlib.Decide.{dec_lt}
use native.Mathlib.Nat.{mul-le-mul_left}
use debian_config_files.Modeset.Draw.{Memory, Buf, fill_row}
use debian_config_files.Modeset.Draw.Pixels.{
  HasWord, Outside, Covers, keep_word, fill_row-Outside, fill_row-HasWord,
}
use debian_config_files.Modeset13.Draw.{less, fill_band}

-- A buffer of 32-bit numbers that covers its pixels, with room for an edge of `a` pixels.
pub record Fits (a : ℕ) (d : Buf) : Type 0 where
  pub covers : Covers d
  pub wide : a ≤ d.width
  pub tall : a ≤ d.height
  pub width_bits : d.width < 2 ^ 32
  pub height_bits : d.height < 2 ^ 32

module _ (d : Buf) (color a : ℕ) (f : Fits a d) where
  -- A pixel of another row, or beside the columns, is outside the bytes that a row writes.
  row_apart :
      (j i k : ℕ)
      → k < d.width
      → ((i < j) ⊎ (j < i)) ⊎ ((i ≡ j) × ((k < a) ⊎ (d.width - a ≤ k)))
      → (p : ℕ) → d.map + (d.stride * i + k * 4) ≤ p
      → p < d.map + (d.stride * i + k * 4) + 4
      → Outside p (d.map + (d.stride * j + a * 4)) ((less d.width a - a) * 4)
  row_apart j i k hk h p lo hi =
      let row = f.covers.row in
      let wide = f.wide in
      let bits = f.width_bits in
      elim h [
        | inl (inl before) ↦
            let rows = mul-le-mul_left {m = suc i} {n = j} d.stride before in inl (omega arith)
        | inl (inr after) ↦
            let rows = mul-le-mul_left {m = suc j} {n = i} d.stride after in inr (omega arith)
        | inr (same, inl left) ↦
            let e : d.stride * i ≡ d.stride * j = ap (λ t. d.stride * t) same in inl (omega arith)
        | inr (same, inr right) ↦
            let e : d.stride * i ≡ d.stride * j = ap (λ t. d.stride * t) same in
            elim (dec_lt k a) [ yes less ↦ inl (omega arith) | no more ↦ inr (omega arith) ]
      ]

  -- A row ends below 4 GB.
  row_bits : (j : ℕ) → j < d.height → d.stride * j + (a + (less d.width a - a)) * 4 < 2 ^ 32
  row_bits j h =
      let row = f.covers.row in
      let wide = f.wide in
      let bits = f.width_bits in
      let all = f.covers.rows in
      let size = f.covers.bits in
      let rows = mul-le-mul_left {m = suc j} {n = d.height} d.stride h in omega arith

  -- The `n` rows from `j` on leave a pixel alone that is in none of them, or beside the columns.
  pub fill_band-kept :
      (j n i k : ℕ) (memory : Memory)
      → j + n ≤ d.height
      → k < d.width
      → ((i < j) ⊎ (j + n ≤ i)) ⊎ ((k < a) ⊎ (d.width - a ≤ k))
      → (p : ℕ) → d.map + (d.stride * i + k * 4) ≤ p
      → p < d.map + (d.stride * i + k * 4) + 4
      → fill_band d color a j n memory p ≡ memory p
  unfolding fill_band
  fill_band-kept j zero i k memory rows hk h p lo hi = refl
  fill_band-kept j (suc n) i k memory rows hk h p lo hi =
      fill_band-kept (j + 1) n i k _ (omega arith) hk (ground arith) p lo hi
      ∙ fill_row-Outside d color j a (less d.width a - a) memory p (row_bits j (omega arith))
          (row_apart j i k hk (ground arith) p lo hi)

  -- They paint the pixels that are in them and in the columns.
  pub fill_band-HasWord :
      (j n i k : ℕ) (memory : Memory)
      → j + n ≤ d.height
      → j ≤ i
      → i < j + n
      → a ≤ k
      → k < d.width - a
      → HasWord (fill_band d color a j n memory) (d.map + (d.stride * i + k * 4)) color
  unfolding fill_band
  fill_band-HasWord j zero i k memory rows lo hi left right = absurd (omega arith)
  fill_band-HasWord j (suc n) i k memory rows lo hi left right =
      let wide = f.wide in
      let bits = f.width_bits in
      elim (dec_lt j i) [
        | yes above ↦
            fill_band-HasWord (j + 1) n i k _ (omega arith) (omega arith) (omega arith) left right
        | no here ↦
            let e : j ≡ i = omega arith in
            let row = fill_row d color j a (less d.width a - a) memory in
            keep_word d color row _ (d.map + (d.stride * i + k * 4))
              (fill_band-kept (j + 1) n i k row (omega arith) (omega arith)
                (inl (inl (omega arith))))
              (subst (λ t. HasWord row (d.map + (d.stride * t + k * 4)) color) e
                (fill_row-HasWord d color j a (less d.width a - a) memory k
                  (row_bits j (omega arith)) left (omega arith)))
      ]

  -- They write nothing outside the mapping.
  pub fill_band-Outside :
      (j n : ℕ) (memory : Memory) (p : ℕ)
      → j + n ≤ d.height
      → Outside p d.map d.size
      → fill_band d color a j n memory p ≡ memory p
  unfolding fill_band
  fill_band-Outside j zero memory p rows o = refl
  fill_band-Outside j (suc n) memory p rows o =
      let wide = f.wide in
      let bits = f.width_bits in
      let row = f.covers.row in
      let all = f.covers.rows in
      let below = mul-le-mul_left {m = suc j} {n = d.height} d.stride (omega arith) in
      let o' : Outside p (d.map + (d.stride * j + a * 4)) ((less d.width a - a) * 4) = elim o [
        | inl lo ↦ inl (omega arith)
        | inr hi ↦ inr (omega arith)
      ] in
      fill_band-Outside (j + 1) n _ p (omega arith) o
      ∙ fill_row-Outside d color j a (less d.width a - a) memory p (row_bits j (omega arith)) o'
