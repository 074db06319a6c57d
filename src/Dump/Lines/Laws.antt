-- ===== src/Dump/Lines/Laws.antt =====
-- `binary_dump_with_string` of perftools/linux/elf/binary_dump.c prints every line of its text.
use debian_config_files.Base.{
  ℕ, zero, suc, ◌+◌, ◌≤◌, ◌-◌, ◌*◌, ◌/◌, ◌%◌, ◌^◌, ◌≡◌, refl, ap, sym, ◌∙◌, Option, none, some,
  List, [], ◌∷◌, ◌++◌, ◌==◌, if◌then◌else◌, length, arith, Bool-cases, inl, inr,
}
use mathlib.Core.List.{append-nil}
use debian_config_files.Dump.Hex.{
  Piece, address, gap, byte, last, last_bar, row, gap_bar, text, text_line, padded_line, newline,
  blank_line, gaps, post_gap,
}
use debian_config_files.Dump.Lines.{
  split_line, row_text, rest_lines, string_post, string_loop, binary_dump_with_string,
}

-- The lines of a text; a newline at its end begins no further line.
abbrev pub prepend : ℕ → List (List ℕ) → List (List ℕ)
prepend c [] = (c ∷ []) ∷ []
prepend c (l ∷ ls) = (c ∷ l) ∷ ls

pub lines : List ℕ → List (List ℕ)
lines [] = []
lines (c ∷ s) = if c == 10 then [] ∷ lines s else prepend c (lines s)

-- What a dump shows as text.
unfoldable pub texts : List Piece → List (List ℕ)
texts [] = []
texts (text s ∷ l) = s ∷ texts l
texts (text_line s ∷ l) = s ∷ texts l
texts (padded_line s ∷ l) = s ∷ texts l
texts (address a ∷ l) = texts l
texts (gap ∷ l) = texts l
texts (byte b ∷ l) = texts l
texts (last b ∷ l) = texts l
texts (last_bar b ∷ l) = texts l
texts (row a ∷ l) = texts l
texts (gap_bar ∷ l) = texts l
texts (newline ∷ l) = texts l
texts (blank_line ∷ l) = texts l

abbrev pub lines? : Option (List ℕ) → List (List ℕ)
lines? none = []
lines? (some s) = lines s

lines-split_line :
    (c : ℕ) (s : List ℕ) → lines (c ∷ s) ≡ (split_line (c ∷ s)).0 ∷ lines? (split_line (c ∷ s)).1
unfolding lines split_line
lines-split_line c [] = ground arith
lines-split_line c (d ∷ s) = ground (arith, lines-split_line d s)

pub texts-append : (a b : List Piece) → texts (a ++ b) ≡ texts a ++ texts b
unfolding texts
texts-append [] b = refl
texts-append (text s ∷ l) b = ap (λ x. s ∷ x) (texts-append l b)
texts-append (text_line s ∷ l) b = ap (λ x. s ∷ x) (texts-append l b)
texts-append (padded_line s ∷ l) b = ap (λ x. s ∷ x) (texts-append l b)
texts-append (address a ∷ l) b = texts-append l b
texts-append (gap ∷ l) b = texts-append l b
texts-append (byte x ∷ l) b = texts-append l b
texts-append (last x ∷ l) b = texts-append l b
texts-append (last_bar x ∷ l) b = texts-append l b
texts-append (row a ∷ l) b = texts-append l b
texts-append (gap_bar ∷ l) b = texts-append l b
texts-append (newline ∷ l) b = texts-append l b
texts-append (blank_line ∷ l) b = texts-append l b

texts-gaps : (n : ℕ) → texts (gaps n) ≡ []
unfolding texts gaps
texts-gaps zero = refl
texts-gaps (suc n) = texts-gaps n

pub texts-gaps_append : (n : ℕ) (l : List Piece) → texts (gaps n ++ l) ≡ texts l
texts-gaps_append n l = texts-append (gaps n) l ∙ ap (λ x. x ++ texts l) (texts-gaps n)

texts-post_gap : (n : ℕ) → texts (post_gap n) ≡ []
unfolding texts post_gap
texts-post_gap n = texts-gaps_append (15 - n) (gap_bar ∷ [])

abbrev length? : Option (List ℕ) → ℕ
length? none = 0
length? (some s) = length s

length-split_line : (s : List ℕ) → length? (split_line s).1 ≤ length s
unfolding split_line
length-split_line [] = omega arith
length-split_line (c ∷ s) = ground (arith, length-split_line s)

length-split_line_cons : (c : ℕ) (s : List ℕ) → length? (split_line (c ∷ s)).1 ≤ length s
unfolding split_line
length-split_line_cons c s = ground (arith, length-split_line s)

texts-rest_lines :
    (fuel : ℕ) (head : Option (List ℕ))
    → length? head ≤ fuel
    → texts (rest_lines fuel head) ≡ lines? head
unfolding texts rest_lines lines
texts-rest_lines zero none h = refl
texts-rest_lines zero (some []) h = refl
texts-rest_lines zero (some (c ∷ s)) h = absurd (omega arith)
texts-rest_lines (suc fuel) none h = refl
texts-rest_lines (suc fuel) (some []) h = refl
texts-rest_lines (suc fuel) (some (c ∷ s)) h =
    ap (λ x. (split_line (c ∷ s)).0 ∷ x)
      (texts-rest_lines fuel (split_line (c ∷ s)).1 (omega (arith, length-split_line_cons c s)))
    ∙ sym (lines-split_line c s)

abbrev fill_up : ℕ → List Piece
fill_up j = if j % 16 == 0 then [] else post_gap (j % 16)

texts-fill_up : (j : ℕ) → texts (fill_up j) ≡ []
unfolding texts
texts-fill_up j = ground (arith, texts-post_gap (j % 16))

texts-string_post : (j : ℕ) (head : Option (List ℕ)) → texts (string_post j head) ≡ lines? head
unfolding texts string_post lines
texts-string_post j none = refl
texts-string_post j (some []) = refl
texts-string_post j (some (c ∷ s)) =
    texts-append (fill_up j) _
    ∙ ap (λ x. x ++ texts shown) (texts-fill_up j)
    ∙ ap (λ x. (split_line (c ∷ s)).0 ∷ x)
        (texts-append (rest_lines (length (c ∷ s)) (split_line (c ∷ s)).1) (newline ∷ [])
          ∙ append-nil _
          ∙ texts-rest_lines (length (c ∷ s)) (split_line (c ∷ s)).1
              (omega (arith, length-split_line_cons c s)))
    ∙ sym (lines-split_line c s)
  where
    shown : List Piece
    shown =
        text_line (split_line (c ∷ s)).0
        ∷ (rest_lines (length (c ∷ s)) (split_line (c ∷ s)).1 ++ (newline ∷ []))

texts-row_text :
    (head : Option (List ℕ)) → texts (row_text head).0 ++ lines? (row_text head).1 ≡ lines? head
unfolding texts row_text lines
texts-row_text none = refl
texts-row_text (some []) = refl
texts-row_text (some (c ∷ s)) = sym (lines-split_line c s)

texts-string_loop :
    (bytes : List ℕ) (j offset : ℕ) (head : Option (List ℕ))
    → texts (string_loop j offset head bytes) ≡ lines? head
unfolding texts string_loop
texts-string_loop [] j offset head = texts-string_post j head
texts-string_loop (b ∷ []) j offset head = elim (Bool-cases ((j + 1) % 16 == 0)) [
  | inl ends ↦ rw ends (
      texts-append (row_text head).0 (string_post (j + 1) (row_text head).1)
      ∙ ap (λ x. texts (row_text head).0 ++ x) (texts-string_post (j + 1) (row_text head).1)
      ∙ texts-row_text head)
  | inr goes_on ↦ rw goes_on (texts-string_post (j + 1) head)
]
texts-string_loop (b ∷ c ∷ bytes) j offset head = elim (Bool-cases ((j + 1) % 16 == 0)) [
  | inl ends ↦
      let next : ℕ = (offset + 16) % 2 ^ 32 in
      rw ends (
        texts-append (row_text head).0
          (row next ∷ string_loop (j + 1) next (row_text head).1 (c ∷ bytes))
        ∙ ap (λ x. texts (row_text head).0 ++ x)
            (texts-string_loop (c ∷ bytes) (j + 1) next (row_text head).1)
        ∙ texts-row_text head)
  | inr goes_on ↦ rw goes_on (texts-string_loop (c ∷ bytes) (j + 1) offset head)
]

-- The dump of a buffer that is not empty shows every line of the text, in order and once, however
-- many rows the bytes take.
pub texts-binary_dump_with_string :
    (offset : ℕ) (b : ℕ) (bytes str : List ℕ)
    → texts (binary_dump_with_string offset (some (b ∷ bytes)) str) ≡ lines str
unfolding texts binary_dump_with_string
texts-binary_dump_with_string offset b bytes str =
    texts-gaps_append (offset % 16) _
    ∙ texts-string_loop (b ∷ bytes) (offset % 16) (offset / 16 * 16) (some str)
