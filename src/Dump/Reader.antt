-- ===== src/Dump/Reader.antt =====
-- Reading a dump of perftools/linux/elf/binary_dump.c back: which byte it shows at which address.
use debian_config_files.Base.{
  ℕ, zero, suc, ◌+◌, ◌-◌, ◌*◌, ◌/◌, ◌%◌, ◌^◌, ◌<◌, ◌≡◌, refl, ap, ◌∙◌, true, Option, none, some,
  List, [], ◌∷◌, ◌++◌, ltb, ◌==◌, if◌then◌else◌, length, arith, Bool-cases, inl, inr, set,
}
use debian_config_files.Dump.Hex.{
  Piece, address, gap, byte, last, last_bar, row, gap_bar, text, text_line, padded_line, newline,
  blank_line, gaps, dump_loop, binary_dump, post_gap, char_loop, binary_dump_with_char, spaces,
  printable,
}
use mathlib.Core.List.{append_assoc}

-- Pairs of an address and the byte there.
abbrev pub Located : Type 0
Located = List (ℕ × ℕ)

abbrev pub cons? : ℕ × ℕ → Option Located → Option Located
cons? x none = none
cons? x (some l) = some (x ∷ l)

-- How a person reads a dump: a row begins with its address, the columns count from there, and
-- only the last of 16 columns ends a row. `none` is a dump with another layout.
pub read_back : ℕ → ℕ → List Piece → Option Located
read_back base col [] = some []
read_back base col (address a ∷ l) = read_back a 0 l
read_back base col (row a ∷ l) = read_back a 0 l
read_back base col (gap ∷ l) = read_back base (col + 1) l
read_back base col (gap_bar ∷ l) = read_back base (col + 1) l
read_back base col (byte b ∷ l) =
    if ltb col 15 then cons? (base + col, b) (read_back base (col + 1) l) else none
read_back base col (last b ∷ l) =
    if col == 15 then cons? (base + col, b) (read_back base (col + 1) l) else none
read_back base col (last_bar b ∷ l) =
    if col == 15 then cons? (base + col, b) (read_back base (col + 1) l) else none
read_back base col (text s ∷ l) = read_back base col l
read_back base col (text_line s ∷ l) = read_back base col l
read_back base col (padded_line s ∷ l) = read_back base col l
read_back base col (newline ∷ l) = read_back base col l
read_back base col (blank_line ∷ l) = read_back base col l

-- The bytes at successive addresses.
abbrev pub located : ℕ → List ℕ → Located
located a [] = []
located a (b ∷ bytes) = (a, b) ∷ located (a + 1) bytes

read_back-gaps :
    (n base col : ℕ) (l : List Piece)
    → read_back base col (gaps n ++ l) ≡ read_back base (col + n) l
unfolding read_back gaps
read_back-gaps zero base col l = ap (λ c. read_back base c l) (omega arith)
read_back-gaps (suc n) base col l =
    read_back-gaps n base (col + 1) l ∙ ap (λ c. read_back base c l) (omega arith)

dump_loop-located :
    (bytes : List ℕ) (j col offset : ℕ)
    → col ≡ j % 16
    → offset + col + length bytes < 2 ^ 32
    → read_back offset col (dump_loop j offset bytes ++ (blank_line ∷ []))
      ≡ some (located (offset + col) bytes)
unfolding read_back dump_loop
dump_loop-located [] j col offset e w = refl
dump_loop-located (b ∷ []) j col offset e w = ground arith
dump_loop-located (b ∷ c ∷ bytes) j col offset e w = elim (Bool-cases ((j + 1) % 16 == 0)) [
  | inl ends ↦
      let c15 : col ≡ 15 = ground arith in
      let next : (offset + 16) % 2 ^ 32 ≡ offset + 16 = omega arith in
      let full : (col == 15) ≡ true = ground arith in
      let rest =
        dump_loop-located (c ∷ bytes) (j + 1) 0 (offset + 16) (ground arith) (omega arith) in
      let z : offset + 16 + 0 ≡ offset + col + 1 = omega arith in
      rw (ends, next) (rw (full, read_back) (rw rest (rw z)))
  | inr goes_on ↦
      let room : ltb col 15 ≡ true = ground arith in
      let rest =
        dump_loop-located (c ∷ bytes) (j + 1) (col + 1) offset (ground arith) (omega arith) in
      let z : offset + (col + 1) ≡ offset + col + 1 = omega arith in
      rw goes_on (rw (room, read_back) (rw rest (rw z)))
]

-- `binary_dump` shows each byte of the buffer once, in order, at its address in the file, in rows
-- of 16 columns.
pub binary_dump-located :
    (offset : ℕ) (bytes : List ℕ)
    → offset + length bytes < 2 ^ 32
    → read_back 0 0 (binary_dump offset (some bytes)) ≡ some (located offset bytes)
unfolding binary_dump read_back
binary_dump-located offset [] w = refl
binary_dump-located offset (b ∷ bytes) w =
    read_back-gaps (offset % 16) (offset / 16 * 16) 0 _
    ∙ dump_loop-located (b ∷ bytes) (offset % 16) (0 + offset % 16) (offset / 16 * 16) (omega arith)
        (omega arith)
    ∙ ap (λ a. some (located a (b ∷ bytes))) (omega arith)

-- What follows the last byte of a dump shows no byte.
read_back-post_gap :
    (n base col : ℕ) (s : List ℕ)
    → read_back base col ((post_gap n ++ (text s ∷ [])) ++ (blank_line ∷ [])) ≡ some []
unfolding read_back post_gap
read_back-post_gap n base col s =
    ap (read_back base col) (append_assoc (post_gap n) (text s ∷ []) (blank_line ∷ []))
    ∙ ap (read_back base col)
        (append_assoc (gaps (15 - n)) (gap_bar ∷ []) (text s ∷ blank_line ∷ []))
    ∙ read_back-gaps (15 - n) base col _

char_loop-located :
    (bytes : List ℕ) (j col offset : ℕ) (tailer : List ℕ)
    → col ≡ j % 16
    → offset + col + length bytes < 2 ^ 32
    → read_back offset col (char_loop j offset tailer bytes ++ (blank_line ∷ []))
      ≡ some (located (offset + col) bytes)
unfolding read_back char_loop
char_loop-located [] j col offset tailer e w = elim (Bool-cases (j % 16 == 0)) [
  | inl z ↦ rw z
  | inr z ↦ rw z (read_back-post_gap (j % 16) offset col tailer)
]
char_loop-located (b ∷ []) j col offset tailer e w = elim (Bool-cases ((j + 1) % 16 == 0)) [
  | inl ends ↦ (let full : (col == 15) ≡ true = ground arith in rw ends (rw (full, read_back)))
  | inr goes_on ↦
      let room : ltb col 15 ≡ true = ground arith in
      rw goes_on (
        rw (room, read_back)
          (rw (
            read_back-post_gap ((j + 1) % 16) offset (col + 1)
              (set tailer (j % 16) (printable b)))))
]
char_loop-located (b ∷ c ∷ bytes) j col offset tailer e w = elim (Bool-cases ((j + 1) % 16 == 0)) [
  | inl ends ↦
      let c15 : col ≡ 15 = ground arith in
      let next : (offset + 16) % 2 ^ 32 ≡ offset + 16 = omega arith in
      let full : (col == 15) ≡ true = ground arith in
      let rest =
        char_loop-located (c ∷ bytes) (j + 1) 0 (offset + 16) spaces (ground arith) (omega arith) in
      let z : offset + 16 + 0 ≡ offset + col + 1 = omega arith in
      rw (ends, next) (rw (full, read_back) (rw rest (rw z)))
  | inr goes_on ↦
      let room : ltb col 15 ≡ true = ground arith in
      let rest =
        char_loop-located (c ∷ bytes) (j + 1) (col + 1) offset (set tailer (j % 16) (printable b))
          (ground arith) (omega arith) in
      let z : offset + (col + 1) ≡ offset + col + 1 = omega arith in
      rw goes_on (rw (room, read_back) (rw rest (rw z)))
]

-- `binary_dump_with_char` shows the bytes at the same places, beside its text columns.
pub binary_dump_with_char-located :
    (offset : ℕ) (bytes : List ℕ)
    → offset + length bytes < 2 ^ 32
    → read_back 0 0 (binary_dump_with_char offset (some bytes)) ≡ some (located offset bytes)
unfolding binary_dump_with_char read_back
binary_dump_with_char-located offset [] w = refl
binary_dump_with_char-located offset (b ∷ bytes) w =
    read_back-gaps (offset % 16) (offset / 16 * 16) 0 _
    ∙ char_loop-located (b ∷ bytes) (offset % 16) (0 + offset % 16) (offset / 16 * 16) spaces
        (omega arith) (omega arith)
    ∙ ap (λ a. some (located a (b ∷ bytes))) (omega arith)
