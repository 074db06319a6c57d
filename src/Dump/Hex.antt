-- ===== src/Dump/Hex.antt =====
-- The dump functions of perftools/linux/elf/binary_dump.c. What they print is a list of pieces,
-- one for each call of `fprintf`; a buffer is the list of the `size` bytes that are dumped, or a
-- null pointer. Sizes are taken to be below 2 ^ 31, where the `int` counters do not overflow.
use debian_config_files.Base.{
  ℕ, zero, suc, ◌+◌, ◌-◌, ◌*◌, ◌/◌, ◌%◌, ◌^◌, ◌&&◌, Option, none, some, List, [], ◌∷◌, ◌++◌, leb,
  ◌==◌, if◌then◌else◌, set,
}

-- Behind each piece stands its format.
pub data Piece : Type 0 where
  -- "%08x  "
  address : ℕ → Piece
  -- three spaces
  gap : Piece
  -- "%02x "
  byte : ℕ → Piece
  -- "%02x"
  last : ℕ → Piece
  -- "%02x | "
  last_bar : ℕ → Piece
  -- "\n%08x  "
  row : ℕ → Piece
  -- "   | "
  gap_bar : Piece
  -- "%s"
  text : List ℕ → Piece
  -- "%s\n", and the same behind 60 spaces
  text_line : List ℕ → Piece
  padded_line : List ℕ → Piece
  -- "\n", "\n\n"
  newline : Piece
  blank_line : Piece

unfoldable pub gaps : ℕ → List Piece
gaps zero = []
gaps (suc n) = gap ∷ gaps n

-- The loop of `binary_dump` from the column count `j` on, in the row at `offset`.
unfoldable pub dump_loop : ℕ → ℕ → List ℕ → List Piece
dump_loop j offset [] = []
dump_loop j offset (b ∷ []) = if (j + 1) % 16 == 0 then last b ∷ [] else byte b ∷ []
dump_loop j offset (b ∷ c ∷ bytes) =
    let next = (offset + 16) % 2 ^ 32 in
    let wrapped = last b ∷ row next ∷ dump_loop (j + 1) next (c ∷ bytes) in
    let same = byte b ∷ dump_loop (j + 1) offset (c ∷ bytes) in
    if (j + 1) % 16 == 0 then wrapped else same

unfoldable pub binary_dump : ℕ → Option (List ℕ) → List Piece
unfolding gaps dump_loop
binary_dump offset none = []
binary_dump offset (some []) = []
binary_dump offset (some (b ∷ bytes)) =
    address (offset / 16 * 16) ∷ gaps (offset % 16)
    ++ (dump_loop (offset % 16) (offset / 16 * 16) (b ∷ bytes) ++ (blank_line ∷ []))

-- The character that the text column shows for a byte.
unfoldable pub printable : ℕ → ℕ
printable c =
    if leb b'a' c && leb c b'z'
    then c
    else if leb b'A' c && leb c b'Z'
    then c
    else if leb b'0' c && leb c b'9'
    then c
    else if c == 0
    then b'@'
    else b'.'

-- `memset(tailer, ' ', 16)`.
abbrev pub spaces : List ℕ
spaces = 32 ∷ 32 ∷ 32 ∷ 32 ∷ 32 ∷ 32 ∷ 32 ∷ 32 ∷ 32 ∷ 32 ∷ 32 ∷ 32 ∷ 32 ∷ 32 ∷ 32 ∷ 32 ∷ []

-- The loops named "post gap": the rest of a row of which `n` columns are filled.
unfoldable pub post_gap : ℕ → List Piece
unfolding gaps
post_gap n = gaps (15 - n) ++ (gap_bar ∷ [])

-- The loop of `binary_dump_with_char`, and what follows it up to the last newlines.
unfoldable pub char_loop : ℕ → ℕ → List ℕ → List ℕ → List Piece
unfolding post_gap
char_loop j offset tailer [] = if j % 16 == 0 then [] else post_gap (j % 16) ++ (text tailer ∷ [])
char_loop j offset tailer (b ∷ []) =
    if (j + 1) % 16 == 0
    then last_bar b ∷ text (set tailer 15 (printable b)) ∷ []
    else byte b ∷ post_gap ((j + 1) % 16) ++ (text (set tailer (j % 16) (printable b)) ∷ [])
char_loop j offset tailer (b ∷ c ∷ bytes) =
    let next = (offset + 16) % 2 ^ 32 in
    let wrapped =
      last_bar b
      ∷ text (set tailer 15 (printable b))
      ∷ row next
      ∷ char_loop (j + 1) next spaces (c ∷ bytes) in
    let same = byte b ∷ char_loop (j + 1) offset (set tailer (j % 16) (printable b)) (c ∷ bytes) in
    if (j + 1) % 16 == 0 then wrapped else same

unfoldable pub binary_dump_with_char : ℕ → Option (List ℕ) → List Piece
unfolding gaps char_loop
binary_dump_with_char offset none = []
binary_dump_with_char offset (some []) = []
binary_dump_with_char offset (some (b ∷ bytes)) =
    address (offset / 16 * 16) ∷ gaps (offset % 16)
    ++ (char_loop (offset % 16) (offset / 16 * 16) spaces (b ∷ bytes) ++ (blank_line ∷ []))
