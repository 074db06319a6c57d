-- ===== src/Dump/Lines.antt =====
-- `binary_dump_with_string` of perftools/linux/elf/binary_dump.c: a dump with a text beside it, a
-- line to a row. The text is the list of its characters; `strchr` and the writes of '\0' that cut
-- it into lines are `split_line`.
pub mod Laws
use debian_config_files.Base.{
  ℕ, zero, suc, ◌+◌, ◌*◌, ◌/◌, ◌%◌, ◌^◌, Bool, true, false, Option, none, some, List, [], ◌∷◌, ◌++◌,
  ◌==◌, if◌then◌else◌, length,
}
use debian_config_files.Dump.Hex.{
  Piece, address, byte, last_bar, row, text, text_line, padded_line, newline, gaps, post_gap,
}

-- The text up to its first newline, and what follows; `none` is the null pointer of `strchr`.
pub split_line : List ℕ → List ℕ × Option (List ℕ)
split_line [] = ([], none)
split_line (c ∷ s) = if c == 10 then ([], some s) else (c ∷ (split_line s).0, (split_line s).1)

-- `head && *head`, and the text then.
abbrev pub pending : Option (List ℕ) → Option (List ℕ)
pending none = none
pending (some []) = none
pending (some (c ∷ s)) = some (c ∷ s)

-- The line that the end of a row shows, and the text that is left.
pub row_text : Option (List ℕ) → List Piece × Option (List ℕ)
row_text head = elim (pending head) [
  | none ↦ ([], head)
  | some s ↦ (text (split_line s).0 ∷ [], (split_line s).1)
]

-- The last loop, with fuel.
pub rest_lines : ℕ → Option (List ℕ) → List Piece
rest_lines zero head = []
rest_lines (suc fuel) head = elim (pending head) [
  | none ↦ []
  | some s ↦ padded_line (split_line s).0 ∷ rest_lines fuel (split_line s).1
]

-- What follows the bytes, with `j` columns filled. A text has at most as many lines as characters.
pub string_post : ℕ → Option (List ℕ) → List Piece
string_post j head = elim (pending head) [
  | none ↦ newline ∷ []
  | some s ↦
      (if j % 16 == 0 then [] else post_gap (j % 16))
      ++ (text_line (split_line s).0 ∷ (rest_lines (length s) (split_line s).1 ++ (newline ∷ [])))
]

-- The loop over the bytes, and what follows it.
pub string_loop : ℕ → ℕ → Option (List ℕ) → List ℕ → List Piece
string_loop j offset head [] = string_post j head
string_loop j offset head (b ∷ []) =
    if (j + 1) % 16 == 0
    then last_bar b ∷ ((row_text head).0 ++ string_post (j + 1) (row_text head).1)
    else byte b ∷ string_post (j + 1) head
string_loop j offset head (b ∷ c ∷ bytes) =
    let next = (offset + 16) % 2 ^ 32 in
    let wrapped =
      last_bar b
      ∷ ((row_text head).0
          ++ (row next ∷ string_loop (j + 1) next (row_text head).1 (c ∷ bytes))) in
    let same = byte b ∷ string_loop (j + 1) offset head (c ∷ bytes) in
    if (j + 1) % 16 == 0 then wrapped else same

pub binary_dump_with_string : ℕ → Option (List ℕ) → List ℕ → List Piece
binary_dump_with_string offset none str = []
binary_dump_with_string offset (some []) str = []
binary_dump_with_string offset (some (b ∷ bytes)) str =
    address (offset / 16 * 16) ∷ gaps (offset % 16)
    ++ string_loop (offset % 16) (offset / 16 * 16) (some str) (b ∷ bytes)
