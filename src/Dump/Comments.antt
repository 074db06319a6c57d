-- ===== src/Dump/Comments.antt =====
-- `binary_dump_with_comment` of perftools/linux/elf/binary_dump.c: a dump with a comment beside each
-- row. A comment is its own format; it is taken to hold no conversions.
pub mod Laws
use debian_config_files.Base.{
  ℕ, zero, suc, ◌+◌, ◌-◌, ◌*◌, ◌/◌, ◌%◌, ◌^◌, Option, none, some, List, [], ◌∷◌, ◌++◌, ◌==◌,
  if◌then◌else◌,
}
use debian_config_files.Dump.Hex.{
  Piece, address, gap, byte, last_bar, row, gap_bar, text, padded_line, newline, gaps,
}

-- `argv[line_index]`, if there is one; `argv` is the list from `line_index` on.
pub row_comment : List (List ℕ) → List Piece
row_comment [] = []
row_comment (a ∷ argv) = text a ∷ []

-- `line_index++`.
pub next_comments : List (List ℕ) → List (List ℕ)
next_comments [] = []
next_comments (a ∷ argv) = argv

-- The loop named "post gap" from `k` on, with `n` rounds left, and the comments that are left.
pub comment_gap : ℕ → ℕ → ℕ → List (List ℕ) → List Piece × List (List ℕ)
comment_gap filled k zero argv = ([], argv)
comment_gap filled k (suc n) argv =
    let barred = comment_gap filled (k + 1) n (next_comments argv) in
    let plain = comment_gap filled (k + 1) n argv in
    if k + 1 == filled
    then (gap_bar ∷ (row_comment argv ++ barred.0), barred.1)
    else (gap ∷ plain.0, plain.1)

-- The last loop.
pub comment_lines : List (List ℕ) → List Piece
comment_lines [] = []
comment_lines (a ∷ argv) = padded_line a ∷ comment_lines argv

-- What follows the bytes, with `j` columns filled.
pub comment_post : ℕ → List (List ℕ) → List Piece
comment_post j argv =
    let left =
      if j % 16 == 0 then ([], argv) else comment_gap (j % 16) (j % 16) (16 - j % 16) argv in
    left.0 ++ (newline ∷ (comment_lines left.1 ++ (newline ∷ [])))

-- The loop over the bytes, and what follows it.
pub comment_loop : ℕ → ℕ → List (List ℕ) → List ℕ → List Piece
comment_loop j offset argv [] = comment_post j argv
comment_loop j offset argv (b ∷ []) =
    if (j + 1) % 16 == 0
    then last_bar b ∷ (row_comment argv ++ comment_post (j + 1) (next_comments argv))
    else byte b ∷ comment_post (j + 1) argv
comment_loop j offset argv (b ∷ c ∷ bytes) =
    let next = (offset + 16) % 2 ^ 32 in
    let wrapped =
      last_bar b
      ∷ (row_comment argv
          ++ (row next ∷ comment_loop (j + 1) next (next_comments argv) (c ∷ bytes))) in
    let same = byte b ∷ comment_loop (j + 1) offset argv (c ∷ bytes) in
    if (j + 1) % 16 == 0 then wrapped else same

pub binary_dump_with_comment : ℕ → Option (List ℕ) → List (List ℕ) → List Piece
binary_dump_with_comment offset none argv = []
binary_dump_with_comment offset (some []) argv = []
binary_dump_with_comment offset (some (b ∷ bytes)) argv =
    address (offset / 16 * 16) ∷ gaps (offset % 16)
    ++ comment_loop (offset % 16) (offset / 16 * 16) argv (b ∷ bytes)
