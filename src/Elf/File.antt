-- ===== src/Elf/File.antt =====
-- Reading a file and finding a section, in perftools/linux/elf/elf.c: `elf_file_read`,
-- `elf_section_name`, `elf_find_shstrtab`, `elf_init_read` and `_elf_section_dump_by_name`.
pub mod Laws
pub mod Names
pub mod Read
use debian_config_files.Base.{
  ℕ, zero, suc, ◌+◌, ◌*◌, ◌%◌, ◌^◌, Bool, true, false, ◌&&◌, ◌||◌, Option, none, some, List, [],
  ◌∷◌, ltb, leb, ◌==◌, if◌then◌else◌, length, get_elem?, take, drop,
}
use debian_config_files.Dump.Hex.{Piece, binary_dump}

-- The fields that the program reads.
pub record Ehdr : Type 0 where
  pub e_shoff : ℕ
  pub e_shentsize : ℕ
  pub e_shnum : ℕ
  pub e_shstrndx : ℕ

pub record Shdr : Type 0 where
  pub sh_name : ℕ
  pub sh_offset : ℕ
  pub sh_size : ℕ
  pub sh_entsize : ℕ

-- The structures of the system's <elf.h>: their sizes, and their fields from their bytes.
pub record Layout : Type 0 where
  pub ehdr_size : ℕ
  pub ehdr : List ℕ → Ehdr
  pub shdr : List ℕ → Shdr

-- `elf_file_read`: `lseek` wants an offset that is not negative, and `read` gives as many bytes as
-- the file has. `none` is the null pointer.
unfoldable pub file_read : List ℕ → ℕ → ℕ → Option (List ℕ)
file_read file offset size =
    if ltb offset (2 ^ 31) && ltb size (2 ^ 31) && (size == 0 || leb (offset + size) (length file))
    then some (take size (drop offset file))
    else none

-- The string at the start of some bytes.
unfoldable pub c_string : List ℕ → List ℕ
c_string [] = []
c_string (c ∷ s) = if c == 0 then [] else c ∷ c_string s

-- `elf_section_name` and `elf_sym_name`, and the string that stands there. (Past the end of the table
-- C reads what lies behind it; here the string is empty, or ends with the table.)
unfoldable pub string_at : List ℕ → ℕ → List ℕ
string_at strtab index = c_string (drop index strtab)

-- `!strcmp(a, b)`.
unfoldable pub same_string : List ℕ → List ℕ → Bool
same_string [] [] = true
same_string [] (d ∷ t) = false
same_string (c ∷ s) [] = false
same_string (c ∷ s) (d ∷ t) = if c == d then same_string s t else false

-- `elf_find_shstrtab` from the index `i` on; `none` is -1.
unfoldable pub find_from : ℕ → List Shdr → List ℕ → List ℕ → Option ℕ
find_from i [] strtab name = none
find_from i (h ∷ heads) strtab name =
    let rest = find_from (i + 1) heads strtab name in
    if same_string (string_at strtab h.sh_name) name then some i else rest

unfoldable pub find_shstrtab : List Shdr → List ℕ → List ℕ → Option ℕ
find_shstrtab heads strtab name = find_from 0 heads strtab name

-- What `elf_init_read` leaves in the static variables.
pub record Image : Type 0 where
  pub header : Ehdr
  pub shstrtab : List ℕ
  pub heads : List Shdr

module _ (layout : Layout) (file : List ℕ) where
  -- The loop over the section headers, with `n` left.
  unfoldable pub read_heads : ℕ → ℕ → ℕ → Option (List Shdr)
  read_heads zero offset size = some []
  read_heads (suc n) offset size = elim (file_read file offset size) [
    | none ↦ none
    | some b ↦ elim (read_heads n ((offset + size) % 2 ^ 32) size) [
      | none ↦ none
      | some heads ↦ some (layout.shdr b ∷ heads)
    ]
  ]

  -- `none` is a null pointer that is read through, or a section header beyond the 100 that there is
  -- room for. (For the names and the headers in the table the program goes on with the null pointer
  -- until it searches them.)
  unfoldable pub init_read : Option Image
  init_read = elim (file_read file 0 layout.ehdr_size) [
    | none ↦ none
    | some b ↦
        let h = layout.ehdr b in
        elim (file_read file ((h.e_shoff + h.e_shstrndx * h.e_shentsize) % 2 ^ 32) h.e_shentsize) [
          | none ↦ none
          | some s ↦
              let names = layout.shdr s in
              elim (file_read file names.sh_offset names.sh_size) [
                | none ↦ none
                | some strtab ↦
                    if ltb 100 h.e_shnum
                    then none
                    else elim (read_heads h.e_shnum h.e_shoff h.e_shentsize) [
                      | none ↦ none
                      | some heads ↦ some (record { header = h; shstrtab = strtab; heads = heads })
                    ]
              ]
        ]
  ]

  -- `none` is the read of `elf_section_head[-1]`.
  unfoldable pub section_dump_by_name : Image → List ℕ → Option (List Piece)
  section_dump_by_name image name = elim (find_shstrtab image.heads image.shstrtab name) [
    | none ↦ none
    | some i ↦ elim (get_elem? image.heads i) [
      | none ↦ none
      | some h ↦ some (binary_dump h.sh_offset (file_read file h.sh_offset h.sh_size))
    ]
  ]
