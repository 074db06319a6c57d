-- ===== src/Elf/Run.antt =====
-- The dump of the parts of a file in perftools/linux/elf/elf.c: `elf_section_header_dump` and
-- `_elf_file_dump`.
pub mod Laws
use debian_config_files.Base.{
  ℕ, ◌+◌, ◌*◌, ◌%◌, ◌^◌, Bool, true, Option, none, some, List, [], ◌∷◌, ◌++◌, if◌then◌else◌,
  get_elem?, take,
}
use debian_config_files.Dump.Hex.{Piece, binary_dump_with_char}
use debian_config_files.Dump.Lines.{binary_dump_with_string}
use debian_config_files.Dump.Buffer.{Screen, bin_buffer, bin_printf, print_all}
use debian_config_files.Elf.File.{
  Shdr, Layout, Image, file_read, string_at, find_shstrtab, section_dump_by_name,
}
use debian_config_files.Elf.Symbols.{Sym, Entry, dump_symtab, Outcome, printed, exited, crashed}
use debian_config_files.Elf.Dynamic.{Format, dynamic_dump}
use debian_config_files.Elf.Summary.{Flags}
use debian_config_files.Elf.Liner.{Prints, header_part}

-- The static variables that the dump reads beside those of the summary.
pub record Dumps : Type 0 where
  pub flags : Flags
  pub dump_header : Bool
  pub dump_section_header : Bool
  pub dump_dyn : Bool

-- What the dump takes from outside beside `Prints` and `Format`: the sizes of the structures, the
-- fields of a symbol, `sh_addr`, and the conversion "%8x".
pub record System : Type 0 where
  pub prints : Prints
  pub format : Format
  pub shdr_size : ℕ
  pub sh_addr : List ℕ → ℕ
  pub sym_size : ℕ
  pub sym : List ℕ → Sym
  pub wide : ℕ → List ℕ

-- What is shown of the two tables, and their indices.
pub record Tables : Type 0 where
  pub strtab_index : ℕ
  pub strtab : List Piece
  pub symtab_index : ℕ
  pub symtab : List Entry

pub record Shown : Type 0 where
  pub header : List Piece
  pub section_heads : List (List Piece)
  pub tables : Tables
  pub sections : List (List Piece)
  pub dynamic : List (List Piece)

abbrev pub dot_strtab : List ℕ
dot_strtab = b'.' ∷ b's' ∷ b't' ∷ b'r' ∷ b't' ∷ b'a' ∷ b'b' ∷ []

abbrev pub dot_symtab : List ℕ
dot_symtab = b'.' ∷ b's' ∷ b'y' ∷ b'm' ∷ b't' ∷ b'a' ∷ b'b' ∷ []

abbrev pub dot_rodata : List ℕ
dot_rodata = b'.' ∷ b'r' ∷ b'o' ∷ b'd' ∷ b'a' ∷ b't' ∷ b'a' ∷ []

abbrev pub dot_data : List ℕ
dot_data = b'.' ∷ b'd' ∷ b'a' ∷ b't' ∷ b'a' ∷ []

abbrev pub dot_bss : List ℕ
dot_bss = b'.' ∷ b'b' ∷ b's' ∷ b's' ∷ []

abbrev pub dot_text : List ℕ
dot_text = b'.' ∷ b't' ∷ b'e' ∷ b'x' ∷ b't' ∷ []

abbrev pub dot_dynamic : List ℕ
dot_dynamic = b'.' ∷ b'd' ∷ b'y' ∷ b'n' ∷ b'a' ∷ b'm' ∷ b'i' ∷ b'c' ∷ []

-- One part of the dump after another.
abbrev pub next {ℓ κ} : {A : Type ℓ} {B : Type κ} → Outcome A → (A → Outcome B) → Outcome B
next o f = elim o [ printed a ↦ f a | exited ↦ exited | crashed ↦ crashed ]

-- A write past the end of the buffer, or a null pointer or an index of -1 that is used.
abbrev pub or_crash {ℓ} : {A : Type ℓ} → Option A → Outcome A
or_crash o = elim o [ none ↦ crashed | some a ↦ printed a ]

-- `elf_section_head[elf_find_shstrtab(…)]`, with its index.
unfoldable pub find_section : Image → List ℕ → Option (ℕ × Shdr)
find_section image name = elim (find_shstrtab image.heads image.shstrtab name) [
  | none ↦ none
  | some i ↦ elim (get_elem? image.heads i) [ none ↦ none | some h ↦ some (i, h) ]
]

module _ (system : System) where
  -- `raw` are the bytes of the section header.
  pub section_header_texts : Image → Shdr → List ℕ → List (List ℕ)
  section_header_texts image h raw =
      let wide = system.wide in
      let chars = system.prints.chars in
      (chars "OFF " ++ (wide h.sh_offset ++ (10 ∷ [])))
      ∷ (chars "SIZ "
          ++ (wide h.sh_size
              ++ (chars " END " ++ (wide ((h.sh_offset + h.sh_size) % 2 ^ 32) ++ (10 ∷ [])))))
      ∷ (chars "add " ++ (system.format.hex8 (system.sh_addr raw) ++ (10 ∷ [])))
      ∷ []

  pub section_header_dump : Image → Shdr → List ℕ → ℕ → Screen → Option (List Piece × Screen)
  section_header_dump image h raw offset s =
      let name = string_at image.shstrtab h.sh_name in
      elim (bin_printf true (b'N' ∷ (system.prints.chars "AME " ++ (name ++ (10 ∷ [])))) s) [
        | none ↦ none
        | some s₁ ↦ elim (print_all (section_header_texts image h raw) s₁) [
          | none ↦ none
          | some s₂ ↦ some (
            binary_dump_with_string offset (some (take system.shdr_size raw)) (bin_buffer s₂),
            s₂,
          )
        ]
      ]

  module _ (layout : Layout) (file : List ℕ) (image : Image) where
    -- The loop over the section headers from `i` on; their bytes are in memory since
    -- `elf_init_read`.
    unfoldable pub section_heads_loop : ℕ → List Shdr → Screen → Option (List (List Piece) × Screen)
    section_heads_loop i [] s = some ([], s)
    section_heads_loop i (h ∷ heads) s =
        let size = image.header.e_shentsize in
        let offset = (image.header.e_shoff + i * size) % 2 ^ 32 in
        elim (file_read file offset size) [
          | none ↦ none
          | some raw ↦ elim (section_header_dump image h raw offset s) [
            | none ↦ none
            | some (out, s') ↦ elim (section_heads_loop (i + 1) heads s') [
              | none ↦ none
              | some (outs, s'') ↦ some (out ∷ outs, s'')
            ]
          ]
        ]

    -- `elf_dump_symtab` of the two tables. One that could not be read is a null pointer.
    unfoldable pub symtab_part : Shdr → Option (List ℕ) → Option (List ℕ) → Outcome (List Entry)
    symtab_part h (some buf) (some strtab) = dump_symtab system.sym_size system.sym h buf strtab
    symtab_part h buf strtab = elim (dump_symtab system.sym_size system.sym h [] []) [
      | printed [] ↦ printed []
      | printed (e ∷ es) ↦ crashed
      | exited ↦ exited
      | crashed ↦ crashed
    ]

    unfoldable pub wanted : Bool → List ℕ → Outcome (List Piece)
    wanted dumped name =
        if dumped then or_crash (section_dump_by_name layout file image name) else printed []

    unfoldable pub dynamic_part : Bool → Screen → Outcome (List (List Piece))
    dynamic_part dumped s =
        if dumped
        then next (or_crash (find_section image dot_dynamic)) (λ (i, h).
          elim (file_read file h.sh_offset h.sh_size) [
            | some buf ↦ or_crash (dynamic_dump system.format h buf s)
            | none ↦ elim (dynamic_dump system.format h [] s) [
              | some [] ↦ printed []
              | some (out ∷ outs) ↦ crashed
              | none ↦ crashed
            ]
          ])
        else printed []

    -- The four sections that are dumped by name.
    unfoldable pub sections_part : Flags → Outcome (List (List Piece))
    sections_part flags = next (wanted flags.dump_rodata dot_rodata) (λ rodata.
        next (wanted flags.dump_data dot_data) (λ data_out.
          next (wanted flags.dump_bss dot_bss) (λ bss.
            next (wanted flags.dump_text dot_text)
              (λ text. printed (rodata ∷ data_out ∷ bss ∷ text ∷ [])))))

    unfoldable pub heads_part : Bool → Screen → Option (List (List Piece) × Screen)
    heads_part dumped s = if dumped then section_heads_loop 0 image.heads s else some ([], s)

    -- The string and the symbol table: both are found and read, dumped or not.
    unfoldable pub symbols_part : Flags → Outcome Tables
    symbols_part flags = next (or_crash (find_section image dot_strtab)) (λ (i, strtab).
        next (or_crash (find_section image dot_symtab)) (λ (j, symtab).
          let strtab_buf = file_read file strtab.sh_offset strtab.sh_size in
          let symtab_buf = file_read file symtab.sh_offset symtab.sh_size in
          next (if flags.dump_symtab then symtab_part symtab symtab_buf strtab_buf else printed [])
            (λ entries. printed (record {
              strtab_index = i;
              strtab =
                  if flags.dump_strtab
                  then binary_dump_with_char strtab.sh_offset strtab_buf
                  else [];
              symtab_index = j;
              symtab = entries;
            }))))

    unfoldable pub file_dump : Dumps → Screen → Outcome Shown
    file_dump dumps s =
        next (or_crash (header_part system.prints layout file dumps.dump_header image s))
          (λ (header, s₁). next (or_crash (heads_part dumps.dump_section_header s₁)) (λ (heads, s₂).
            next (symbols_part dumps.flags) (λ tables. next (sections_part dumps.flags) (λ sections.
              next (dynamic_part dumps.dump_dyn s₂) (λ dynamic. printed (record {
                header = header;
                section_heads = heads;
                tables = tables;
                sections = sections;
                dynamic = dynamic;
              }))))))
