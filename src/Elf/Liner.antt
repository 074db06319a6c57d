-- ===== src/Elf/Liner.antt =====
-- The dump of a whole file in perftools/linux/elf/elf.c: `elf_header_dump`, `elf_ph_dump2` and
-- `elf_liner_dump`. `ET_NONE` to `ET_DYN` and the machines are numbered as in the ELF standard.
pub mod Laws
use Prim.Native.String.{String}
use debian_config_files.Base.{
  ℕ, zero, suc, ◌+◌, ◌*◌, ◌%◌, ◌^◌, Bool, Option, none, some, List, [], ◌∷◌, ◌++◌, ◌==◌,
  if◌then◌else◌, take, drop,
}
use debian_config_files.Dump.Hex.{Piece}
use debian_config_files.Dump.Lines.{binary_dump_with_string}
use debian_config_files.Dump.Buffer.{Screen, bin_buffer, bin_buffer_reset, print_all}
use debian_config_files.Elf.File.{Ehdr, Shdr, Layout, Image, file_read, string_at, init_read}
use debian_config_files.Elf.Dynamic.{ph_type}

-- The fields of the file header that only the dumps read.
pub record Fields : Type 0 where
  pub e_type : ℕ
  pub e_machine : ℕ
  pub e_entry : ℕ
  pub e_phoff : ℕ
  pub e_phentsize : ℕ
  pub e_phnum : ℕ

-- `Elf32_Phdr`.
pub record Phdr : Type 0 where
  pub p_type : ℕ
  pub p_vaddr : ℕ
  pub p_paddr : ℕ

-- What the dumps take from outside: the fields from their bytes, `sizeof(Elf32_Phdr)`, `PT_NUM`, and
-- the conversions "%s", "%X", "%08lX" and "%06x" of `vsprintf`.
pub record Prints : Type 0 where
  pub fields : List ℕ → Fields
  pub phdr_size : ℕ
  pub phdr : List ℕ → Phdr
  pub pt_num : ℕ
  pub chars : String → List ℕ
  pub hex : ℕ → List ℕ
  pub hex8 : ℕ → List ℕ
  pub hex6 : ℕ → List ℕ

-- The static variables `dump_header` and `dump_pheader`.
pub record Switches : Type 0 where
  pub dump_header : Bool
  pub dump_pheader : Bool

-- Texts printed to the buffer from its start on, and a dump beside it. `none` is a write past the
-- end of the buffer.
unfoldable pub dump_texts :
    ℕ → Option (List ℕ) → List (List ℕ) → Screen → Option (List Piece × Screen)
dump_texts offset raw texts s = elim (print_all texts (bin_buffer_reset s)) [
  | none ↦ none
  | some s' ↦ some (binary_dump_with_string offset raw (bin_buffer s'), s')
]

module _ (prints : Prints) where
  -- The texts of the `switch` on `e_type`.
  unfoldable pub type_text : ℕ → List ℕ
  type_text n =
      if n == 0
      then b'u' ∷ prints.chars "nknown type\n"
      else if n == 1
      then b'R' ∷ prints.chars "elocable file\n"
      else if n == 2
      then b'E' ∷ prints.chars "xecutable file\n"
      else if n == 3
      then b'D' ∷ prints.chars "YN file\n"
      else b'u' ∷ prints.chars "nknow\n"

  unfoldable pub machine_text : ℕ → List ℕ
  machine_text n =
      if n == 3
      then prints.chars "i386\n"
      else if n == 62
      then prints.chars "x84_64\n"
      else if n == 22
      then prints.chars "s390\n"
      else prints.chars "other\n"

  -- A text with a number in it, and the end of the line.
  abbrev numbered : String → ℕ → List ℕ
  numbered s n = prints.chars s ++ (prints.hex n ++ (10 ∷ []))

  -- The calls of `bin_printf` in `elf_header_dump`, in order, but for the first.
  unfoldable pub header_texts : Ehdr → Fields → List (List ℕ)
  header_texts h f =
      machine_text f.e_machine
      ∷ (prints.chars "entry " ++ (prints.hex8 f.e_entry ++ (10 ∷ [])))
      ∷ prints.chars "PROGRAM HEADER\n"
      ∷ numbered "OFFSET     : " f.e_phoff
      ∷ numbered "ENTRY SIZE : " f.e_phentsize
      ∷ numbered "ENTRY NUM  : " f.e_phnum
      ∷ prints.chars "SECTION HEADER\n"
      ∷ numbered "OFFSET     : " h.e_shoff
      ∷ numbered "ENTRY SIZE : " h.e_shentsize
      ∷ numbered "ENTRY NUM  : " h.e_shnum
      ∷ numbered "shstrndx   : " h.e_shstrndx
      ∷ []

  unfoldable pub header_dump : List ℕ → Ehdr → Screen → Option (List Piece × Screen)
  header_dump raw h s =
      let f = prints.fields raw in dump_texts 0 (some raw) (type_text f.e_type ∷ header_texts h f) s

  -- The `i`-th program header and the bytes from it on.
  pub phdr_at : List ℕ → ℕ → Phdr
  phdr_at buf i = prints.phdr (take prints.phdr_size (drop (i * prints.phdr_size) buf))

  pub phdr_bytes : List ℕ → ℕ → ℕ → List ℕ
  phdr_bytes buf size i = take size (drop (i * prints.phdr_size) buf)

  unfoldable pub phdr_texts : Phdr → List (List ℕ)
  phdr_texts p =
      (prints.chars (ph_type prints.pt_num p.p_type) ++ (10 ∷ []))
      ∷ (prints.chars "0x" ++ (prints.hex6 p.p_vaddr ++ (10 ∷ [])))
      ∷ (prints.chars "0x" ++ (prints.hex6 p.p_paddr ++ (10 ∷ [])))
      ∷ []

  -- The loop of `elf_ph_dump2` from `i` on, with `n` headers left.
  pub phdr_loop : List ℕ → ℕ → ℕ → ℕ → ℕ → Screen → Option (List (List Piece) × Screen)
  phdr_loop buf offset size i zero s = some ([], s)
  phdr_loop buf offset size i (suc n) s =
      elim (dump_texts ((offset + size * i) % 2 ^ 32) (some (phdr_bytes buf size i))
        (phdr_texts (phdr_at buf i)) s) [
          | none ↦ none
          | some (out, s') ↦ elim (phdr_loop buf offset size (i + 1) n s') [
            | none ↦ none
            | some (outs, s'') ↦ some (out ∷ outs, s'')
          ]
        ]

  -- `none` is a null pointer too: the buffer of headers that could not be read.
  pub ph_dump2 : Option (List ℕ) → Fields → Screen → Option (List (List Piece) × Screen)
  ph_dump2 none f s = if f.e_phnum == 0 then some ([], s) else none
  ph_dump2 (some buf) f s = phdr_loop buf f.e_phoff f.e_phentsize 0 f.e_phnum s

  module _ (layout : Layout) (file : List ℕ) where
    -- The loop of `elf_liner_dump` over the sections behind the first.
    pub section_loop : List ℕ → List Shdr → Screen → Option (List (List Piece) × Screen)
    section_loop shstrtab [] s = some ([], s)
    section_loop shstrtab (h ∷ heads) s =
        elim (dump_texts h.sh_offset (file_read file h.sh_offset h.sh_size)
          ((string_at shstrtab h.sh_name ++ (10 ∷ [])) ∷ []) s) [
            | none ↦ none
            | some (out, s') ↦ elim (section_loop shstrtab heads s') [
              | none ↦ none
              | some (outs, s'') ↦ some (out ∷ outs, s'')
            ]
          ]

    -- What a run shows: the header, the program headers, and the sections but for the first.
    unfoldable pub header_part : Bool → Image → Screen → Option (List Piece × Screen)
    header_part dumped image s =
        let raw = take layout.ehdr_size file in
        if dumped then header_dump raw image.header s else some ([], s)

    pub phdr_part : Bool → Screen → Option (List (List Piece) × Screen)
    phdr_part dumped s =
        let f = prints.fields (take layout.ehdr_size file) in
        let buf = file_read file f.e_phoff (f.e_phentsize * f.e_phnum) in
        if dumped then ph_dump2 buf f s else some ([], s)

    pub liner_dump : Switches → Screen → Option (List Piece × List (List Piece) × List (List Piece))
    liner_dump switches s = elim (init_read layout file) [
      | none ↦ none
      | some image ↦ elim (header_part switches.dump_header image s) [
        | none ↦ none
        | some (header, s₁) ↦ elim (phdr_part switches.dump_pheader s₁) [
          | none ↦ none
          | some (phdrs, s₂) ↦ elim (section_loop image.shstrtab (drop 1 image.heads) s₂) [
            | none ↦ none
            | some (sections, s₃) ↦ some (header, phdrs, sections)
          ]
        ]
      ]
    ]
