-- ===== src/Elf/Dynamic.antt =====
-- The program headers and the dynamic section in perftools/linux/elf/elf.c: `_ph_type`, `_dyn_type`
-- and `elf_dynamic_dump`. The tags are those of the ELF standard; `DT_NUM` and `PT_NUM`, which
-- differ from one <elf.h> to another, are arguments.
pub mod Laws
use Prim.Native.String.{String}
use debian_config_files.Base.{
  ℕ, zero, suc, ◌+◌, ◌*◌, ◌/◌, ◌%◌, ◌^◌, Bool, true, false, Option, none, some, List, [], ◌∷◌, ◌++◌,
  ◌==◌, if◌then◌else◌, take, drop,
}
use debian_config_files.Dump.Hex.{Piece}
use debian_config_files.Dump.Lines.{binary_dump_with_string}
use debian_config_files.Dump.Buffer.{Screen, bin_buffer, bin_printf, print_all}
use debian_config_files.Elf.File.{Shdr}

-- A `switch` whose cases give a string: its cases, and the string of `default`.
pub switch_on : List (ℕ × String) → String → ℕ → String
switch_on [] default n = default
switch_on (row ∷ rows) default n =
    let rest = switch_on rows default n in if n == row.0 then row.1 else rest

pub ph_type : ℕ → ℕ → String
ph_type pt_num n =
    switch_on
      ((0, "NULL")
        ∷ (1, "LOAD")
        ∷ (2, "DYN")
        ∷ (3, "INTERP")
        ∷ (4, "NOTE")
        ∷ (5, "SHLIB")
        ∷ (6, "PHDR")
        ∷ (7, "TLS")
        ∷ (pt_num, "NUM")
        ∷ [])
      "UNK" n

pub dyn_type : ℕ → ℕ → String
dyn_type dt_num n =
    switch_on
      ((0, "NULL")
        ∷ (1, "NEEDED")
        ∷ (2, "PLTRELSE")
        ∷ (3, "PLTGOT")
        ∷ (4, "HASH")
        ∷ (5, "STRTAB")
        ∷ (6, "SYMTAB")
        ∷ (7, "RELA")
        ∷ (8, "RELASZ")
        ∷ (9, "RELAENT")
        ∷ (10, "STRSZ")
        ∷ (11, "SYMENT")
        ∷ (12, "INIT")
        ∷ (13, "FINI")
        ∷ (14, "SONAME")
        ∷ (15, "RPATH")
        ∷ (16, "SYMBOLIC")
        ∷ (17, "REL")
        ∷ (18, "RELSZ")
        ∷ (19, "RELENT")
        ∷ (20, "PLTREL")
        ∷ (21, "DEBUG")
        ∷ (22, "TEXTREL")
        ∷ (23, "JMPREL")
        ∷ (24, "BIND_NOW")
        ∷ (25, "INIT_ARRAY")
        ∷ (26, "FINI_ARRAY")
        ∷ (27, "INIT_ARRAYSZ")
        ∷ (28, "FINI_ARRAYSZ")
        ∷ (29, "RUNPATH")
        ∷ (30, "FLAGS")
        ∷ (32, "ENCODING")
        ∷ (33, "PREINIT_ARRAYSZ")
        ∷ (dt_num, "NUM")
        ∷ (1610612749, "LOOS")
        ∷ (1879044096, "HIOS")
        ∷ (1879048192, "LOPROC")
        ∷ (2147483647, "HIPROC")
        ∷ [])
      "UNK" n

-- `Elf32_Dyn`.
pub record Dyn : Type 0 where
  pub d_tag : ℕ
  pub d_val : ℕ

-- What the dump takes from outside: `sizeof(Elf32_Dyn)` and the fields of an entry, `DT_NUM`, and
-- the conversions "%d", "%s" and "%08x" of `vsprintf`.
pub record Format : Type 0 where
  pub dyn_size : ℕ
  pub dyn : List ℕ → Dyn
  pub dt_num : ℕ
  pub decimal : ℕ → List ℕ
  pub chars : String → List ℕ
  pub hex8 : ℕ → List ℕ

module _ (format : Format) where
  pub raw_entry : List ℕ → ℕ → List ℕ
  raw_entry buf i = take format.dyn_size (drop (i * format.dyn_size) buf)

  -- The rest of the first text, behind its 'D', and the two texts that follow.
  unfoldable pub title_tail : ℕ → List ℕ
  title_tail i = b'y' ∷ b'n' ∷ b' ' ∷ (format.decimal i ++ (10 ∷ []))

  unfoldable pub entry_texts : Dyn → List (List ℕ)
  entry_texts d =
      (format.chars (dyn_type format.dt_num d.d_tag) ++ (10 ∷ [])) ∷ format.hex8 d.d_val ∷ []

  -- The text of one entry, printed to the buffer.
  pub print_entry : ℕ → Dyn → Screen → Option Screen
  print_entry i d s = elim (bin_printf true (b'D' ∷ title_tail i) s) [
    | none ↦ none
    | some s' ↦ print_all (entry_texts d) s'
  ]

  -- The loop from `i` on, with `n` entries left; a list of pieces for each entry. `none` is a write
  -- past the end of the buffer.
  pub dynamic_loop : ℕ → List ℕ → ℕ → ℕ → Screen → Option (List (List Piece))
  dynamic_loop sh_offset buf i zero s = some []
  dynamic_loop sh_offset buf i (suc n) s =
      let raw = raw_entry buf i in
      elim (print_entry i (format.dyn raw) s) [
        | none ↦ none
        | some s' ↦ elim (dynamic_loop sh_offset buf (i + 1) n s') [
          | none ↦ none
          | some out ↦ some (
              binary_dump_with_string ((sh_offset + i * format.dyn_size) % 2 ^ 32) (some raw)
                (bin_buffer s')
              ∷ out)
        ]
      ]

  pub dynamic_dump : Shdr → List ℕ → Screen → Option (List (List Piece))
  dynamic_dump header buf s =
      dynamic_loop header.sh_offset buf 0 (header.sh_size / format.dyn_size) s
