-- ===== src/Elf/Summary.antt =====
-- The summary at the end of a run of perftools/linux/elf/elf.c: `elf_dump_summary`,
-- `elf_summary_symtab` and `_sym_idx`.
pub mod Laws
use Prim.Native.String.{String}
use debian_config_files.Base.{
  ℕ, zero, suc, ◌+◌, ◌*◌, ◌/◌, ◌%◌, Bool, true, false, not, ◌&&◌, ◌||◌, List, [], ◌∷◌, ltb, ◌==◌,
  if◌then◌else◌,
}
use debian_config_files.Elf.File.{Shdr, string_at, same_string}
use debian_config_files.Elf.Symbols.{
  Sym, sym_bind_of, sym_type_of, sym_bind, sym_type, symbol_at, Outcome, printed, exited, crashed,
}

-- What `_sym_idx` gives: a decimal number, or a word.
pub data Index : Type 0 where
  section_number : ℕ → Index
  word : String → Index

pub sym_idx : ℕ → Index
sym_idx n =
    if ltb 0 n && ltb n 65280
    then section_number n
    else if n == 0
    then word "UND"
    else if n == 65521
    then word "ABS"
    else if n == 65522
    then word "COM"
    else word " UN"

-- A line of the table of symbols.
pub record Row : Type 0 where
  pub number : ℕ
  pub symbol : Sym
  pub type_name : String
  pub bind_name : String
  pub index : Index
  pub name : List ℕ

module _ (sizeof_sym : ℕ) (decode : List ℕ → Sym) where
  pub rows_loop : List ℕ → List ℕ → ℕ → ℕ → ℕ → List Row
  rows_loop buf strtab j i zero = []
  rows_loop buf strtab j i (suc n) =
      let sym = symbol_at sizeof_sym decode buf i in
      record {
        number = j;
        symbol = sym;
        type_name = sym_type (sym_type_of sym.st_info);
        bind_name = sym_bind (sym_bind_of sym.st_info);
        index = sym_idx sym.st_shndx;
        name = string_at strtab sym.st_name;
      }
      ∷ rows_loop buf strtab (j + 1) (i + 1) n

  pub summary_symtab : Shdr → List ℕ → List ℕ → Outcome (List Row)
  summary_symtab header buf strtab =
      if header.sh_entsize == 0
      then crashed
      else if not (header.sh_entsize == sizeof_sym)
      then exited
      else if not (header.sh_size % header.sh_entsize == 0)
      then exited
      else printed (rows_loop buf strtab 0 0 (header.sh_size / header.sh_entsize))

-- The static variables that tell what to dump. `dump_text` is not read by the summary.
pub record Flags : Type 0 where
  pub dump_strtab : Bool
  pub dump_symtab : Bool
  pub dump_comment : Bool
  pub dump_rodata : Bool
  pub dump_data : Bool
  pub dump_bss : Bool
  pub dump_text : Bool

-- The indices that the dump has found.
pub record Indices : Type 0 where
  pub shstrndx : ℕ
  pub strtab : ℕ
  pub symtab : ℕ

-- `section_dumped` for the section `i`, whose name is `name`.
pub is_dumped : Flags → Indices → ℕ → List ℕ → Bool
is_dumped flags indices i name =
    (i == indices.shstrndx)
    || (flags.dump_strtab && (i == indices.strtab))
    || (flags.dump_symtab && (i == indices.symtab))
    || (flags.dump_comment
        && same_string (b'.' ∷ b'c' ∷ b'o' ∷ b'm' ∷ b'm' ∷ b'e' ∷ b'n' ∷ b't' ∷ []) name)
    || (flags.dump_rodata && same_string (b'.' ∷ b'r' ∷ b'o' ∷ b'd' ∷ b'a' ∷ b't' ∷ b'a' ∷ []) name)
    || (flags.dump_data && same_string (b'.' ∷ b'd' ∷ b'a' ∷ b't' ∷ b'a' ∷ []) name)
    || (flags.dump_bss && same_string (b'.' ∷ b'b' ∷ b's' ∷ b's' ∷ []) name)
    || (flags.dump_bss && same_string (b'.' ∷ b't' ∷ b'e' ∷ b'x' ∷ b't' ∷ []) name)

-- A line of the table of sections: the mark, the index and the name.
pub record Mark : Type 0 where
  pub dumped : Bool
  pub index : ℕ
  pub name : List ℕ

pub summary_loop : Flags → Indices → List ℕ → ℕ → List Shdr → List Mark
summary_loop flags indices shstrtab i [] = []
summary_loop flags indices shstrtab i (h ∷ heads) =
    let name = string_at shstrtab h.sh_name in
    record { dumped = is_dumped flags indices i name; index = i; name = name }
    ∷ summary_loop flags indices shstrtab (i + 1) heads

pub dump_summary : Flags → Indices → List ℕ → List Shdr → List Mark
dump_summary flags indices shstrtab heads = summary_loop flags indices shstrtab 0 heads
