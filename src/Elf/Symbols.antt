-- ===== src/Elf/Symbols.antt =====
-- The symbol table in perftools/linux/elf/elf.c: `_sym_bind`, `_sym_type`, `elf_dump_symtab`,
-- `elf_data_dump`, `elf_bss_dump` and `elf_text_dump`, with the macros of elfile.h.
pub mod Laws
use Prim.Native.String.{String}
use debian_config_files.Base.{
  ℕ, zero, suc, ◌+◌, ◌*◌, ◌/◌, ◌%◌, ◌^◌, Bool, true, false, not, Option, none, some, List, [], ◌∷◌,
  ◌==◌, if◌then◌else◌, take, drop,
}
use debian_config_files.Dump.Hex.{Piece, binary_dump}
use debian_config_files.Elf.File.{Shdr, string_at}

-- `Elf32_Sym`, less the fields that are only printed in `elf_dump_symtab`.
pub record Sym : Type 0 where
  pub st_name : ℕ
  pub st_value : ℕ
  pub st_size : ℕ
  pub st_info : ℕ
  pub st_shndx : ℕ

-- `SYM_BIND` and `SYM_TYPE`.
pub sym_bind_of : ℕ → ℕ
sym_bind_of val = val % 256 / 16

pub sym_type_of : ℕ → ℕ
sym_type_of val = val % 16

pub sym_bind : ℕ → String
sym_bind n =
    if n == 0
    then "LOCAL"
    else if n == 1
    then "GLOBAL"
    else if n == 2
    then "WEAK"
    else if n == 3
    then "NUM"
    else if n == 10
    then "LOOS"
    else if n == 12
    then "HIOS"
    else if n == 13
    then "LOPROC"
    else if n == 15
    then "HIPROC"
    else "UNKNOW"

pub sym_type : ℕ → String
sym_type n =
    if n == 0
    then "NOTYPE"
    else if n == 1
    then "OBJECT"
    else if n == 2
    then "FUNC"
    else if n == 3
    then "SECTION"
    else if n == 4
    then "FILE"
    else if n == 5
    then "COMMON"
    else if n == 6
    then "TLS"
    else if n == 7
    then "NUM"
    else if n == 10
    then "LOOS"
    else if n == 12
    then "HIOS"
    else if n == 13
    then "LOPROC"
    else if n == 15
    then "HIPROC"
    else "UNKNOW"

-- How a function of the viewer ends: it prints, it calls `exit(-1)`, or it divides by zero.
pub data Outcome {ℓ} (A : Type ℓ) : Type ℓ where
  printed : A → Outcome A
  exited : Outcome A
  crashed : Outcome A

-- A symbol with its name and its raw bytes, as `elf_dump_symtab` shows it.
pub record Entry : Type 0 where
  pub symbol : Sym
  pub name : List ℕ
  pub raw : List Piece

-- A line of a section's symbols: its number, the symbol, and the words for its type and binding.
pub record Line : Type 0 where
  pub number : ℕ
  pub symbol : Sym
  pub type_name : String
  pub bind_name : String
  pub name : List ℕ

-- `sizeof(Elf32_Sym)` and the fields of a symbol are those of the system's <elf.h>.
module _ (sizeof_sym : ℕ) (decode : List ℕ → Sym) where
  -- The `i`-th symbol of a table in memory.
  unfoldable pub symbol_at : List ℕ → ℕ → Sym
  symbol_at buf i = decode (take sizeof_sym (drop (i * sizeof_sym) buf))

  -- The loop of `elf_dump_symtab` from `i` on, with `n` rounds left. `offset` is the variable
  -- `offset_in_file`, which each round adds to.
  unfoldable pub symtab_loop : List ℕ → List ℕ → ℕ → ℕ → ℕ → List Entry
  symtab_loop buf strtab offset i zero = []
  symtab_loop buf strtab offset i (suc n) =
      let offset' = (offset + i * sizeof_sym) % 2 ^ 32 in
      record {
        symbol = symbol_at buf i;
        name = string_at strtab (symbol_at buf i).st_name;
        raw = binary_dump offset' (some (take sizeof_sym (drop (i * sizeof_sym) buf)));
      }
      ∷ symtab_loop buf strtab offset' (i + 1) n

  unfoldable pub dump_symtab : Shdr → List ℕ → List ℕ → Outcome (List Entry)
  dump_symtab head buf strtab =
      if head.sh_entsize == 0
      then crashed
      else if not (head.sh_entsize == sizeof_sym)
      then exited
      else if not (head.sh_size % head.sh_entsize == 0)
      then exited
      else printed (symtab_loop buf strtab head.sh_offset 0 (head.sh_size / head.sh_entsize))

  -- The loop of the three dump functions from `i` on, with `n` rounds left; `j` numbers the lines.
  pub lines_loop : ℕ → List ℕ → List ℕ → ℕ → ℕ → ℕ → List Line
  lines_loop section buf strtab j i zero = []
  lines_loop section buf strtab j i (suc n) =
      let sym = symbol_at buf i in
      let shown =
        record {
          number = j;
          symbol = sym;
          type_name = sym_type (sym_type_of sym.st_info);
          bind_name = sym_bind (sym_bind_of sym.st_info);
          name = string_at strtab sym.st_name;
        }
        ∷ lines_loop section buf strtab (j + 1) (i + 1) n in
      let passed = lines_loop section buf strtab j (i + 1) n in
      if sym.st_shndx == section then shown else passed

  -- `elf_bss_dump`. (A `sizeof` is not zero, so the division is never by zero.)
  pub bss_dump : ℕ → Shdr → List ℕ → List ℕ → Outcome (List Line)
  bss_dump section head buf strtab =
      if not (head.sh_entsize == sizeof_sym)
      then exited
      else printed (lines_loop section buf strtab 0 0 (head.sh_size / head.sh_entsize))

  -- `elf_data_dump`: the symbols, then the bytes.
  pub data_dump : ℕ → Shdr → List ℕ → Shdr → List ℕ → List ℕ → Outcome (List Line × List Piece)
  data_dump section head bytes sym_head buf strtab =
      if not (sym_head.sh_entsize == sizeof_sym)
      then exited
      else printed (
        lines_loop section buf strtab 0 0 (sym_head.sh_size / sym_head.sh_entsize),
        binary_dump head.sh_offset (some (take head.sh_size bytes)),
      )

  pub text_dump : ℕ → Shdr → List ℕ → Shdr → List ℕ → List ℕ → Outcome (List Line × List Piece)
  text_dump section head bytes sym_head buf strtab =
      if not (sym_head.sh_entsize == sizeof_sym)
      then exited
      else printed (
        lines_loop section buf strtab 0 0 (sym_head.sh_size / sym_head.sh_entsize),
        binary_dump head.sh_offset (some (take head.sh_size bytes)),
      )
