-- ===== src/Elf/Dig.antt =====
-- perftools/linux/elf/elfdig.c, a library that keeps a file's tables in one object: reading them,
-- and the walks over them. A buffer is known by its bytes; `Field` tells a field of the object that
-- was never written, since `malloc` does not clear it, from a null pointer.
pub mod Laws
use debian_config_files.Base.{
  ℕ, zero, suc, ◌+◌, ◌*◌, ◌/◌, ◌%◌, ◌^◌, Bool, true, false, not, ◌&&◌, ◌||◌, Option, none, some,
  List, [], ◌∷◌, ltb, leb, ◌==◌, if◌then◌else◌, length, get_elem?, take, drop,
}
use debian_config_files.Elf.File.{Ehdr, Shdr, Layout, file_read, string_at, same_string}
use debian_config_files.Elf.Symbols.{Sym}
use debian_config_files.Elf.Dynamic.{Dyn}

pub data Field : Type 0 where
  unset : Field
  null : Field
  buffer : List ℕ → Field

-- A table: the pointer to it and the count of its entries, `none` if it was never written.
pub record Table : Type 0 where
  pub start : Field
  pub num : Option ℕ

-- `struct elf_obj`, less the descriptor and the lengths that nothing reads.
pub record Obj : Type 0 where
  pub head : Ehdr
  pub sections : List Shdr
  pub shstrtab : List ℕ
  pub shstrtab_len : ℕ
  pub sym : Table
  pub dynsym : Table
  pub dyn : Table
  pub strtab : Field
  pub dynstr : Field

abbrev pub field_of : Option (List ℕ) → Field
field_of none = null
field_of (some b) = buffer b

-- The sizes of the structures of <elf.h>, and the fields of the entries.
pub record Sizes : Type 0 where
  pub layout : Layout
  pub shdr_size : ℕ
  pub sym_size : ℕ
  pub sym : List ℕ → Sym
  pub dyn_size : ℕ
  pub dyn : List ℕ → Dyn

-- The entries of a table in memory, `n` of them from the `i`-th on.
unfoldable pub entries_from {ℓ} : {A : Type ℓ} → (List ℕ → A) → ℕ → List ℕ → ℕ → ℕ → List A
entries_from decode size buf i zero = []
entries_from decode size buf i (suc n) =
    decode (take size (drop (i * size) buf)) ∷ entries_from decode size buf (i + 1) n

-- The place of a section's name in the table of names.
pub section_name : Obj → ℕ → ℕ
section_name obj index = if ltb obj.shstrtab_len index then 0 else index

-- `elf_section_head`; `none` is the null pointer.
unfoldable pub head_among : List Shdr → List ℕ → List ℕ → Option Shdr
head_among [] strtab name = none
head_among (h ∷ heads) strtab name =
    let rest = head_among heads strtab name in
    if same_string (string_at strtab h.sh_name) name then some h else rest

unfoldable pub section_head : Obj → List ℕ → Option Shdr
section_head obj name = head_among obj.sections obj.shstrtab name

pub section_head_by_index : Obj → ℕ → Option Shdr
section_head_by_index obj index = get_elem? obj.sections index

module _ (sizes : Sizes) (file : List ℕ) where
  -- `none` is a null pointer that is read through, or a section index past the table.
  unfoldable pub section_head_read : Option Obj
  section_head_read = elim (file_read file 0 sizes.layout.ehdr_size) [
    | none ↦ none
    | some b ↦
        let head = sizes.layout.ehdr b in
        elim (file_read file head.e_shoff (head.e_shentsize * head.e_shnum)) [
          | none ↦ none
          | some t ↦
              let heads = entries_from sizes.layout.shdr sizes.shdr_size t 0 head.e_shnum in
              elim (get_elem? heads head.e_shstrndx) [
                | none ↦ none
                | some names ↦ elim (file_read file names.sh_offset names.sh_size) [
                  | none ↦ none
                  | some strtab ↦ some (record {
                    head = head;
                    sections = heads;
                    shstrtab = strtab;
                    shstrtab_len = names.sh_size;
                    sym = record { start = unset; num = none };
                    dynsym = record { start = unset; num = none };
                    dyn = record { start = unset; num = none };
                    strtab = unset;
                    dynstr = unset;
                  })
                ]
              ]
        ]
  ]

  -- `_elf_section`.
  pub section_bytes : Shdr → Option (List ℕ)
  section_bytes h = file_read file h.sh_offset h.sh_size

  -- `elf_section`; the outer `none` is the null pointer for a section that is not there, which
  -- `_elf_section` reads through.
  pub section : Obj → List ℕ → Option (Option (List ℕ))
  section obj name = elim (section_head obj name) [ none ↦ none | some h ↦ some (section_bytes h) ]

  -- `elf_sym_read`, without the value that no caller reads. `none` is a crash, here and below.
  pub sym_read : Obj → Option Obj
  sym_read obj = elim (section obj (b'.' ∷ b's' ∷ b't' ∷ b'r' ∷ b't' ∷ b'a' ∷ b'b' ∷ [])) [
    | none ↦ none
    | some none ↦ some obj
    | some (some strtab) ↦
        let obj' : Obj = record obj { strtab = buffer strtab } in
        elim (section_head obj' (b'.' ∷ b's' ∷ b'y' ∷ b'm' ∷ b't' ∷ b'a' ∷ b'b' ∷ [])) [
          | none ↦ some obj'
          | some h ↦ some (record obj' {
            sym = record {
              start = field_of (section_bytes h);
              num = some (h.sh_size / sizes.sym_size);
            };
          })
        ]
  ]

  pub dynsym_read : Obj → Option Obj
  dynsym_read obj = elim (section obj (b'.' ∷ b'd' ∷ b'y' ∷ b'n' ∷ b's' ∷ b't' ∷ b'r' ∷ [])) [
    | none ↦ none
    | some none ↦ some (record obj { dynstr = null })
    | some (some dynstr) ↦
        let obj' : Obj = record obj { dynstr = buffer dynstr } in
        elim (section_head obj' (b'.' ∷ b'd' ∷ b'y' ∷ b'n' ∷ b's' ∷ b'y' ∷ b'm' ∷ [])) [
          | none ↦ some (record obj' { dynsym = record { start = null; num = some 0 } })
          | some h ↦ some (record obj' {
            dynsym = record {
              start = field_of (section_bytes h);
              num = some (h.sh_size / sizes.sym_size);
            };
          })
        ]
  ]

  -- A section without an entry size passes the test, and is divided by 0.
  pub dyn_read : Obj → Option Obj
  dyn_read obj =
      elim (section_head obj (b'.' ∷ b'd' ∷ b'y' ∷ b'n' ∷ b'a' ∷ b'm' ∷ b'i' ∷ b'c' ∷ [])) [
        | none ↦ some obj
        | some h ↦
            if not (h.sh_entsize == 0) && not (h.sh_entsize == sizes.dyn_size)
            then some obj
            else if h.sh_entsize == 0
            then none
            else some (record obj {
              dyn = record {
                start = field_of (section_bytes h);
                num = some (h.sh_size / h.sh_entsize);
              };
            })
      ]

  -- What `elf_init` does with the object, once there is one.
  pub load : Option Obj
  load = elim section_head_read [
    | none ↦ none
    | some obj ↦ elim (sym_read obj) [
      | none ↦ none
      | some obj₁ ↦ elim (dynsym_read obj₁) [ none ↦ none | some obj₂ ↦ dyn_read obj₂ ]
    ]
  ]

  -- `elf_init`, from whether `open` and `fstat` succeed; `malloc` is taken to succeed. The inner
  -- `none` is the null pointer that it returns.
  pub init : Bool → Bool → Option (Option Obj)
  init opens stats =
      if not opens || not stats || (length file == 0)
      then some none
      else elim load [ none ↦ none | some obj ↦ some (some obj) ]

  -- The entries that `elf_for_each_sym` and `elf_for_each_dynsym` call back with: all of a table.
  unfoldable pub for_each {ℓ} : {A : Type ℓ} → (List ℕ → A) → ℕ → Table → Option (List A)
  for_each decode size t = elim t.num [
    | none ↦ none
    | some n ↦ elim t.start [
      | unset ↦ none
      | null ↦ if n == 0 then some [] else none
      | buffer b ↦ some (entries_from decode size b 0 n)
    ]
  ]

  -- The loop of `elf_for_each_dyn`.
  unfoldable pub until_null : List Dyn → List Dyn
  until_null [] = []
  until_null (d ∷ ds) = let rest = until_null ds in if d.d_tag == 0 then [] else d ∷ rest

  unfoldable pub for_each_dyn : Obj → Option (List Dyn)
  for_each_dyn obj = elim (for_each sizes.dyn sizes.dyn_size obj.dyn) [
    | none ↦ none
    | some ds ↦ some (until_null ds)
  ]

  -- What `main` shows: the symbols, the dynamic symbols and the dynamic entries. The walks read
  -- through the null pointer that `elf_init` may return.
  pub main : Bool → Bool → Option (List Sym × List Sym × List Dyn)
  main opens stats = elim (init opens stats) [
    | none ↦ none
    | some none ↦ none
    | some (some obj) ↦ elim (for_each sizes.sym sizes.sym_size obj.sym) [
      | none ↦ none
      | some syms ↦ elim (for_each sizes.sym sizes.sym_size obj.dynsym) [
        | none ↦ none
        | some dynsyms ↦ elim (for_each_dyn obj) [
          | none ↦ none
          | some dyns ↦ some (syms, dynsyms, dyns)
        ]
      ]
    ]
  ]
