-- ===== src/Elf/Summary/Laws.antt =====
-- What the summary of perftools/linux/elf/elf.c tells of the sections.
use debian_config_files.Base.{
  ℕ, zero, suc, ◌+◌, ◌≡◌, refl, false, some, some_inj, List, [], ◌∷◌, ◌==◌, ◌∙◌, get_elem?, arith,
}
use debian_config_files.Elf.File.{Shdr, string_at, same_string}
use debian_config_files.Elf.Summary.{Flags, Indices, is_dumped, summary_loop, dump_summary}

-- The name of the section of code.
abbrev pub dot_text : List ℕ
dot_text = b'.' ∷ b't' ∷ b'e' ∷ b'x' ∷ b't' ∷ []

summary_loop-is_dumped :
    (flags : Flags) (indices : Indices) (shstrtab : List ℕ) (heads : List Shdr) (j i : ℕ) (h : Shdr)
    → get_elem? heads i ≡ some h
    → get_elem? (summary_loop flags indices shstrtab j heads) i
      ≡ some (record {
        dumped = is_dumped flags indices (j + i) (string_at shstrtab h.sh_name);
        index = j + i;
        name = string_at shstrtab h.sh_name;
      })
unfolding summary_loop
summary_loop-is_dumped flags indices shstrtab [] j i h g = absurd (ground arith)
summary_loop-is_dumped flags indices shstrtab (x ∷ heads) j zero h g =
    let z : j + 0 ≡ j = omega arith in rw (z, some_inj g) refl
summary_loop-is_dumped flags indices shstrtab (x ∷ heads) j (suc i) h g =
    let z : j + suc i ≡ j + 1 + i = omega arith in
    rw z (summary_loop-is_dumped flags indices shstrtab heads (j + 1) i h g)

is_dumped-text :
    (flags : Flags) (indices : Indices) (i : ℕ)
    → (i == indices.shstrndx) ≡ false
    → (i == indices.strtab) ≡ false
    → (i == indices.symtab) ≡ false
    → is_dumped flags indices i dot_text ≡ flags.dump_bss
unfolding is_dumped same_string
is_dumped-text flags indices i a b c = ground arith

-- The summary of a section named `.text` that is none of the three tables: it is marked exactly
-- when `dump_bss` is set, although `dump_text` decides whether it is dumped.
pub dump_summary-text :
    (flags : Flags) (indices : Indices) (shstrtab : List ℕ) (heads : List Shdr) (i : ℕ) (h : Shdr)
    → get_elem? heads i ≡ some h
    → string_at shstrtab h.sh_name ≡ dot_text
    → (i == indices.shstrndx) ≡ false
    → (i == indices.strtab) ≡ false
    → (i == indices.symtab) ≡ false
    → get_elem? (dump_summary flags indices shstrtab heads) i
      ≡ some (record { dumped = flags.dump_bss; index = i; name = dot_text })
unfolding dump_summary
dump_summary-text flags indices shstrtab heads i h g named a b c =
    let first : 0 + i ≡ i = omega arith in
    summary_loop-is_dumped flags indices shstrtab heads 0 i h g
    ∙ rw (named, first, is_dumped-text flags indices i a b c) refl
