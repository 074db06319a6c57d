-- ===== src/Elf/Tests/Digs.antt =====
-- The theorems on perftools/linux/elf/elfdig.c at work on a file without `.strtab`.
use debian_config_files.Base.{
  ◌≡◌, ◌≢◌, arith, refl, ap, sym, ◌∙◌, drop, true, zero, suc, none, some, some_inj, inl, List, [],
  ◌∷◌, ℕ,
}
use debian_config_files.Elf.File.{Shdr, file_read}
use debian_config_files.Elf.Dig.{unset, Obj, Sizes, entries_from, section_head_read, init}
use debian_config_files.Elf.Dig.Laws.{dot_strtab, Lacks, init-crashes}
use debian_config_files.Elf.Tests.{
  byte_at, names_head, section_a, tiny, tiny_file, tiny_image, two_bytes,
}

abbrev small_sizes : Sizes
small_sizes = record {
  layout = tiny;
  shdr_size = 3;
  sym_size = 2;
  sym = two_bytes;
  dyn_size = 2;
  dyn = λ b. record { d_tag = byte_at b 0; d_val = byte_at b 1 };
}

abbrev tiny_obj : Obj
tiny_obj = record {
  head = tiny_image.header;
  sections = tiny_image.heads;
  shstrtab = tiny_image.shstrtab;
  shstrtab_len = 3;
  sym = record { start = unset; num = none };
  dynsym = record { start = unset; num = none };
  dyn = record { start = unset; num = none };
  strtab = unset;
  dynstr = unset;
}

section_head_read-tiny : section_head_read small_sizes tiny_file ≡ some tiny_obj
unfolding section_head_read entries_from file_read
section_head_read-tiny = refl

-- The name of a header is not the one that is looked for.
other_start :
    (h g : Shdr) (c d : ℕ) (s t : List ℕ)
    → c ≢ d
    → h ≡ g
    → drop h.sh_name tiny_obj.shstrtab ≡ c ∷ s
    → drop g.sh_name tiny_obj.shstrtab ≡ d ∷ t
    → ⊥
other_start h g c d s t ne e p q =
    let z : c ∷ s ≡ d ∷ t = sym p ∙ ap (λ (x : Shdr). drop x.sh_name tiny_obj.shstrtab) e ∙ q in
    ne cc

no_strtab : Lacks small_sizes tiny_file tiny_obj dot_strtab
no_strtab zero (h, e, (rest, q)) =
    other_start names_head h 0 46 (65 ∷ 0 ∷ []) _ (λ z. omega (arith, z)) (some_inj e) refl q
no_strtab (suc zero) (h, e, (rest, q)) =
    other_start section_a h 65 46 (0 ∷ []) _ (λ z. omega (arith, z)) (some_inj e) refl q
no_strtab (suc (suc j)) (h, e, q) = cc

init-crashes_example : init small_sizes tiny_file true true ≡ none
init-crashes_example =
    init-crashes small_sizes tiny_file tiny_obj (λ e. cc) section_head_read-tiny
      (([], (65 ∷ 0 ∷ [], refl)), ((65 ∷ [], ([], refl)), tt)) (inl no_strtab)
