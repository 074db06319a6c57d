-- ===== src/Elf/Run/Laws.antt =====
-- What `_elf_file_dump` of perftools/linux/elf/elf.c needs of a file.
use debian_config_files.Base.{
  ℕ, ◌≡◌, refl, sym, ◌∙◌, Bool, true, false, Option, none, some, List, arith, get_elem?,
  Option-cases, inl, inr,
}
use debian_config_files.Dump.Hex.{Piece}
use debian_config_files.Dump.Buffer.{Screen}
use debian_config_files.Elf.File.{Shdr, Layout, Image, find_shstrtab, section_dump_by_name}
use debian_config_files.Elf.Symbols.{Outcome, printed, exited, crashed}
use debian_config_files.Elf.Summary.{Flags}
use debian_config_files.Elf.Liner.{header_part}
use debian_config_files.Elf.Run.{
  Dumps, System, Shown, dot_strtab, dot_symtab, dot_rodata, dot_data, dot_bss, dot_text,
  dot_dynamic, next, or_crash, find_section, wanted, dynamic_part, sections_part, Tables,
  heads_part, symbols_part, file_dump,
}

abbrev pub IsThere : Image → List ℕ → Type 0
IsThere image name = (p : ℕ × Shdr) × (find_section image name ≡ some p)

next-printed {ℓ κ} :
    {A : Type ℓ} {B : Type κ} (o : Outcome A) (f : A → Outcome B) (b : B)
    → next o f ≡ printed b
    → (a : A) × (o ≡ printed a) × (f a ≡ printed b)
next-printed (printed a) f b h = (a, refl, h)
next-printed exited f b h = absurd (ground arith)
next-printed crashed f b h = absurd (ground arith)

or_crash-printed {ℓ} : {A : Type ℓ} (o : Option A) (a : A) → or_crash o ≡ printed a → o ≡ some a
or_crash-printed none a h = absurd (ground arith)
or_crash-printed (some x) a h = ground arith

module _ (system : System) (layout : Layout) (file : List ℕ) (image : Image) where
  section_dump_by_name-none :
      (name : List ℕ)
      → find_section image name ≡ none
      → section_dump_by_name layout file image name ≡ none
  unfolding find_section section_dump_by_name
  section_dump_by_name-none name h =
      elim (Option-cases (find_shstrtab image.heads image.shstrtab name)) [
        | inl e ↦ rw (e, section_dump_by_name) refl
        | inr (i, e) ↦ elim (Option-cases (get_elem? image.heads i)) [
          | inl g ↦ rw (e, section_dump_by_name, g) refl
          | inr (x, g) ↦ absurd (ground arith)
        ]
      ]

  wanted-IsThere :
      (dumped : Bool) (name : List ℕ) (out : List Piece)
      → wanted system layout file image dumped name ≡ printed out
      → dumped ≡ true
      → IsThere image name
  unfolding wanted
  wanted-IsThere false name out h t = absurd (ground arith)
  wanted-IsThere true name out h t = elim (Option-cases (find_section image name)) [
    | inl e ↦ absurd (
        ground (
          arith,
          sym (section_dump_by_name-none name e)
              ∙ or_crash-printed (section_dump_by_name layout file image name) out h,
        ))
    | inr (p, e) ↦ (p, e)
  ]

  dynamic_part-IsThere :
      (dumped : Bool) (s : Screen) (out : List (List Piece))
      → dynamic_part system layout file image dumped s ≡ printed out
      → dumped ≡ true
      → IsThere image dot_dynamic
  unfolding dynamic_part
  dynamic_part-IsThere false s out h t = absurd (ground arith)
  dynamic_part-IsThere true s out h t =
      let (p, e, r) = next-printed (or_crash (find_section image dot_dynamic)) _ out h in
      (p, or_crash-printed (find_section image dot_dynamic) p e)

  -- The sections that are dumped by name.
  pub record Named (flags : Flags) : Type 0 where
    rodata : flags.dump_rodata ≡ true → IsThere image dot_rodata
    data_section : flags.dump_data ≡ true → IsThere image dot_data
    bss : flags.dump_bss ≡ true → IsThere image dot_bss
    text : flags.dump_text ≡ true → IsThere image dot_text

  sections_part-Named :
      (flags : Flags) (out : List (List Piece))
      → sections_part system layout file image flags ≡ printed out
      → Named flags
  unfolding sections_part
  sections_part-Named flags out h =
      let (a, e, r) =
        next-printed (wanted system layout file image flags.dump_rodata dot_rodata) _ out h in
      let (b, f, s) =
        next-printed (wanted system layout file image flags.dump_data dot_data) _ out r in
      let (c, g, t) =
        next-printed (wanted system layout file image flags.dump_bss dot_bss) _ out s in
      let (d, k, u) =
        next-printed (wanted system layout file image flags.dump_text dot_text) _ out t in
      record {
        rodata = wanted-IsThere flags.dump_rodata dot_rodata a e;
        data_section = wanted-IsThere flags.dump_data dot_data b f;
        bss = wanted-IsThere flags.dump_bss dot_bss c g;
        text = wanted-IsThere flags.dump_text dot_text d k;
      }

  symbols_part-IsThere :
      (flags : Flags) (tables : Tables)
      → symbols_part system layout file image flags ≡ printed tables
      → IsThere image dot_strtab × IsThere image dot_symtab
  unfolding symbols_part
  symbols_part-IsThere flags tables h =
      let (c, e, r) = next-printed (or_crash (find_section image dot_strtab)) _ tables h in
      let (d, f, s) = next-printed (or_crash (find_section image dot_symtab)) _ tables r in
      (
        (c, or_crash-printed (find_section image dot_strtab) c e),
        (d, or_crash-printed (find_section image dot_symtab) d f),
      )

  -- Every section that a dump uses.
  pub record Needs (dumps : Dumps) : Type 0 where
    strtab : IsThere image dot_strtab
    symtab : IsThere image dot_symtab
    named : Named dumps.flags
    dynamic : dumps.dump_dyn ≡ true → IsThere image dot_dynamic

  -- `_elf_file_dump` runs to its end only on a file that has both tables, `.strtab` and `.symtab`,
  -- dumped or not, and every other section whose dump is switched on; on any other file, such as a
  -- stripped one, it crashes or exits.
  pub file_dump-Needs :
      (dumps : Dumps) (s : Screen) (shown : Shown)
      → file_dump system layout file image dumps s ≡ printed shown
      → Needs dumps
  unfolding file_dump
  file_dump-Needs dumps s shown h =
      let head = or_crash (header_part system.prints layout file dumps.dump_header image s) in
      let (a, e₁, r₁) = next-printed head _ shown h in
      let heads = or_crash (heads_part system layout file image dumps.dump_section_header a.1) in
      let (b, e₂, r₂) = next-printed heads _ shown r₁ in
      let (c, e₃, r₃) =
        next-printed (symbols_part system layout file image dumps.flags) _ shown r₂ in
      let (d, e₄, r₄) =
        next-printed (sections_part system layout file image dumps.flags) _ shown r₃ in
      let (e, e₅, r₅) =
        next-printed (dynamic_part system layout file image dumps.dump_dyn b.1) _ shown r₄ in
      let there = symbols_part-IsThere dumps.flags c e₃ in
      record {
        strtab = there.0;
        symtab = there.1;
        named = sections_part-Named dumps.flags d e₄;
        dynamic = dynamic_part-IsThere dumps.dump_dyn b.1 e e₅;
      }
