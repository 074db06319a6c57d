-- ===== src/Elf/Dig/Laws.antt =====
-- What the walks of perftools/linux/elf/elfdig.c visit, and where reading the tables crashes.
use debian_config_files.Base.{
  ℕ, ◌≡◌, ◌≢◌, ◌⊎◌, inl, inr, refl, ap, sym, subst, suc, true, false, length, ◌∙◌, none, some, List,
  [], ◌∷◌, ◌++◌, All, ◌==◌, arith, Option-cases, Bool-cases, some_inj,
}
use debian_config_files.Elf.File.{Shdr, string_at, same_string}
use debian_config_files.Elf.File.Laws.{same_string-true}
use debian_config_files.Elf.File.Names.{Stands, HasString, IsNamedAt, string_at-Stands}
use debian_config_files.Elf.Dynamic.{Dyn}
use debian_config_files.Elf.Dig.{
  buffer, Obj, Sizes, entries_from, section_head, section_head_read, section, sym_read, dynsym_read,
  head_among, load, init, for_each, until_null, for_each_dyn,
}

abbrev pub dot_strtab : List ℕ
dot_strtab = b'.' ∷ b's' ∷ b't' ∷ b'r' ∷ b't' ∷ b'a' ∷ b'b' ∷ []

abbrev pub dot_dynstr : List ℕ
dot_dynstr = b'.' ∷ b'd' ∷ b'y' ∷ b'n' ∷ b's' ∷ b't' ∷ b'r' ∷ []

-- The rest of a table, from the first null entry on.
abbrev pub StartsNull : List Dyn → Type 0
StartsNull [] = Unit
StartsNull (d ∷ ds) = d.d_tag ≡ 0

-- A table is cut before its first null entry.
pub record Cut (table shown : List Dyn) : Type 0 where
  pub rest : List Dyn
  pub whole : shown ++ rest ≡ table
  pub used : All (λ d. d.d_tag ≢ 0) shown
  pub ended : StartsNull rest

length-some : (file : List ℕ) → file ≢ [] → length file == 0 ≡ false
length-some [] ne = absurd (ne refl)
length-some (b ∷ file) ne = ground arith

head_among-none :
    (heads : List Shdr) (strtab name : List ℕ)
    → All (λ h. HasString strtab h.sh_name) heads
    → ((j : ℕ) → ¬ IsNamedAt heads strtab name j)
    → head_among heads strtab name ≡ none
unfolding head_among
head_among-none [] strtab name all lacks = refl
head_among-none (h ∷ heads) strtab name all lacks =
    elim (Bool-cases (same_string (string_at strtab h.sh_name) name)) [
      | inl same ↦ absurd (
          lacks 0 (
            h,
            refl,
            subst (Stands strtab h.sh_name) (same_string-true _ name same)
                (string_at-Stands strtab h.sh_name all.0),
          ))
      | inr other ↦
          rw (other, head_among) (head_among-none heads strtab name all.1 (λ j. lacks (suc j)))
    ]

module _ (sizes : Sizes) (file : List ℕ) where
  until_null-Cut : (ds : List Dyn) → Cut ds (until_null sizes file ds)
  unfolding until_null
  until_null-Cut [] = record { rest = []; whole = refl; used = tt; ended = tt }
  until_null-Cut (d ∷ ds) =
      let c = until_null-Cut ds in
      elim (Bool-cases (d.d_tag == 0)) [
        | inl e ↦
            rw (e, until_null)
              (record { rest = d ∷ ds; whole = refl; used = tt; ended = ground arith })
        | inr e ↦
            rw (e, until_null)
              (record {
                rest = c.rest;
                whole = ap (λ x. d ∷ x) c.whole;
                used = ((λ z. ground arith), c.used);
                ended = c.ended;
              })
      ]

  -- `elf_for_each_dyn` calls back with the entries of the dynamic section in order, up to the first
  -- with the tag 0, which is left out with all behind it.
  pub for_each_dyn-Cut :
      (obj : Obj) (b : List ℕ) (n : ℕ) (shown : List Dyn)
      → obj.dyn ≡ record { start = buffer b; num = some n }
      → for_each_dyn sizes file obj ≡ some shown
      → Cut (entries_from sizes.dyn sizes.dyn_size b 0 n) shown
  unfolding for_each_dyn for_each
  for_each_dyn-Cut obj b n shown t h =
      let table = entries_from sizes.dyn sizes.dyn_size b 0 n in
      let walk : for_each_dyn sizes file obj ≡ some (until_null sizes file table) =
        ap
          (λ x. elim (for_each sizes file sizes.dyn sizes.dyn_size x) [
            | none ↦ none
            | some ds ↦ some (until_null sizes file ds)
          ])
          t in
      let e : until_null sizes file table ≡ shown = some_inj (sym walk ∙ h) in
      subst (Cut table) e (until_null-Cut table)

  -- Reading the symbols leaves the section headers alone.
  sym_read-section_head :
      (obj obj' : Obj) (name : List ℕ)
      → sym_read sizes file obj ≡ some obj'
      → section_head obj' name ≡ section_head obj name
  unfolding sym_read section section_head
  sym_read-section_head obj obj' name h = ground arith

  sym_read-crashes :
      (obj : Obj) → section_head obj dot_strtab ≡ none → sym_read sizes file obj ≡ none
  unfolding sym_read section
  sym_read-crashes obj e = rw (e, sym_read, section) refl

  dynsym_read-crashes :
      (obj : Obj) → section_head obj dot_dynstr ≡ none → dynsym_read sizes file obj ≡ none
  unfolding dynsym_read section
  dynsym_read-crashes obj e = rw (e, dynsym_read, section) refl

  load-crashes :
      (obj : Obj)
      → section_head_read sizes file ≡ some obj
      → (section_head obj dot_strtab ≡ none) ⊎ (section_head obj dot_dynstr ≡ none)
      → load sizes file ≡ none
  unfolding load
  load-crashes obj r (inl missing) = rw (r, load, sym_read-crashes obj missing) refl
  load-crashes obj r (inr missing) = elim (Option-cases (sym_read sizes file obj)) [
    | inl e ↦ rw (r, load, e) refl
    | inr (obj', e) ↦
        rw
          (
            r,
            load,
            e,
            dynsym_read-crashes obj' (sym_read-section_head obj obj' dot_dynstr e ∙ missing),
          )
          refl
  ]

  -- No section has the name.
  abbrev pub Lacks : Obj → List ℕ → Type 0
  Lacks obj name = (j : ℕ) → ¬ IsNamedAt obj.sections obj.shstrtab name j

  section_head-none :
      (obj : Obj) (name : List ℕ)
      → All (λ h. HasString obj.shstrtab h.sh_name) obj.sections
      → Lacks obj name
      → section_head obj name ≡ none
  unfolding section_head
  section_head-none obj name all lacks = head_among-none obj.sections obj.shstrtab name all lacks

  -- On a file that can be opened and is not empty, and whose section headers and their names can be
  -- read, but in which no section has the name `.strtab` or none the name `.dynstr`, `elf_init`
  -- crashes: the tests for a missing section come after `elf_section` has read through its null
  -- pointer.
  pub init-crashes :
      (obj : Obj)
      → file ≢ []
      → section_head_read sizes file ≡ some obj
      → All (λ h. HasString obj.shstrtab h.sh_name) obj.sections
      → Lacks obj dot_strtab ⊎ Lacks obj dot_dynstr
      → init sizes file true true ≡ none
  unfolding init
  init-crashes obj some_bytes r all lacks =
      let missing : (section_head obj dot_strtab ≡ none) ⊎ (section_head obj dot_dynstr ≡ none) =
        elim lacks [
          | inl l ↦ inl (section_head-none obj dot_strtab all l)
          | inr l ↦ inr (section_head-none obj dot_dynstr all l)
        ] in
      rw (length-some file some_bytes, init, load-crashes obj r missing) refl
