-- ===== src/Elf/File/Laws.antt =====
-- Sections are found by name in perftools/linux/elf/elf.c.
use debian_config_files.Base.{
  ℕ, zero, suc, ◌+◌, ◌<◌, ◌≡◌, refl, some_inj, ap, ◌∙◌, true, false, Option, none, some, List, [],
  ◌∷◌, get_elem?, arith, Bool-cases, inl, inr,
}
use debian_config_files.Elf.File.{Shdr, string_at, same_string, find_from, find_shstrtab}

pub same_string-true : (s t : List ℕ) → same_string s t ≡ true → s ≡ t
unfolding same_string
same_string-true [] [] h = refl
same_string-true [] (d ∷ t) h = cc
same_string-true (c ∷ s) [] h = cc
same_string-true (c ∷ s) (d ∷ t) h = ground (arith, same_string-true s t)

same_string_refl : (s : List ℕ) → same_string s s ≡ true
unfolding same_string
same_string_refl [] = refl
same_string_refl (c ∷ s) = ground (arith, same_string_refl s)

-- The section header `i` has the name.
abbrev pub IsNamed : List Shdr → List ℕ → List ℕ → ℕ → Type 0
IsNamed heads strtab name i =
    (h : Shdr) × (get_elem? heads i ≡ some h) × (string_at strtab h.sh_name ≡ name)

-- The result of a search that counts from `i` on.
pub data Finds (heads : List Shdr) (strtab name : List ℕ) (i : ℕ) (out : Option ℕ) : Type 0 where
  found :
      (k : ℕ)
      → IsNamed heads strtab name k
      → ((j : ℕ) → j < k → ¬ IsNamed heads strtab name j)
      → out ≡ some (i + k)
      → Finds heads strtab name i out
  missing : ((j : ℕ) → ¬ IsNamed heads strtab name j) → out ≡ none → Finds heads strtab name i out

module _ (strtab name : List ℕ) where
  other_name :
      (h : Shdr) (heads : List Shdr)
      → same_string (string_at strtab h.sh_name) name ≡ false
      → ¬ IsNamed (h ∷ heads) strtab name 0
  other_name h heads ne (h', e, n) =
      let q : h ≡ h' = some_inj e in
      let same = same_string_refl name in
      let z : string_at strtab h.sh_name ≡ name =
        ap (λ (x : Shdr). string_at strtab x.sh_name) q ∙ n in
      let w : same_string (string_at strtab h.sh_name) name ≡ true = rw z same in cc

  Finds-later :
      (h : Shdr) (heads : List Shdr) (i : ℕ) (out : Option ℕ)
      → same_string (string_at strtab h.sh_name) name ≡ false
      → Finds heads strtab name (i + 1) out
      → Finds (h ∷ heads) strtab name i out
  Finds-later h heads i out ne (found k is before e) =
      found (suc k) is earlier (let z : i + suc k ≡ i + 1 + k = omega arith in rw z e)
    where
      earlier : (j : ℕ) → j < suc k → ¬ IsNamed (h ∷ heads) strtab name j
      earlier zero lt = other_name h heads ne
      earlier (suc j) lt = before j (omega arith)
  Finds-later h heads i out ne (missing no_one e) = missing none_at e
    where
      none_at : (j : ℕ) → ¬ IsNamed (h ∷ heads) strtab name j
      none_at zero = other_name h heads ne
      none_at (suc j) = no_one j

  find_from-Finds :
      (heads : List Shdr) (i : ℕ) → Finds heads strtab name i (find_from i heads strtab name)
  unfolding find_from
  find_from-Finds [] i = missing (λ j (h, e, n). cc) refl
  find_from-Finds (h ∷ heads) i =
      elim (Bool-cases (same_string (string_at strtab h.sh_name) name)) [
        | inl yes_it ↦ rw yes_it (
            found 0 (h, refl, same_string-true _ name yes_it) (λ j lt. absurd (omega arith))
              (ap some (omega arith)))
        | inr not_it ↦ rw not_it (Finds-later h heads i _ not_it (find_from-Finds heads (i + 1)))
      ]

-- `elf_find_shstrtab` gives the first section of a name, and -1 exactly where there is none.
pub find_shstrtab-Finds :
    (heads : List Shdr) (strtab name : List ℕ)
    → Finds heads strtab name 0 (find_shstrtab heads strtab name)
unfolding find_shstrtab
find_shstrtab-Finds heads strtab name = find_from-Finds strtab name heads 0
