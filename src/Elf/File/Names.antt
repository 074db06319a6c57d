-- ===== src/Elf/File/Names.antt =====
-- `elf_find_shstrtab` of perftools/linux/elf/elf.c, where the names of the sections lie in the table
-- of names: then `strcmp` stays in it.
use debian_config_files.Base.{
  ℕ, ◌<◌, ◌≡◌, ◌≢◌, refl, ap, sym, subst, ◌∙◌, Bool-cases, false, inl, inr, Option, none, some,
  List, [], ◌∷◌, ◌++◌, All, All-get_elem?, ◌==◌, get_elem?, drop, arith,
}
use debian_config_files.Elf.File.{Shdr, c_string, string_at, find_shstrtab}
use debian_config_files.Elf.File.Laws.{IsNamed, Finds, found, missing, find_shstrtab-Finds}

-- At an index of the table stands a name, and behind it the 0 that ends it.
abbrev pub Stands : List ℕ → ℕ → List ℕ → Type 0
Stands strtab index name = (rest : List ℕ) × (drop index strtab ≡ name ++ (0 ∷ rest))

-- At the index some string stands.
abbrev pub HasString : List ℕ → ℕ → Type 0
HasString strtab index = (s : List ℕ) × Stands strtab index s

abbrev pub IsNamedAt : List Shdr → List ℕ → List ℕ → ℕ → Type 0
IsNamedAt heads strtab name i =
    (h : Shdr) × (get_elem? heads i ≡ some h) × Stands strtab h.sh_name name

-- The index of the first section of a name, or -1.
pub data Locates (heads : List Shdr) (strtab name : List ℕ) (out : Option ℕ) : Type 0 where
  located :
      (k : ℕ)
      → IsNamedAt heads strtab name k
      → ((j : ℕ) → j < k → ¬ IsNamedAt heads strtab name j)
      → out ≡ some k
      → Locates heads strtab name out
  nowhere : ((j : ℕ) → ¬ IsNamedAt heads strtab name j) → out ≡ none → Locates heads strtab name out

c_string-append :
    (name rest : List ℕ) → All (λ c. c ≢ 0) name → c_string (name ++ (0 ∷ rest)) ≡ name
unfolding c_string
c_string-append [] rest h = refl
c_string-append (c ∷ name) rest h =
    let e : c == 0 ≡ false = ground (arith, h.0) in
    rw (e, c_string) (ap (λ s. c ∷ s) (c_string-append name rest h.1))

c_string-ends :
    (s rest : List ℕ)
    → (rest' : List ℕ) × (s ++ (0 ∷ rest) ≡ c_string (s ++ (0 ∷ rest)) ++ (0 ∷ rest'))
unfolding c_string
c_string-ends [] rest = (rest, refl)
c_string-ends (c ∷ s) rest = elim (Bool-cases (c == 0)) [
  | inl e ↦ (
    s ++ (0 ∷ rest),
    rw (e, c_string) (ap (λ x. x ∷ (s ++ (0 ∷ rest))) {x = c} {y = 0} (ground arith)),
  )
  | inr e ↦ let (rest', q) = c_string-ends s rest in (rest', rw (e, c_string) (ap (λ x. c ∷ x) q))
]

Stands-string_at :
    (strtab : List ℕ) (index : ℕ) (name : List ℕ)
    → All (λ c. c ≢ 0) name
    → Stands strtab index name
    → string_at strtab index ≡ name
unfolding string_at
Stands-string_at strtab index name z (rest, e) = ap c_string e ∙ c_string-append name rest z

pub string_at-Stands :
    (strtab : List ℕ) (index : ℕ)
    → HasString strtab index
    → Stands strtab index (string_at strtab index)
unfolding string_at
string_at-Stands strtab index (s, (rest, e)) =
    let (rest', q) = c_string-ends s rest in
    (rest', e ∙ q ∙ ap (λ x. c_string x ++ (0 ∷ rest')) (sym e))

module _ (heads : List Shdr) (strtab name : List ℕ) (z : All (λ c. c ≢ 0) name) where
  IsNamedAt-IsNamed : (i : ℕ) → IsNamedAt heads strtab name i → IsNamed heads strtab name i
  IsNamedAt-IsNamed i (h, g, s) = (h, g, Stands-string_at strtab h.sh_name name z s)

  -- Where the names lie in the table, `elf_find_shstrtab` reads nothing outside it. It gives the
  -- first section at whose place in the table the name stands, ended by a 0, and -1 exactly where
  -- there is no such section.
  pub find_shstrtab-Locates :
      All (λ h. HasString strtab h.sh_name) heads
      → Locates heads strtab name (find_shstrtab heads strtab name)
  find_shstrtab-Locates all =
      go (find_shstrtab heads strtab name) (find_shstrtab-Finds heads strtab name)
    where
      named : (i : ℕ) → IsNamed heads strtab name i → IsNamedAt heads strtab name i
      named i (h, g, e) = (
        h,
        g,
        subst (Stands strtab h.sh_name) e (
            string_at-Stands strtab h.sh_name
              (All-get_elem? (λ h. HasString strtab h.sh_name) heads i g all)),
      )

      go : (out : Option ℕ) → Finds heads strtab name 0 out → Locates heads strtab name out
      go out (found k is before e) =
          located k (named k is) (λ j lt n. before j lt (IsNamedAt-IsNamed j n))
            (e ∙ ap some (omega arith))
      go out (missing no_one e) = nowhere (λ j n. no_one j (IsNamedAt-IsNamed j n)) e
