-- ===== src/Dump/Buffer.antt =====
-- The text buffer of perftools/linux/elf/binary_dump.c: `bin_buffer`, `bin_buffer_reset` and
-- `bin_printf`. `vsprintf` is not part of the program: the text that it formats is an argument.
use debian_config_files.Base.{
  ℕ, ◌+◌, ◌≤◌, ◌<◌, ◌≡◌, ◌≢◌, refl, ap, sym, subst, ◌∙◌, Bool, true, false, Option, none, some,
  List, [], ◌∷◌, ◌++◌, ltb, if◌then◌else◌, length, length-append, take, arith,
}
use mathlib.Core.List.{append-nil, append_assoc}
use mathlib.Core.Path.{ap₂}

-- `MAX`, the size of `screen`.
abbrev pub max_screen : ℕ
max_screen = 4096

-- `chars` is the string in `screen`, `index` is `buf_index`.
pub record Screen : Type 0 where
  pub chars : List ℕ
  pub index : ℕ

-- The string that `bin_buffer` gives.
pub bin_buffer : Screen → List ℕ
bin_buffer s = s.chars

pub bin_buffer_reset : Screen → Screen
bin_buffer_reset s = record s { index = 0 }

-- Where a text goes: the written string ends in its own '\0'. `none` is a write past the end of
-- `screen`.
put_text : ℕ → List ℕ → Screen → Option Screen
put_text index added s =
    if ltb (index + length added) max_screen
    then some (record { chars = take index s.chars ++ added; index = index + length added })
    else none

-- `added` is the formatted text, and `[]` a null or empty format. The error return of -1, which
-- leaves the buffer as it is, is taken together with the other returns: no caller reads them.
pub bin_printf : Bool → List ℕ → Screen → Option Screen
bin_printf first [] s = some (if first then record s { index = 0 } else s)
bin_printf first (c ∷ added) s =
    let index = if first then 0 else s.index in
    if ltb max_screen index then some (record s { index = index }) else put_text index (c ∷ added) s

-- Several calls, none of which starts afresh.
pub print_all : List (List ℕ) → Screen → Option Screen
print_all [] s = some s
print_all (t ∷ texts) s = elim (bin_printf false t s) [ none ↦ none | some s' ↦ print_all texts s' ]

abbrev pub concat : List (List ℕ) → List ℕ
concat [] = []
concat (t ∷ texts) = t ++ concat texts

-- The buffer holds the string, and the next text goes behind it.
pub record IsTight (s : Screen) (t : List ℕ) : Type 0 where
  pub chars : s.chars ≡ t
  pub index : s.index ≡ length t

take-length : (t : List ℕ) → take (length t) t ≡ t
take-length [] = refl
take-length (c ∷ t) = ap (λ x. c ∷ x) (take-length t)

bin_printf-IsTight :
    (added t : List ℕ) (s : Screen)
    → IsTight s t
    → length t + length added < max_screen
    → (s' : Screen) × (bin_printf false added s ≡ some s') × IsTight s' (t ++ added)
unfolding bin_printf put_text
bin_printf-IsTight [] t s h w = (
  s,
  refl,
  record { chars = h.chars ∙ sym (append-nil t); index = h.index ∙ ap length (sym (append-nil t)) },
)
bin_printf-IsTight (c ∷ added) t s h w =
    let x = h.index in
    (
      record { chars = take s.index s.chars ++ (c ∷ added); index = s.index + length (c ∷ added) },
      ground arith,
      record {
        chars =
            ap₂ (λ n l. take n l ++ (c ∷ added)) h.index h.chars
            ∙ ap (λ l. l ++ (c ∷ added)) (take-length t);
        index = omega (arith, length-append {0} t (c ∷ added));
      },
    )

print_all-IsTight :
    (texts : List (List ℕ)) (t : List ℕ) (s : Screen)
    → IsTight s t
    → length t + length (concat texts) < max_screen
    → (s' : Screen) × (print_all texts s ≡ some s') × IsTight s' (t ++ concat texts)
unfolding print_all
print_all-IsTight [] t s h w = (
  s,
  refl,
  record { chars = h.chars ∙ sym (append-nil t); index = h.index ∙ ap length (sym (append-nil t)) },
)
print_all-IsTight (added ∷ texts) t s h w =
    let (s₁, e, h₁) =
      bin_printf-IsTight added t s h (omega (arith, length-append {0} added (concat texts))) in
    let (s₂, e₂, h₂) =
      print_all-IsTight texts (t ++ added) s₁ h₁
        (omega (arith, length-append {0} added (concat texts), length-append {0} t added)) in
    (s₂, rw (e, print_all) e₂, subst (IsTight s₂) (append_assoc t added (concat texts)) h₂)

-- A first call, with a text that is not empty, and calls that follow it leave in the buffer
-- exactly their texts, one behind the other, whatever was in it, if there are less than 4096
-- characters in all.
pub bin_buffer-print_all :
    (s : Screen) (c : ℕ) (t : List ℕ) (texts : List (List ℕ))
    → length (c ∷ t) + length (concat texts) < max_screen
    → (s₁ s₂ : Screen) × (bin_printf true (c ∷ t) s ≡ some s₁)
      × (print_all texts s₁ ≡ some s₂)
      × (bin_buffer s₂ ≡ (c ∷ t) ++ concat texts)
unfolding bin_printf put_text bin_buffer
bin_buffer-print_all s c t texts w =
    let s₁ : Screen = record { chars = c ∷ t; index = 0 + length (c ∷ t) } in
    let (s₂, e, h) =
      print_all-IsTight texts (c ∷ t) s₁ (record { chars = refl; index = omega arith }) w in
    (s₁, s₂, ground arith, e, h.chars)

-- The same for calls that follow a `bin_buffer_reset`.
pub bin_buffer_reset-print_all :
    (s : Screen) (t : List ℕ) (texts : List (List ℕ))
    → t ≢ []
    → length (concat (t ∷ texts)) < max_screen
    → (s' : Screen) × (print_all (t ∷ texts) (bin_buffer_reset s) ≡ some s')
      × (bin_buffer s' ≡ concat (t ∷ texts))
unfolding print_all bin_printf put_text bin_buffer bin_buffer_reset
bin_buffer_reset-print_all s [] texts n w = absurd (n refl)
bin_buffer_reset-print_all s (c ∷ t) texts n w =
    let s₁ : Screen = record { chars = c ∷ t; index = 0 + length (c ∷ t) } in
    let one : bin_printf false (c ∷ t) (bin_buffer_reset s) ≡ some s₁ =
      ground (arith, length-append {0} (c ∷ t) (concat texts)) in
    let (s₂, e, h) =
      print_all-IsTight texts (c ∷ t) s₁ (record { chars = refl; index = omega arith })
        (omega (arith, length-append {0} (c ∷ t) (concat texts))) in
    (s₂, rw (one, print_all) e, h.chars)

-- The guard of `bin_printf` tests the index before the text is written and lets through every
-- index up to 4096, so each text that does not fit is written past the end of the buffer.
pub bin_printf-overflow :
    (s : Screen) (c : ℕ) (added : List ℕ)
    → s.index ≤ max_screen
    → max_screen ≤ s.index + length (c ∷ added)
    → bin_printf false (c ∷ added) s ≡ none
unfolding bin_printf put_text
bin_printf-overflow s c added h w = ground arith
