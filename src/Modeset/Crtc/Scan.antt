-- ===== src/Modeset/Crtc/Scan.antt =====
-- The loops over devices and CRTCs in `modeset_find_crtc` of perftools/X/drm-howto/modeset.c.
use debian_config_files.Base.{
  ℕ, zero, suc, ◌+◌, ◌<◌, ◌^◌, ◌≡◌, ◌≢◌, true, false, none, some, List, [], ◌∷◌, arith, All,
  get_elem?, Option-cases, Bool-cases, inl, inr,
}
use debian_config_files.Modeset.Crtc.{test_bit, in_use, claim, scan_crtcs}

-- No device drives the CRTC, and its number is not negative as an `int32_t`.
pub record IsFree (used : List ℕ) (crtc : ℕ) : Type 0 where
  pub unused : All (λ d. d ≢ crtc) used
  pub signed : crtc < 2 ^ 31

pub in_use-false : (used : List ℕ) (c : ℕ) → in_use used c ≡ false → All (λ d. d ≢ c) used
unfolding in_use
in_use-false [] c h = tt
in_use-false (d ∷ used) c h = (ground arith, in_use-false used c (ground arith))

in_use-true : (used : List ℕ) (c : ℕ) → in_use used c ≡ true → ¬ All (λ d. d ≢ c) used
unfolding in_use
in_use-true [] c h a = cc
in_use-true (d ∷ used) c h (ne, a) = ground (arith, in_use-true used c)

pub claim-some : (used : List ℕ) (c : ℕ) {x : ℕ} → claim used c ≡ some x → (x ≡ c) × IsFree used c
unfolding claim
claim-some used c h =
    (ground arith, record { unused = in_use-false used c (ground arith); signed = ground arith })

pub claim-none : (used : List ℕ) (c : ℕ) → claim used c ≡ none → ¬ IsFree used c
unfolding claim
claim-none used c h f = ground (arith, in_use-true used c, f.unused)

-- What a scan that succeeds from the index `j` on has found.
abbrev pub Found : List ℕ → ℕ → ℕ → List ℕ → ℕ → Type 0
Found used m j cs c =
    (i : ℕ) × (get_elem? cs i ≡ some c) × (test_bit m (j + i) ≡ true) × IsFree used c

Found-cons :
    (used : List ℕ) (m j x : ℕ) (cs : List ℕ) {c : ℕ}
    → Found used m (j + 1) cs c
    → Found used m j (x ∷ cs) c
Found-cons used m j x cs (i, g, b, f) =
    (suc i, g, (let e : j + suc i ≡ j + 1 + i = omega arith in rw e b), f)

Found-head :
    (used : List ℕ) (m j x : ℕ) (cs : List ℕ) {c : ℕ}
    → test_bit m j ≡ true
    → c ≡ x
    → IsFree used x
    → Found used m j (x ∷ cs) c
Found-head used m j x cs b e f = (0, rw e, (let z : j + 0 ≡ j = omega arith in rw z b), (rw e f))

pub scan_crtcs-some :
    (used : List ℕ) (m j : ℕ) (cs : List ℕ) {c : ℕ}
    → scan_crtcs used m j cs ≡ some c
    → Found used m j cs c
unfolding scan_crtcs
scan_crtcs-some used m j [] h = cc
scan_crtcs-some used m j (x ∷ cs) {c} h = elim (Bool-cases (test_bit m j)) [
  | inl b ↦ elim (Option-cases (claim used x)) [
    | inl n ↦ Found-cons used m j x cs (scan_crtcs-some used m (j + 1) cs (ground arith))
    | inr (y, e) ↦
        let (same, free) = claim-some used x e in Found-head used m j x cs b (ground arith) free
  ]
  | inr b ↦ Found-cons used m j x cs (scan_crtcs-some used m (j + 1) cs (ground arith))
]

pub scan_crtcs-none :
    (used : List ℕ) (m j : ℕ) (cs : List ℕ)
    → scan_crtcs used m j cs ≡ none
    → (i c : ℕ) → get_elem? cs i ≡ some c
    → test_bit m (j + i) ≡ true
    → ¬ IsFree used c
unfolding scan_crtcs
scan_crtcs-none used m j [] h i c g b f = cc
scan_crtcs-none used m j (x ∷ cs) h zero c g b f =
    let b' : test_bit m j ≡ true = (let z : j + 0 ≡ j = omega arith in rw z at b) in
    let n : claim used x ≡ none = ground arith in
    let e : c ≡ x = ground arith in claim-none used x n (rw e at f)
scan_crtcs-none used m j (x ∷ cs) h (suc i) c g b f =
    let b' : test_bit m (j + 1 + i) ≡ true =
      (let z : j + suc i ≡ j + 1 + i = omega arith in rw z at b) in
    scan_crtcs-none used m (j + 1) cs (ground arith) i c g b' f
