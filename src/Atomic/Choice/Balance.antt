-- ===== src/Atomic/Choice/Balance.antt =====
-- What `modeset_find_crtc` of perftools/X/drm-howto/modeset-atomic.c picks, and that it frees what
-- it gets.
use debian_config_files.Base.{
  ℕ, suc, ◌+◌, ◌≡◌, ◌≢◌, refl, subst, ◌==◌, Bool, true, Option, none, some, List, [], ◌∷◌, arith,
  All, get_elem?, Bool-cases, if◌then◌else◌, ◌⊎◌, inl, inr,
}
use debian_config_files.Modeset.Kernel.{Encoder, Connector, Resources, Resource, encoder, enoent}
use debian_config_files.Modeset.Crtc.{test_bit, in_use}
use debian_config_files.Modeset.Crtc.Scan.{in_use-false}
use debian_config_files.Modeset.Setup.{Status, ok, err}
use debian_config_files.Atomic.Program.{Card, Program}
use debian_config_files.Atomic.Program.Owns.{
  Owns, Owns-bind, Owns-same, Owns-if, Owns-next, Owns-pure, Owns-fetch, Owns-give, Owns-test,
}
use debian_config_files.Atomic.Choice.{
  Route, claim, scan_crtcs, take_crtc, try_current, scan_encoders, find_crtc,
}

-- A CRTC that no output drives.
pub record IsNew (used : List ℕ) (crtc : ℕ) : Type 0 where
  pub positive : crtc ≢ 0
  pub unused : All (λ c. c ≢ crtc) used

-- The CRTC stands in the kernel's list at the index, which the encoder's mask allows.
pub record Stands (card : Card) (crtcs encoders : List ℕ) (crtc index : ℕ) : Type 0 where
  pub place : ℕ
  pub id : ℕ
  pub enc : Encoder
  pub has_id : get_elem? encoders place ≡ some id
  pub known : card.drm.get_encoder id ≡ some enc
  pub has_crtc : get_elem? crtcs index ≡ some crtc
  pub possible : test_bit enc.possible_crtcs index ≡ true

claim-New : (used : List ℕ) (c : ℕ) → claim used c ≢ 0 → (claim used c ≡ c) × IsNew used c
claim-New used c h = elim (Bool-cases (in_use used c)) [
  | inl e ↦ absurd (h (rw e refl))
  | inr e ↦ (
    rw e refl,
    record {
      positive = (let k : claim used c ≡ c = rw e refl in subst (λ x. x ≢ 0) k h);
      unused = in_use-false used c e;
    },
  )
]

-- What a scan that succeeds from the index `j` on has found.
abbrev Found : List ℕ → ℕ → ℕ → List ℕ → Option (ℕ × ℕ) → Type 0
Found used possible j crtcs none = Unit
Found used possible j crtcs (some (c, i)) =
    (k : ℕ) × (i ≡ j + k)
    × (get_elem? crtcs k ≡ some c)
    × (test_bit possible i ≡ true)
    × IsNew used c

Found-later :
    (used : List ℕ) (possible j c : ℕ) (crtcs : List ℕ) (o : Option (ℕ × ℕ))
    → Found used possible (j + 1) crtcs o
    → Found used possible j (c ∷ crtcs) o
Found-later used possible j c crtcs none f = tt
Found-later used possible j c crtcs (some (x, i)) (k, e, g, b, new) =
    (suc k, omega arith, g, b, new)

scan_crtcs-Found :
    (used : List ℕ) (possible j : ℕ) (crtcs : List ℕ)
    → Found used possible j crtcs (scan_crtcs used possible j crtcs)
unfolding scan_crtcs
scan_crtcs-Found used possible j [] = tt
scan_crtcs-Found used possible j (c ∷ crtcs) =
    let rest =
      Found-later used possible j c crtcs _ (scan_crtcs-Found used possible (j + 1) crtcs) in
    elim (Bool-cases (test_bit possible j)) [
      | inr b ↦ rw (b, scan_crtcs) rest
      | inl b ↦ elim (Bool-cases (claim used c == 0)) [
        | inl z ↦ rw (b, z, scan_crtcs) rest
        | inr z ↦
            let n : claim used c ≢ 0 = ground arith in
            let (same, new) = claim-New used c n in
            rw (b, z, scan_crtcs) (0, omega arith, sym_some same, b, rw same new)
      ]
    ]
  where
    sym_some : {a b : ℕ} → a ≡ b → some b ≡ some a
    sym_some e = cc

-- What `modeset_find_crtc` does: a CRTC that is new, with its index, or with the index that was
-- there before where the connector's own encoder drives it already.
abbrev pub PicksCrtc : Card → List ℕ → Resources → Connector → Route → Status × Route → Type 0
PicksCrtc card used res c route (ok, route') =
    IsNew used route'.crtc
    × (route'.plane ≡ route.plane)
    × (Stands card res.crtcs c.encoders route'.crtc route'.crtc_index
        ⊎ (route'.crtc_index ≡ route.crtc_index))
PicksCrtc card used res c route (err e, route') = (e ≡ enoent) × (route' ≡ route)

-- The same for the loop over the encoders.
abbrev Listed : Card → List ℕ → List ℕ → List ℕ → Route → Status × Route → Type 0
Listed card used crtcs encoders route (ok, route') =
    IsNew used route'.crtc
    × (route'.plane ≡ route.plane)
    × Stands card crtcs encoders route'.crtc route'.crtc_index
Listed card used crtcs encoders route (err e, route') = (e ≡ enoent) × (route' ≡ route)

Listed-later :
    (card : Card) (used crtcs encoders : List ℕ) (e : ℕ) (route : Route) (made : Status × Route)
    → Listed card used crtcs encoders route made
    → Listed card used crtcs (e ∷ encoders) route made
Listed-later card used crtcs encoders e route (err x, route') h = h
Listed-later card used crtcs encoders e route (ok, route') (new, same, s) = (
  new,
  same,
  record {
    place = suc s.place;
    id = s.id;
    enc = s.enc;
    has_id = s.has_id;
    known = s.known;
    has_crtc = s.has_crtc;
    possible = s.possible;
  },
)

module _ (card : Card) (w : Bool) (r : Resource) (n : ℕ) (used : List ℕ) where
  try_current-Owns :
      (c : Connector)
      → Owns w r n (try_current card used c) (λ _. n) (λ crtc. crtc ≢ 0 → IsNew used crtc)
  unfolding try_current
  try_current-Owns c =
      Owns-if w r (c.encoder_id == 0) (Owns-pure w r _ refl (λ h. absurd (h refl))) (
        Owns-fetch w r _ (λ _. encoder c.encoder_id) (card.drm.get_encoder c.encoder_id)
          (λ e. Owns-pure w r _ refl (λ h. absurd (h refl)))
          (λ enc e.
            Owns-next w r (Owns-give w r n _) (Owns-pure w r _ refl (current-New enc.crtc_id))))
    where
      current-New :
          (x : ℕ)
          → (if x == 0 then 0 else claim used x) ≢ 0
          → IsNew used (if x == 0 then 0 else claim used x)
      current-New x h = elim (Bool-cases (x == 0)) [
        | inl z ↦ absurd (h (rw z refl))
        | inr z ↦ let same = claim-New used x (rw z at h) in rw (z, same.0) same.1
      ]

  take_crtc-Owns :
      (crtcs encoders : List ℕ) (e : ℕ) (enc : Encoder) (route : Route) (found : Option (ℕ × ℕ))
      {next : Program (Status × Route)}
      → card.drm.get_encoder e ≡ some enc
      → Found used enc.possible_crtcs 0 crtcs found
      → Owns w r n next (λ _. n) (Listed card used crtcs (e ∷ encoders) route)
      → Owns w r n
          (take_crtc found route next)
          (λ _. n)
          (Listed card used crtcs (e ∷ encoders) route)
  unfolding take_crtc
  take_crtc-Owns crtcs encoders e enc route none k f h = h
  take_crtc-Owns crtcs encoders e enc route (some (crtc, i)) k (j, q, g, b, new) h =
      let same : j ≡ i = omega arith in
      Owns-pure w r _ refl (
        new,
        refl,
        record {
          place = 0;
          id = e;
          enc = enc;
          has_id = refl;
          known = k;
          has_crtc = subst (λ x. get_elem? crtcs x ≡ some crtc) same g;
          possible = b;
        },
      )

  scan_encoders-Owns :
      (crtcs encoders : List ℕ) (route : Route)
      → Owns w r n
          (scan_encoders card used crtcs encoders route)
          (λ _. n)
          (Listed card used crtcs encoders route)
  unfolding scan_encoders
  scan_encoders-Owns crtcs [] route = Owns-pure w r _ refl (refl, refl)
  scan_encoders-Owns crtcs (e ∷ encoders) route =
      let rest =
        Owns-same w r refl (λ made h. (refl, Listed-later card used crtcs encoders e route made h))
          (scan_encoders-Owns crtcs encoders route) in
      Owns-fetch w r _ (λ _. encoder e) (card.drm.get_encoder e) (λ _. rest)
        (λ enc k. Owns-next w r (Owns-give w r n _) (
          take_crtc-Owns crtcs encoders e enc route _ k
            (scan_crtcs-Found used enc.possible_crtcs 0 crtcs) rest))

  pub find_crtc-Owns :
      (res : Resources) (c : Connector) (route : Route)
      → Owns w r n (find_crtc card used res c route) (λ _. n) (PicksCrtc card used res c route)
  unfolding find_crtc
  find_crtc-Owns res c route = Owns-bind w r (try_current-Owns c) (λ crtc new.
      Owns-test w r (crtc == 0)
        (λ _.
          Owns-same w r refl (λ made h. (refl, from_list made h))
            (scan_encoders-Owns res.crtcs c.encoders route))
        (λ z. Owns-pure w r _ refl (new (ground arith), refl, inr refl)))
    where
      from_list :
          (made : Status × Route)
          → Listed card used res.crtcs c.encoders route made
          → PicksCrtc card used res c route made
      from_list (ok, route') (n, s, h) = (n, s, inl h)
      from_list (err e, route') h = h
