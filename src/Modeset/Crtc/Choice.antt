-- ===== src/Modeset/Crtc/Choice.antt =====
-- Which CRTC `modeset_find_crtc` of perftools/X/drm-howto/modeset.c picks.
use debian_config_files.Base.{
  ℕ, zero, suc, ◌+◌, ◌≡◌, ◌≢◌, refl, true, none, some, List, [], ◌∷◌, arith, sym, get_elem?,
  Option-cases, inl, inr,
}
use debian_config_files.Modeset.Kernel.{
  Encoder, Connector, Resources, Reply, done, fail, Log, Drm, enoent,
}
use debian_config_files.Modeset.Crtc.{
  test_bit, claim, scan_crtcs, try_current, scan_encoders, find_crtc,
}
use debian_config_files.Modeset.Crtc.Scan.{
  IsFree, Found, claim-some, claim-none, scan_crtcs-some, scan_crtcs-none,
}

module _ (drm : Drm) (used : List ℕ) where
  -- The CRTC stands among `crtcs`, is free, and one of the encoders can drive it.
  pub record Drives (crtcs encoders : List ℕ) (c : ℕ) : Type 0 where
    pub place : ℕ
    pub index : ℕ
    pub id : ℕ
    pub enc : Encoder
    pub has_id : get_elem? encoders place ≡ some id
    pub known : drm.get_encoder id ≡ some enc
    pub has_crtc : get_elem? crtcs index ≡ some c
    pub possible : test_bit enc.possible_crtcs index ≡ true
    pub free : IsFree used c

  -- A free CRTC that the connector is bound to, or that one of its encoders can drive.
  pub data Candidate (res : Resources) (conn : Connector) (c : ℕ) : Type 0 where
    current :
        (enc : Encoder)
        → conn.encoder_id ≢ 0
        → drm.get_encoder conn.encoder_id ≡ some enc
        → enc.crtc_id ≡ c
        → c ≢ 0
        → IsFree used c
        → Candidate res conn c
    listed : Drives res.crtcs conn.encoders c → Candidate res conn c

  pub Candidate-IsFree :
      {res : Resources} {conn : Connector} {c : ℕ} → Candidate res conn c → IsFree used c
  Candidate-IsFree (current enc bound k e ne free) = free
  Candidate-IsFree (listed d) = d.free

  Drives-cons :
      (crtcs encoders : List ℕ) (e c : ℕ) → Drives crtcs encoders c → Drives crtcs (e ∷ encoders) c
  Drives-cons crtcs encoders e c d = record {
    place = suc d.place;
    index = d.index;
    id = d.id;
    enc = d.enc;
    has_id = d.has_id;
    known = d.known;
    has_crtc = d.has_crtc;
    possible = d.possible;
    free = d.free;
  }

  Drives-head :
      (crtcs encoders : List ℕ) (e : ℕ) {c : ℕ} (enc : Encoder)
      → drm.get_encoder e ≡ some enc
      → Found used enc.possible_crtcs 0 crtcs c
      → Drives crtcs (e ∷ encoders) c
  Drives-head crtcs encoders e enc k (i, g, b, f) = record {
    place = 0;
    index = i;
    id = e;
    enc = enc;
    has_id = refl;
    known = k;
    has_crtc = g;
    possible = (let z : 0 + i ≡ i = omega arith in rw z at b);
    free = f;
  }

  -- A success is a CRTC with `P`; a failure is `ENOENT`, and no CRTC has `P`.
  abbrev pub Picks : (ℕ → Type 0) → Reply ℕ → Type 0
  Picks P (done c) = P c
  Picks P (fail e) = (e ≡ enoent) × ((c : ℕ) → ¬ P c)

  Picks-map :
      (P Q : ℕ → Type 0) (r : Reply ℕ)
      → ((c : ℕ) → P c → Q c)
      → ((c : ℕ) → Q c → P c)
      → Picks P r
      → Picks Q r
  Picks-map P Q (done c) f g p = f c p
  Picks-map P Q (fail e) f g p = (p.0, λ c q. p.1 c (g c q))

  not-Drives-nil : (crtcs : List ℕ) (c : ℕ) → ¬ Drives crtcs [] c
  not-Drives-nil crtcs c d = let h = d.has_id in cc

  -- An encoder that gives no CRTC can be left out.
  Drives-tail :
      (crtcs encoders : List ℕ) (e c : ℕ)
      → ((enc : Encoder)
          → drm.get_encoder e ≡ some enc
          → scan_crtcs used enc.possible_crtcs 0 crtcs ≡ none)
      → Drives crtcs (e ∷ encoders) c
      → Drives crtcs encoders c
  Drives-tail crtcs encoders e c dry d = go d.place d.has_id
    where
      go : (k : ℕ) → get_elem? (e ∷ encoders) k ≡ some d.id → Drives crtcs encoders c
      go zero h = absurd (
          scan_crtcs-none used d.enc.possible_crtcs 0 crtcs
            (dry d.enc (let k = d.known in ground arith)) d.index c d.has_crtc
            (let z : 0 + d.index ≡ d.index = omega arith in rw z d.possible) d.free)
      go (suc k) h = record {
        place = k;
        index = d.index;
        id = d.id;
        enc = d.enc;
        has_id = h;
        known = d.known;
        has_crtc = d.has_crtc;
        possible = d.possible;
        free = d.free;
      }

  scan_encoders-Drives :
      (crtcs encoders : List ℕ) (log : Log)
      → Picks (Drives crtcs encoders) (scan_encoders drm used crtcs encoders log).0
  unfolding scan_encoders
  scan_encoders-Drives crtcs [] log = (refl, not-Drives-nil crtcs)
  scan_encoders-Drives crtcs (e ∷ encoders) log = elim (Option-cases (drm.get_encoder e)) [
    | inl n ↦
        rw (n, scan_encoders)
          (Picks-map (Drives crtcs encoders) (Drives crtcs (e ∷ encoders)) _
            (Drives-cons crtcs encoders e) (λ c. Drives-tail crtcs encoders e c (λ enc k. cc))
            (scan_encoders-Drives crtcs encoders _))
    | inr (enc, k) ↦
        rw (k, scan_encoders)
          (elim (Option-cases (scan_crtcs used enc.possible_crtcs 0 crtcs)) [
            | inl n ↦
                rw (n, scan_encoders)
                  (Picks-map (Drives crtcs encoders) (Drives crtcs (e ∷ encoders)) _
                    (Drives-cons crtcs encoders e)
                    (λ c. Drives-tail crtcs encoders e c (λ enc' k'. ground arith))
                    (scan_encoders-Drives crtcs encoders _))
            | inr (c, s) ↦
                rw (s, scan_encoders)
                  (Drives-head crtcs encoders e enc k (scan_crtcs-some used _ 0 crtcs s))
          ])
  ]

  try_current-some :
      (res : Resources) (conn : Connector) (log : Log) {c : ℕ}
      → (try_current drm used conn log).0 ≡ some c
      → Candidate res conn c
  unfolding try_current
  try_current-some res conn log {c} h = elim (Option-cases (drm.get_encoder conn.encoder_id)) [
    | inl n ↦ absurd (ground arith)
    | inr (enc, k) ↦
        let q : (conn.encoder_id ≢ 0) × (enc.crtc_id ≢ 0) × (claim used enc.crtc_id ≡ some c) =
          ground arith in
        let (same, free) = claim-some used enc.crtc_id q.2 in
        current enc q.0 k (sym same) (rw same q.1) (rw same free)
  ]

  try_current-none :
      (res : Resources) (conn : Connector) (log : Log) (c : ℕ)
      → (try_current drm used conn log).0 ≡ none
      → Candidate res conn c
      → Drives res.crtcs conn.encoders c
  unfolding try_current
  try_current-none res conn log c h (listed d) = d
  try_current-none res conn log c h (current enc bound k e ne free) =
      absurd (claim-none used c (ground arith) free)

  -- `modeset_find_crtc` gives a free CRTC that the connector can use, and answers `ENOENT`, its
  -- only error, exactly where there is none.
  pub find_crtc-Candidate :
      (res : Resources) (conn : Connector) (log : Log)
      → Picks (Candidate res conn) (find_crtc drm used res conn log).0
  unfolding find_crtc
  find_crtc-Candidate res conn log = elim (Option-cases (try_current drm used conn log).0) [
    | inl n ↦
        rw (n, find_crtc)
          (Picks-map (Drives res.crtcs conn.encoders) (Candidate res conn) _ (λ c. listed)
            (λ c. try_current-none res conn log c n)
            (scan_encoders-Drives res.crtcs conn.encoders _))
    | inr (c, s) ↦ rw (s, find_crtc) (try_current-some res conn log s)
  ]
