-- ===== src/Modeset/Crtc.antt =====
-- `struct modeset_dev`, and the choice of a CRTC: `modeset_find_crtc`.
pub mod Scan
pub mod Choice
pub mod Release
use debian_config_files.Base.{
  ℕ, ◌+◌, ◌/◌, ◌%◌, ◌^◌, Bool, true, false, Option, none, some, List, [], ◌∷◌, ltb, ◌==◌,
  if◌then◌else◌,
}
use debian_config_files.Modeset.Kernel.{
  ModeInfo, Encoder, Connector, Resources, SavedCrtc, Reply, done, fail, encoder, acquire, release,
  refuse, Log, Drm, enoent,
}

-- A device. The list link is the list's; `self` is the address that `malloc` gave.
pub record Dev : Type 0 where
  pub self : ℕ
  pub width : ℕ
  pub height : ℕ
  pub stride : ℕ
  pub size : ℕ
  pub handle : ℕ
  pub map : ℕ
  pub mode : ModeInfo
  pub fb : ℕ
  pub conn : ℕ
  pub crtc : ℕ
  pub saved : Option SavedCrtc

-- `mask & (1 << j)`.
pub test_bit : ℕ → ℕ → Bool
test_bit mask j = (mask / 2 ^ j) % 2 == 1

-- The CRTCs that the devices of a list drive.
abbrev pub crtcs_of : List Dev → List ℕ
crtcs_of [] = []
crtcs_of (d ∷ devs) = d.crtc ∷ crtcs_of devs

-- The loop over the device list, of which it reads the CRTCs: does a device drive this CRTC already?
pub in_use : List ℕ → ℕ → Bool
in_use [] crtc = false
in_use (d ∷ used) crtc = if d == crtc then true else in_use used crtc

-- The `int32_t crtc` after that loop, if it is not negative.
pub claim : List ℕ → ℕ → Option ℕ
claim used crtc = if in_use used crtc then none else if ltb crtc (2 ^ 31) then some crtc else none

-- The loop over `res->crtcs` from the index `j` on.
pub scan_crtcs : List ℕ → ℕ → ℕ → List ℕ → Option ℕ
scan_crtcs used possible j [] = none
scan_crtcs used possible j (c ∷ crtcs) =
    let rest = scan_crtcs used possible (j + 1) crtcs in
    if test_bit possible j
    then elim (claim used c) [ some crtc ↦ some crtc | none ↦ rest ]
    else rest

module _ (drm : Drm) where
  -- The encoder and CRTC that the connector is bound to.
  unfoldable pub try_current : List ℕ → Connector → Log → Option ℕ × Log
  try_current used c log =
      if c.encoder_id == 0 then (none, log) else elim (drm.get_encoder c.encoder_id) [
        | none ↦ (none, refuse ∷ log)
        | some enc ↦ (
          (if enc.crtc_id == 0 then none else claim used enc.crtc_id),
          release (encoder c.encoder_id) ∷ acquire (encoder c.encoder_id) ∷ log,
        )
      ]

  -- The loop over `conn->encoders`.
  unfoldable pub scan_encoders : List ℕ → List ℕ → List ℕ → Log → Reply ℕ × Log
  scan_encoders used crtcs [] log = (fail enoent, log)
  scan_encoders used crtcs (e ∷ encoders) log = elim (drm.get_encoder e) [
    | none ↦ scan_encoders used crtcs encoders (refuse ∷ log)
    | some enc ↦
        let log' = release (encoder e) ∷ acquire (encoder e) ∷ log in
        elim (scan_crtcs used enc.possible_crtcs 0 crtcs) [
          | some crtc ↦ (done crtc, log')
          | none ↦ scan_encoders used crtcs encoders log'
        ]
  ]

  -- `done crtc` is `dev->crtc = crtc; return 0`.
  unfoldable pub find_crtc : List ℕ → Resources → Connector → Log → Reply ℕ × Log
  find_crtc used res c log =
      let (found, log') = try_current used c log in
      elim found [
        | some crtc ↦ (done crtc, log')
        | none ↦ scan_encoders used res.crtcs c.encoders log'
      ]
