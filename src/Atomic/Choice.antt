-- ===== src/Atomic/Choice.antt =====
-- `modeset_find_crtc` and `modeset_find_plane` of perftools/X/drm-howto/modeset-atomic.c.
pub mod Balance
pub mod Plane
use debian_config_files.Base.{
  ℕ, ◌+◌, Bool, true, false, Option, none, some, List, [], ◌∷◌, ◌==◌, if◌then◌else◌,
}
use debian_config_files.Modeset.Kernel.{
  Connector, Resources, encoder, plane, plane_list, properties, enoent,
}
use debian_config_files.Modeset.Crtc.{test_bit, in_use}
use debian_config_files.Modeset.Setup.{Status, ok, err}
use debian_config_files.Atomic.Program.{
  plane_type, Card, Program, pure, fault, ◌>>=◌, ◌>>◌, look, give, fetch, einval,
}
use debian_config_files.Atomic.Objects.{get_property_value}

-- What the two functions write into an output: `crtc.id`, `crtc_index` and `plane.id`.
pub record Route : Type 0 where
  pub crtc : ℕ
  pub crtc_index : ℕ
  pub plane : ℕ

-- The loop over the outputs, of which it reads the CRTCs: `crtc` after it.
abbrev pub claim : List ℕ → ℕ → ℕ
claim used crtc = if in_use used crtc then 0 else crtc

-- The loop over `res->crtcs` from the index `j` on: the CRTC and its index.
pub scan_crtcs : List ℕ → ℕ → ℕ → List ℕ → Option (ℕ × ℕ)
scan_crtcs used possible j [] = none
scan_crtcs used possible j (c ∷ crtcs) =
    let rest = scan_crtcs used possible (j + 1) crtcs in
    if test_bit possible j then if claim used c == 0 then rest else some (claim used c, j) else rest

-- What follows that loop: the return, or the next encoder.
pub take_crtc : Option (ℕ × ℕ) → Route → Program (Status × Route) → Program (Status × Route)
take_crtc (some (crtc, j)) route next = pure (ok, record route { crtc = crtc; crtc_index = j })
take_crtc none route next = next

-- What follows the loop over the planes.
pub take_plane : Route → Option ℕ → Status × Route
take_plane route none = (err einval, route)
take_plane route (some id) = (ok, record route { plane = id })

module _ (card : Card) where
  -- The encoder that the connector is bound to: the CRTC, or 0.
  pub try_current : List ℕ → Connector → Program ℕ
  try_current used c =
      if c.encoder_id == 0
      then pure 0
      else fetch (λ _. encoder c.encoder_id) (card.drm.get_encoder c.encoder_id) >>= λ answer.
          elim answer [
            | none ↦ pure 0
            | some enc ↦ do
              give (encoder c.encoder_id)
              pure (if enc.crtc_id == 0 then 0 else claim used enc.crtc_id)
          ]

  -- The loop over `conn->encoders`.
  pub scan_encoders : List ℕ → List ℕ → List ℕ → Route → Program (Status × Route)
  scan_encoders used crtcs [] route = pure (err enoent, route)
  scan_encoders used crtcs (e ∷ encoders) route =
      fetch (λ _. encoder e) (card.drm.get_encoder e) >>= λ answer. elim answer [
        | none ↦ scan_encoders used crtcs encoders route
        | some enc ↦
            give (encoder e)
            >> take_crtc (scan_crtcs used enc.possible_crtcs 0 crtcs) route
                (scan_encoders used crtcs encoders route)
      ]

  pub find_crtc : List ℕ → Resources → Connector → Route → Program (Status × Route)
  find_crtc used res c route = try_current used c >>= λ crtc.
      if crtc == 0
      then scan_encoders used res.crtcs c.encoders route
      else pure (ok, record route { crtc = crtc })

  -- Is the plane's "type" that of a primary plane?
  pub is_primary : ℕ → Program Bool
  is_primary id = fetch (λ _. properties id) (card.object_properties plane_type id) >>= λ answer.
      elim answer [
        | none ↦ fault
        | some props ↦ do
          value ← get_property_value card "type" props
          give (properties id)
          pure (value == card.primary_plane)
      ]

  -- The body of the loop over the planes, for one that the CRTC with this index can use.
  pub try_plane : ℕ → ℕ → Program Bool
  try_plane crtc_index id = fetch (λ _. plane id) (card.get_plane id) >>= λ answer. elim answer [
    | none ↦ pure false
    | some p ↦
        if test_bit p.possible_crtcs crtc_index
        then (do primary ← is_primary id; give (plane id); pure primary)
        else (give (plane id) >> pure false)
  ]

  -- The loop over the planes, which stops at the first that is primary.
  pub scan_planes : ℕ → List ℕ → Program (Option ℕ)
  scan_planes crtc_index [] = pure none
  scan_planes crtc_index (id ∷ planes) = try_plane crtc_index id >>= λ primary.
      if primary then pure (some id) else scan_planes crtc_index planes

  -- `modeset_find_plane` from the answer of `drmModeGetPlaneResources` on.
  pub find_among : Route → Option (List ℕ) → Program (Status × Route)
  find_among route planes = fetch (λ _. plane_list) planes >>= λ answer. elim answer [
    | none ↦ pure (err enoent, route)
    | some ids ↦ do
      primary ← scan_planes route.crtc_index ids
      give plane_list
      pure (take_plane route primary)
  ]

  pub find_plane : Route → Program (Status × Route)
  find_plane route = look card.get_planes >>= find_among route
