-- ===== src/Modeset/Crtc/Release.antt =====
-- `modeset_find_crtc` of perftools/X/drm-howto/modeset.c frees each encoder that it gets.
use debian_config_files.Base.{ℕ, List, [], ◌∷◌, arith}
use debian_config_files.Modeset.Kernel.{
  Connector, Resources, Resource, encoder, Log, Drm, acquire, release, refuse,
}
use debian_config_files.Modeset.Kernel.Balance.{Gains}
use debian_config_files.Modeset.Crtc.{try_current, scan_encoders, find_crtc}

module _ (r : Resource) (drm : Drm) (used : List ℕ) where
  try_current-Gains : (c : Connector) (log : Log) → Gains r log (try_current drm used c log).1 0
  unfolding try_current
  try_current-Gains c log = ground arith

  scan_encoders-Gains :
      (crtcs encoders : List ℕ) (log : Log)
      → Gains r log (scan_encoders drm used crtcs encoders log).1 0
  unfolding scan_encoders
  scan_encoders-Gains crtcs [] log = omega arith
  scan_encoders-Gains crtcs (e ∷ encoders) log = ground (
    arith,
    scan_encoders-Gains crtcs encoders (refuse ∷ log),
    scan_encoders-Gains crtcs encoders (release (encoder e) ∷ acquire (encoder e) ∷ log),
  )

  pub find_crtc-Gains :
      (res : Resources) (c : Connector) (log : Log) → Gains r log (find_crtc drm used res c log).1 0
  unfolding find_crtc
  find_crtc-Gains res c log = ground (
    arith,
    try_current-Gains c log,
    scan_encoders-Gains res.crtcs c.encoders (try_current drm used c log).1,
  )
