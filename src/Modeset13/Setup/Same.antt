-- ===== src/Modeset13/Setup/Same.antt =====
-- How the set-up of perftools/X/drm-howto/modeset13.c compares with that of modeset.c.
use debian_config_files.Base.{
  ℕ, ◌≡◌, ◌≢◌, refl, sym, ap, Bool, true, false, Option, none, some, List, [], ◌∷◌, inl, inr,
  Option-cases,
}
use debian_config_files.Modeset.Kernel.{
  ModeInfo, Connector, Resources, Log, World, Drm, Reply-cases,
}
use debian_config_files.Modeset.Crtc.{
  Dev, crtcs_of, find_crtc, try_current, scan_encoders, scan_crtcs,
}
use debian_config_files.Modeset.Setup.{
  State, map_fb, create_fb, setup_mode, setup_dev, finish_connector, prepare_connector,
  prepare_connectors, prepare,
}
use debian_config_files.Modeset13.Setup as M
use debian_config_files.Modeset13.Setup.{ℤ, mode_at}

-- The connector with the mode at the index put first.
abbrev pub first_modes : Option ModeInfo → List ModeInfo → List ModeInfo
first_modes picked [] = []
first_modes none (m ∷ modes) = m ∷ modes
first_modes (some m) (m₀ ∷ modes) = m ∷ m₀ ∷ modes

abbrev pub picked : ℤ → Connector → Connector
picked index c = record c { modes = first_modes (mode_at index c.modes) c.modes }

abbrev pub picked? : ℤ → Option Connector → Option Connector
picked? index none = none
picked? index (some c) = some (picked index c)

-- The card on which all connectors are like that.
abbrev pub picking : ℤ → Drm → Drm
picking index drm = record drm { get_connector = λ id. picked? index (drm.get_connector id) }

-- The index is in the array of modes, where there are any.
abbrev pub HasMode : ℤ → Connector → Type 0
HasMode index c = c.modes ≢ [] → (m : ModeInfo) × (mode_at index c.modes ≡ some m)

module _ (drm : Drm) (index : ℤ) where
  scan_encoders-picking :
      (used crtcs encoders : List ℕ) (log : Log)
      → scan_encoders (picking index drm) used crtcs encoders log
        ≡ scan_encoders drm used crtcs encoders log
  unfolding scan_encoders
  scan_encoders-picking used crtcs [] log = refl
  scan_encoders-picking used crtcs (e ∷ encoders) log = elim (Option-cases (drm.get_encoder e)) [
    | inl n ↦ rw (n, scan_encoders) (scan_encoders-picking used crtcs encoders _)
    | inr (enc, k) ↦ elim (Option-cases (scan_crtcs used enc.possible_crtcs 0 crtcs)) [
      | inl n ↦ rw (k, scan_encoders, n) (scan_encoders-picking used crtcs encoders _)
      | inr (crtc, q) ↦ rw (k, scan_encoders, q) refl
    ]
  ]

  find_crtc-picking :
      (used : List ℕ) (res : Resources) (c : Connector) (log : Log)
      → find_crtc (picking index drm) used res (picked index c) log ≡ find_crtc drm used res c log
  unfolding find_crtc try_current
  find_crtc-picking used res c log = elim (Option-cases (try_current drm used c log).0) [
    | inl n ↦ rw (n, find_crtc) (scan_encoders-picking used res.crtcs c.encoders _)
    | inr (crtc, k) ↦ rw (k, find_crtc) refl
  ]

  create_fb-picking : (d : Dev) (w : World) → create_fb (picking index drm) d w ≡ create_fb drm d w
  unfolding create_fb map_fb
  create_fb-picking d w = refl

  setup_mode-picking :
      (devs : List Dev) (res : Resources) (c : Connector) (m : ModeInfo) (d : Dev) (w : World)
      → setup_mode (picking index drm) devs res (picked index c) m d w
        ≡ setup_mode drm devs res c m d w
  unfolding setup_mode find_crtc try_current scan_encoders create_fb map_fb
  setup_mode-picking devs res c m d w =
      rw (find_crtc-picking (crtcs_of devs) res c w.log, setup_mode) refl

  setup_dev-picking :
      (devs : List Dev) (res : Resources) (c : Connector) (d : Dev) (w : World)
      → HasMode index c
      → M.setup_dev drm index devs res c d w
        ≡ some (setup_dev (picking index drm) devs res (picked index c) d w)
  unfolding setup_dev M.setup_dev
  setup_dev-picking devs res c d w h = go c.connected c.modes refl refl
    where
      go :
          (b : Bool) (ms : List ModeInfo)
          → c.connected ≡ b
          → c.modes ≡ ms
          → M.setup_dev drm index devs res c d w
            ≡ some (setup_dev (picking index drm) devs res (picked index c) d w)
      go false ms p q = rw (p, setup_dev, M.setup_dev) refl
      go true [] p q = rw (p, q, setup_dev, M.setup_dev) refl
      go true (m ∷ ms) p q =
          let (m', k) = h (λ e. cc) in
          rw (p, q, setup_dev, M.setup_dev, k)
            (ap some (sym (setup_mode-picking devs res c m' d w)))

  -- Every connected connector has the mode.
  abbrev pub AllHaveMode : Type 0
  AllHaveMode = (id : ℕ) (c : Connector) → drm.get_connector id ≡ some c → HasMode index c

  module _ (all : AllHaveMode) where
    prepare_connector-picking :
        (res : Resources) (id : ℕ) (s : State)
        → M.prepare_connector drm index res id s
          ≡ some (prepare_connector (picking index drm) res id s)
    unfolding prepare_connector M.prepare_connector finish_connector
    prepare_connector-picking res id s = elim (Option-cases (drm.get_connector id)) [
      | inl n ↦ rw (n, prepare_connector, M.prepare_connector) refl
      | inr (c, k) ↦
          rw
            (
              k,
              prepare_connector,
              M.prepare_connector,
              setup_dev-picking s.devs res c _ _ (all id c k),
            )
            refl
    ]

    prepare_connectors-picking :
        (res : Resources) (ids : List ℕ) (s : State)
        → M.prepare_connectors drm index res ids s
          ≡ some (prepare_connectors (picking index drm) res ids s)
    unfolding prepare_connectors M.prepare_connectors
    prepare_connectors-picking res [] s = refl
    prepare_connectors-picking res (id ∷ ids) s =
        rw (prepare_connector-picking res id s, M.prepare_connectors)
          (prepare_connectors-picking res ids _)

    -- If the index is in the array of modes of each connector that has modes, `modeset_prepare` of
    -- modeset13.c reads nothing outside them and does what that of modeset.c does on the card whose
    -- connectors have that mode first.
    pub prepare-Same : (s : State) → M.prepare drm index s ≡ some (prepare (picking index drm) s)
    unfolding prepare M.prepare
    prepare-Same s = elim (Reply-cases (drm.get_resources s.world.log)) [
      | inl (res, k) ↦
          rw (k, prepare, M.prepare, prepare_connectors-picking res res.connectors _) refl
      | inr (e, k) ↦ rw (k, prepare, M.prepare) refl
    ]
