-- ===== src/Modeset/Setup/Devices.antt =====
-- The device list that `modeset_prepare` of perftools/X/drm-howto/modeset.c builds.
use debian_config_files.Base.{
  ℕ, ◌≡◌, ◌≢◌, refl, Bool, true, false, some, List, [], ◌∷◌, All, inl, inr, ◌∙◌, Option-cases,
}
use debian_config_files.Modeset.Kernel.{
  ModeInfo, Connector, Resources, done, resources, World, Drm, acquire, Reply-cases,
}
use debian_config_files.Modeset.Crtc.{Dev, crtcs_of, find_crtc}
use debian_config_files.Modeset.Crtc.Choice.{Candidate, Candidate-IsFree, find_crtc-Candidate}
use debian_config_files.Modeset.Setup.{
  Status, ok, err, State, note, blank, setup_mode, setup_dev, finish_connector, prepare_connector,
  prepare_connectors, prepare,
}
use debian_config_files.Modeset.Setup.Framebuffer.{chosen, IsMapped, create_fb-IsMapped}

-- No two devices drive one CRTC.
abbrev pub Distinct : List Dev → Type 0
Distinct [] = Unit
Distinct (d ∷ devs) = All (λ c. c ≢ d.crtc) (crtcs_of devs) × Distinct devs

module _ (drm : Drm) where
  -- A device that was set up drives a CRTC that was free and that its connector can use.
  abbrev pub Fits : List Dev → Resources → Connector → Dev → Status × Dev × World → Type 0
  Fits devs res c d (ok, d', w) =
      (c.connected ≡ true)
      × Candidate drm (crtcs_of devs) res c d'.crtc
      × (d'.self ≡ d.self)
      × (d'.conn ≡ d.conn)
  Fits devs res c d (err e, d', w) = Unit

  create_fb-Fits :
      (devs : List Dev) (res : Resources) (c : Connector) (d d₀ : Dev) (w : World)
      (out : Status × Dev × World)
      → IsMapped d₀ w out
      → c.connected ≡ true
      → Candidate drm (crtcs_of devs) res c d₀.crtc
      → d₀.self ≡ d.self
      → d₀.conn ≡ d.conn
      → Fits devs res c d out
  create_fb-Fits devs res c d d₀ w (ok, d', w') v on f p q =
      (on, (rw v.crtc f), (v.self ∙ p), (v.conn ∙ q))
  create_fb-Fits devs res c d d₀ w (err e, d', w') v on f p q = tt

  setup_mode-Fits :
      (devs : List Dev) (res : Resources) (c : Connector) (m : ModeInfo) (d : Dev) (w : World)
      → c.connected ≡ true
      → Fits devs res c d (setup_mode drm devs res c m d w)
  unfolding setup_mode
  setup_mode-Fits devs res c m d w on =
      elim (Reply-cases (find_crtc drm (crtcs_of devs) res c w.log).0) [
        | inl (crtc, s) ↦
            rw (s, setup_mode)
              (let w' : World = record w { log = (find_crtc drm (crtcs_of devs) res c w.log).1 } in
                create_fb-Fits devs res c d (chosen m crtc d) w' _
                  (create_fb-IsMapped drm (chosen m crtc d) w') on
                  (rw s at (find_crtc-Candidate drm (crtcs_of devs) res c w.log)) refl refl)
        | inr (e, s) ↦ rw (s, setup_mode) tt
      ]

  pub setup_dev-Fits :
      (devs : List Dev) (res : Resources) (c : Connector) (d : Dev) (w : World)
      → Fits devs res c d (setup_dev drm devs res c d w)
  unfolding setup_dev
  setup_dev-Fits devs res c d w = go c.connected c.modes refl refl
    where
      go :
          (b : Bool) (ms : List ModeInfo)
          → c.connected ≡ b
          → c.modes ≡ ms
          → Fits devs res c d (setup_dev drm devs res c d w)
      go false ms p q = rw (p, setup_dev) tt
      go true [] p q = rw (p, q, setup_dev) tt
      go true (m ∷ ms) p q = simp (p, q, setup_dev) (setup_mode-Fits devs res c m d w p)

  -- A device of the list, over the devices that were linked before it.
  pub record IsPlaced (res : Resources) (devs : List Dev) (d : Dev) : Type 0 where
    pub id : ℕ
    pub connector : Connector
    pub known : drm.get_connector id ≡ some connector
    pub connected : connector.connected ≡ true
    pub conn : d.conn ≡ connector.connector_id
    pub drives : Candidate drm (crtcs_of devs) res connector d.crtc

  abbrev pub AllPlaced : Resources → List Dev → Type 0
  AllPlaced res [] = Unit
  AllPlaced res (d ∷ devs) = IsPlaced res devs d × AllPlaced res devs

  pub AllPlaced-Distinct : (res : Resources) (devs : List Dev) → AllPlaced res devs → Distinct devs
  AllPlaced-Distinct res [] h = tt
  AllPlaced-Distinct res (d ∷ devs) (p, h) =
      ((Candidate-IsFree drm (crtcs_of devs) p.drives).unused, AllPlaced-Distinct res devs h)

  finish_connector-AllPlaced :
      (res : Resources) (id : ℕ) (c : Connector) (self : ℕ) (devs : List Dev)
      (out : Status × Dev × World)
      → drm.get_connector id ≡ some c
      → Fits devs res c (blank self c.connector_id) out
      → AllPlaced res devs
      → AllPlaced res (finish_connector drm c self devs out).devs
  unfolding finish_connector
  finish_connector-AllPlaced res id c self devs (ok, d, w) k f h =
      (record { id = id; connector = c; known = k; connected = f.0; conn = f.3; drives = f.1 }, h)
  finish_connector-AllPlaced res id c self devs (err e, d, w) k f h = h

  prepare_connector-AllPlaced :
      (res : Resources) (id : ℕ) (s : State)
      → AllPlaced res s.devs
      → AllPlaced res (prepare_connector drm res id s).devs
  unfolding prepare_connector
  prepare_connector-AllPlaced res id s h = elim (Option-cases (drm.get_connector id)) [
    | inl n ↦ rw (n, prepare_connector) h
    | inr (c, k) ↦
        rw (k, prepare_connector)
          (finish_connector-AllPlaced res id c _ s.devs _ k (setup_dev-Fits s.devs res c _ _) h)
  ]

  prepare_connectors-AllPlaced :
      (res : Resources) (ids : List ℕ) (s : State)
      → AllPlaced res s.devs
      → AllPlaced res (prepare_connectors drm res ids s).devs
  unfolding prepare_connectors
  prepare_connectors-AllPlaced res [] s h = h
  prepare_connectors-AllPlaced res (id ∷ ids) s h =
      prepare_connectors-AllPlaced res ids _ (prepare_connector-AllPlaced res id s h)

  -- Every device that `modeset_prepare` links belongs to a connected connector, and drives a CRTC
  -- that this connector can use and that no device linked before it drives.
  pub prepare-AllPlaced :
      (s : State) (res : Resources)
      → drm.get_resources s.world.log ≡ done res
      → s.devs ≡ []
      → AllPlaced res (prepare drm s).1.devs × Distinct (prepare drm s).1.devs
  unfolding prepare
  prepare-AllPlaced s res k e =
      rw (k, prepare)
        (let h =
            prepare_connectors-AllPlaced res res.connectors
              (record s { world = note (acquire resources) s.world }) (rw e tt) in
          (h, AllPlaced-Distinct res _ h))
