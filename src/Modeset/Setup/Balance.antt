-- ===== src/Modeset/Setup/Balance.antt =====
-- What `modeset_prepare` of perftools/X/drm-howto/modeset.c holds when it returns.
use debian_config_files.Base.{
  ℕ, ◌+◌, ◌≡◌, refl, Bool, true, false, List, [], ◌∷◌, arith, ap, inl, inr, Option-cases,
}
use debian_config_files.Modeset.Kernel.{
  ModeInfo, Connector, Resources, Resource, resources, connector, device, World, Drm, Log, acquire,
  Reply-cases,
}
use debian_config_files.Modeset.Kernel.Balance.{same, Gains}
use debian_config_files.Modeset.Crtc.{Dev, crtcs_of, find_crtc}
use debian_config_files.Modeset.Crtc.Release.{find_crtc-Gains}
use debian_config_files.Modeset.Setup.{
  Status, ok, err, State, note, blank, setup_mode, setup_dev, finish_connector, prepare_connector,
  prepare_connectors, prepare,
}
use debian_config_files.Modeset.Setup.Devices.{Fits, setup_dev-Fits}
use debian_config_files.Modeset.Setup.Framebuffer.{chosen, buffers, held_by, create_fb-Gains}

-- How many times the devices hold `r`.
abbrev pub held : Resource → List Dev → ℕ
held r [] = 0
held r (d ∷ devs) = same r (device d.self) + buffers r d + held r devs

module _ (drm : Drm) (r : Resource) where
  setup_mode-Gains :
      (devs : List Dev) (res : Resources) (c : Connector) (m : ModeInfo) (d : Dev) (w : World)
      → Gains r w.log
          (setup_mode drm devs res c m d w).2.log
          (held_by r (setup_mode drm devs res c m d w))
  unfolding setup_mode
  setup_mode-Gains devs res c m d w =
      elim (Reply-cases (find_crtc drm (crtcs_of devs) res c w.log).0) [
        | inl (crtc, s) ↦ ground (
          arith,
          find_crtc-Gains r drm (crtcs_of devs) res c w.log,
          create_fb-Gains drm r (chosen m crtc d)
              (record w { log = (find_crtc drm (crtcs_of devs) res c w.log).1 }),
        )
        | inr (e, s) ↦ ground (arith, find_crtc-Gains r drm (crtcs_of devs) res c w.log)
      ]

  setup_dev-Gains :
      (devs : List Dev) (res : Resources) (c : Connector) (d : Dev) (w : World)
      → Gains r w.log
          (setup_dev drm devs res c d w).2.log
          (held_by r (setup_dev drm devs res c d w))
  unfolding setup_dev
  setup_dev-Gains devs res c d w = go c.connected c.modes refl refl
    where
      go :
          (b : Bool) (ms : List ModeInfo)
          → c.connected ≡ b
          → c.modes ≡ ms
          → Gains r w.log
              (setup_dev drm devs res c d w).2.log
              (held_by r (setup_dev drm devs res c d w))
      go false ms p q = rw (p, setup_dev) (omega arith)
      go true [] p q = rw (p, q, setup_dev) (omega arith)
      go true (m ∷ ms) p q = rw (p, q, setup_dev) (setup_mode-Gains devs res c m d w)

  -- A state holds what its devices hold, counted from the log `l` on.
  abbrev pub Owes : Log → State → Type 0
  Owes l s = Gains r l s.world.log (held r s.devs)

  -- `modeset_setup_dev` does not move the structure that it fills in.
  abbrev Stays : ℕ → Status × Dev × World → Type 0
  Stays self (ok, d, w) = d.self ≡ self
  Stays self (err e, d, w) = Unit

  finish_connector-Owes :
      (c : Connector) (self : ℕ) (s : State) (out : Status × Dev × World) (l : Log)
      → Gains r
          (acquire (device self) ∷ acquire (connector c.connector_id) ∷ s.world.log)
          out.2.log
          (held_by r out)
      → Stays self out
      → Owes l s
      → Owes l (finish_connector drm c self s.devs out)
  unfolding finish_connector
  finish_connector-Owes c self s (ok, d, w) l g e h = omega (arith, ap (λ p. same r (device p)) e)
  finish_connector-Owes c self s (err e, d, w) l g _ h = omega arith

  setup_dev-Stays :
      (devs : List Dev) (res : Resources) (c : Connector) (self : ℕ) (w : World)
      → Stays self (setup_dev drm devs res c (blank self c.connector_id) w)
  setup_dev-Stays devs res c self w =
      go _ (setup_dev-Fits drm devs res c (blank self c.connector_id) w)
    where
      go :
          (out : Status × Dev × World)
          → Fits drm devs res c (blank self c.connector_id) out
          → Stays self out
      go (ok, d, w) f = f.2
      go (err e, d, w) f = tt

  prepare_connector-Owes :
      (res : Resources) (id : ℕ) (s : State) (l : Log)
      → Owes l s
      → Owes l (prepare_connector drm res id s)
  unfolding prepare_connector
  prepare_connector-Owes res id s l h = elim (Option-cases (drm.get_connector id)) [
    | inl n ↦ rw (n, prepare_connector) (omega arith)
    | inr (c, k) ↦
        rw (k, prepare_connector)
          (finish_connector-Owes c _ s _ l (setup_dev-Gains s.devs res c _ _)
            (setup_dev-Stays s.devs res c _ _) h)
  ]

  prepare_connectors-Owes :
      (res : Resources) (ids : List ℕ) (s : State) (l : Log)
      → Owes l s
      → Owes l (prepare_connectors drm res ids s)
  unfolding prepare_connectors
  prepare_connectors-Owes res [] s l h = h
  prepare_connectors-Owes res (id ∷ ids) s l h =
      prepare_connectors-Owes res ids _ l (prepare_connector-Owes res id s l h)

  -- `modeset_prepare` holds what the linked devices hold and nothing else: what it got for a
  -- connector that it passed over it has given back.
  pub prepare-Owes : (s : State) (l : Log) → Owes l s → Owes l (prepare drm s).1
  unfolding prepare
  prepare-Owes s l h = elim (Reply-cases (drm.get_resources s.world.log)) [
    | inl (res, k) ↦
        rw (k, prepare)
          (let start : State = record s { world = note (acquire resources) s.world } in
            let before : Owes (acquire resources ∷ l) start = omega arith in
            let after =
              prepare_connectors-Owes res res.connectors start (acquire resources ∷ l) before in
            omega arith)
    | inr (e, k) ↦ rw (k, prepare) (omega arith)
  ]

pub devs-prepare_err :
    (drm : Drm) (s : State) {e : ℕ} → (prepare drm s).0 ≡ err e → (prepare drm s).1.devs ≡ s.devs
unfolding prepare
devs-prepare_err drm s h = ground arith
