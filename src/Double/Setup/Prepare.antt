-- ===== src/Double/Setup/Prepare.antt =====
-- `modeset_prepare` of perftools/X/drm-howto/modeset-double-buffered.c gives back what it does not
-- hand on.
use debian_config_files.Base.{
  ℕ, ◌≡◌, refl, Bool, true, false, List, [], ◌∷◌, arith, ap, inl, inr, Option-cases,
}
use debian_config_files.Modeset.Kernel.{
  ModeInfo, Connector, Resources, Resource, resources, connector, device, World, Drm, Log, acquire,
  Reply-cases,
}
use debian_config_files.Modeset.Kernel.Balance.{same, Gains}
use debian_config_files.Modeset.Crtc.{find_crtc}
use debian_config_files.Modeset.Setup.{Status, ok, err, note}
use debian_config_files.Modeset.Draw.{Buf}
use debian_config_files.Double.Setup.{
  Dev, State, crtcs_of, second_fb, both_fbs, create_fb, setup_mode, setup_dev, finish_connector,
  prepare_connector, prepare_connectors, prepare,
}
use debian_config_files.Double.Setup.Balance.{held, held_by, Status-cases, setup_dev-Gains}

module _ (drm : Drm) where
  self-second_fb : (d : Dev) (b0 : Buf) (w : World) → (second_fb drm d b0 w).1.self ≡ d.self
  unfolding second_fb
  self-second_fb d b0 w = elim (Status-cases (create_fb drm d.buf1 w).0) [
    | inl e ↦ rw (e, second_fb) refl
    | inr (x, e) ↦ rw (e, second_fb) refl
  ]

  self-both_fbs : (d : Dev) (w : World) → (both_fbs drm d w).1.self ≡ d.self
  unfolding both_fbs
  self-both_fbs d w = elim (Status-cases (create_fb drm d.buf0 w).0) [
    | inl e ↦ rw (e, both_fbs) (self-second_fb d _ _)
    | inr (x, e) ↦ rw (e, both_fbs) refl
  ]

  self-setup_mode :
      (devs : List Dev) (res : Resources) (c : Connector) (m : ModeInfo) (d : Dev) (w : World)
      → (setup_mode drm devs res c m d w).1.self ≡ d.self
  unfolding setup_mode
  self-setup_mode devs res c m d w =
      elim (Reply-cases (find_crtc drm (crtcs_of devs) res c w.log).0) [
        | inl (crtc, s) ↦ rw (s, setup_mode) (self-both_fbs _ _)
        | inr (e, s) ↦ rw (s, setup_mode) refl
      ]

  -- `modeset_setup_dev` does not move the structure that it fills in.
  self-setup_dev :
      (devs : List Dev) (res : Resources) (c : Connector) (d : Dev) (w : World)
      → (setup_dev drm devs res c d w).1.self ≡ d.self
  unfolding setup_dev
  self-setup_dev devs res c d w = go c.connected c.modes refl refl
    where
      go :
          (b : Bool) (ms : List ModeInfo)
          → c.connected ≡ b
          → c.modes ≡ ms
          → (setup_dev drm devs res c d w).1.self ≡ d.self
      go false ms p q = rw (p, setup_dev) refl
      go true [] p q = rw (p, q, setup_dev) refl
      go true (m ∷ ms) p q = rw (p, q, setup_dev) (self-setup_mode devs res c m d w)

module _ (drm : Drm) (r : Resource) where
  -- A state holds what its devices hold, counted from the log `l` on.
  abbrev pub Owes : Log → State → Type 0
  Owes l s = Gains r l s.world.log (held r s.devs)

  finish_connector-Owes :
      (c : Connector) (self : ℕ) (s : State) (out : Status × Dev × World) (l : Log)
      → Gains r
          (acquire (device self) ∷ acquire (connector c.connector_id) ∷ s.world.log)
          out.2.log
          (held_by r out)
      → out.1.self ≡ self
      → Owes l s
      → Owes l (finish_connector drm c self s.devs out)
  unfolding finish_connector
  finish_connector-Owes c self s (ok, d, w) l g e h = omega (arith, ap (λ p. same r (device p)) e)
  finish_connector-Owes c self s (err e, d, w) l g _ h = omega arith

  prepare_connector-Owes :
      (res : Resources) (id : ℕ) (s : State) (l : Log)
      → Owes l s
      → Owes l (prepare_connector drm res id s)
  unfolding prepare_connector
  prepare_connector-Owes res id s l h = elim (Option-cases (drm.get_connector id)) [
    | inl n ↦ rw (n, prepare_connector) (omega arith)
    | inr (c, k) ↦
        rw (k, prepare_connector)
          (finish_connector-Owes c _ s _ l (setup_dev-Gains drm r s.devs res c _ _)
            (self-setup_dev drm s.devs res c _ _) h)
  ]

  prepare_connectors-Owes :
      (res : Resources) (ids : List ℕ) (s : State) (l : Log)
      → Owes l s
      → Owes l (prepare_connectors drm res ids s)
  unfolding prepare_connectors
  prepare_connectors-Owes res [] s l h = h
  prepare_connectors-Owes res (id ∷ ids) s l h =
      prepare_connectors-Owes res ids _ l (prepare_connector-Owes res id s l h)

  -- `modeset_prepare` holds what the linked devices hold and nothing else.
  pub prepare-held : (s : State) (l : Log) → Owes l s → Owes l (prepare drm s).1
  unfolding prepare
  prepare-held s l h = elim (Reply-cases (drm.get_resources s.world.log)) [
    | inl (res, k) ↦
        rw (k, prepare)
          (let start : State = record s { world = note (acquire resources) s.world } in
            let before : Owes (acquire resources ∷ l) start = omega arith in
            let after =
              prepare_connectors-Owes res res.connectors start (acquire resources ∷ l) before in
            omega arith)
    | inr (e, k) ↦ rw (k, prepare) (omega arith)
  ]

pub devs-prepare_err :
    (drm : Drm) (s : State) {e : ℕ} → (prepare drm s).0 ≡ err e → (prepare drm s).1.devs ≡ s.devs
unfolding prepare
devs-prepare_err drm s {e} k = elim (Reply-cases (drm.get_resources s.world.log)) [
  | inl (res, q) ↦ absurd (ground arith)
  | inr (x, q) ↦ rw (q, prepare) refl
]
