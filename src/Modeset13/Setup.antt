-- ===== src/Modeset13/Setup.antt =====
-- `modeset_setup_dev` and `modeset_prepare` of perftools/X/drm-howto/modeset13.c, which take the
-- mode of each connector at `mode_index`. What they share with modeset.c is in Modeset.
pub mod Same
use debian_config_files.Base.{ℕ, Bool, true, false, Option, none, some, List, [], ◌∷◌, get_elem?}
use debian_config_files.Modeset.Kernel.{
  ModeInfo, Connector, Resources, done, fail, device, resources, connector, acquire, release,
  refuse, World, Drm, enoent, efault,
}
use debian_config_files.Modeset.Crtc.{Dev}
use debian_config_files.Modeset.Setup.{
  Status, ok, err, State, note, blank, setup_mode, finish_connector,
}

-- The integers, as `int` has them.
pub data ℤ : Type 0 where
  pos : ℕ → ℤ
  negsuc : ℕ → ℤ

-- `conn->modes[mode_index]`; `none` is a read outside the array.
unfoldable pub mode_at : ℤ → List ModeInfo → Option ModeInfo
mode_at (pos i) modes = get_elem? modes i
mode_at (negsuc i) modes = none

-- `none` is that read, in all that follows.
module _ (drm : Drm) (index : ℤ) where
  pub setup_dev : List Dev → Resources → Connector → Dev → World → Option (Status × Dev × World)
  setup_dev devs res c d w = elim c.connected [
    | false ↦ some (err enoent, d, w)
    | true ↦ elim c.modes [
      | [] ↦ some (err efault, d, w)
      | _ ∷ _ ↦ elim (mode_at index c.modes) [
        | none ↦ none
        | some m ↦ some (setup_mode drm devs res c m d w)
      ]
    ]
  ]

  -- The body of the loop of `modeset_prepare`.
  pub prepare_connector : Resources → ℕ → State → Option State
  prepare_connector res id s = elim (drm.get_connector id) [
    | none ↦ some (record s { world = note refuse s.world })
    | some c ↦
        let w = note (acquire (connector c.connector_id)) s.world in
        let self = drm.malloc w.log in
        elim (setup_dev s.devs res c (blank self c.connector_id) (note (acquire (device self)) w)) [
          | none ↦ none
          | some out ↦ some (finish_connector drm c self s.devs out)
        ]
  ]

  pub prepare_connectors : Resources → List ℕ → State → Option State
  prepare_connectors res [] s = some s
  prepare_connectors res (id ∷ ids) s = elim (prepare_connector res id s) [
    | none ↦ none
    | some s' ↦ prepare_connectors res ids s'
  ]

  pub prepare : State → Option (Status × State)
  prepare s = elim (drm.get_resources s.world.log) [
    | fail e ↦ some (err e, record s { world = note refuse s.world })
    | done res ↦
        elim (prepare_connectors res res.connectors
          (record s { world = note (acquire resources) s.world })) [
            | none ↦ none
            | some s' ↦ some (ok, record s' { world = note (release resources) s'.world })
          ]
  ]
