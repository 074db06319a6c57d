-- ===== src/Modeset/Setup.antt =====
-- `modeset_open`, `modeset_create_fb`, `modeset_setup_dev` and `modeset_prepare` of
-- perftools/X/drm-howto/modeset.c. A return value of 0 is `ok`, and -e is `err e`: no call fails
-- with an `errno` of 0. What a failed call prints on stderr is left out.
pub mod Framebuffer
pub mod Devices
pub mod Balance
use Prim.Native.String.{String}
use debian_config_files.Base.{
  ℕ, ◌%◌, ◌^◌, Bool, true, false, Option, none, some, List, [], ◌∷◌, ◌==◌, if◌then◌else◌,
}
use debian_config_files.Modeset.Kernel.{
  ModeInfo, Connector, Resources, Reply, done, fail, Resource, descriptor, resources, connector,
  device, dumb_buffer, framebuffer, mapping, Event, acquire, release, refuse, Log, World, Drm,
  clear, enoent, efault, eopnotsupp,
}
use debian_config_files.Modeset.Crtc.{Dev, crtcs_of, find_crtc}

pub data Status : Type 0 where
  ok : Status
  err : ℕ → Status

-- The whole of the program's variables that outlive a call: `modeset_list`, and the world.
pub record State : Type 0 where
  pub devs : List Dev
  pub world : World

abbrev pub note : Event → World → World
note e w = record w { log = e ∷ w.log }

-- `memset(dev, 0, sizeof(*dev))` and `dev->conn = …`.
abbrev pub blank : ℕ → ℕ → Dev
blank self conn = record {
  self = self;
  width = 0;
  height = 0;
  stride = 0;
  size = 0;
  handle = 0;
  map = 0;
  mode = record { hdisplay = 0; vdisplay = 0; timings = 0 };
  fb = 0;
  conn = conn;
  crtc = 0;
  saved = none;
}

-- The label `err_destroy`, and `err_fb` before it. What these calls return is not read.
unfoldable pub destroy_dumb : Dev → World → World
destroy_dumb d = note (release (dumb_buffer d.handle))

unfoldable pub remove_fb : Dev → World → World
remove_fb d = note (release (framebuffer d.fb))

module _ (drm : Drm) where
  -- `done fd` is `*out = fd; return 0`.
  unfoldable pub open_card : String → World → Reply ℕ × World
  open_card node w = elim (drm.open_node w.log node) [
    | fail e ↦ (fail e, note refuse w)
    | done fd ↦
        let w' = note (acquire (descriptor fd)) w in
        if drm.has_dumb fd
        then (done fd, w')
        else (fail eopnotsupp, note (release (descriptor fd)) w')
  ]

  -- The part of `modeset_create_fb` that maps the buffer, once the framebuffer is there.
  unfoldable pub map_fb : Dev → World → Status × Dev × World
  map_fb d w = elim (drm.map_dumb w.log d.handle) [
    | fail e ↦ (err e, d, destroy_dumb d (remove_fb d (note refuse w)))
    | done offset ↦ elim (drm.mmap w.log d.size offset) [
      | fail e ↦ (err e, d, destroy_dumb d (remove_fb d (note refuse w)))
      | done a ↦ (
        ok,
        record d { map = a },
        record { log = acquire (mapping a) ∷ w.log; memory = clear w.memory a d.size },
      )
    ]
  ]

  unfoldable pub create_fb : Dev → World → Status × Dev × World
  create_fb d w = elim (drm.create_dumb w.log d.width d.height) [
    | fail e ↦ (err e, d, note refuse w)
    | done b ↦
        let d' : Dev = record d { stride = b.pitch; size = b.size % 2 ^ 32; handle = b.handle } in
        let w' = note (acquire (dumb_buffer b.handle)) w in
        elim (drm.add_fb w'.log d'.width d'.height d'.stride d'.handle) [
          | fail e ↦ (err e, d', destroy_dumb d' (note refuse w'))
          | done fb ↦ map_fb (record d' { fb = fb }) (note (acquire (framebuffer fb)) w')
        ]
  ]

  -- The mode, width and height of a connector's first mode.
  unfoldable pub setup_mode :
      List Dev → Resources → Connector → ModeInfo → Dev → World → Status × Dev × World
  setup_mode devs res c m d w =
      let d' : Dev = record d { mode = m; width = m.hdisplay; height = m.vdisplay } in
      let (found, log) = find_crtc drm (crtcs_of devs) res c w.log in
      elim found [
        | fail e ↦ (err e, d', record w { log = log })
        | done crtc ↦ create_fb (record d' { crtc = crtc }) (record w { log = log })
      ]

  unfoldable pub setup_dev : List Dev → Resources → Connector → Dev → World → Status × Dev × World
  setup_dev devs res c d w = elim c.connected [
    | false ↦ (err enoent, d, w)
    | true ↦ elim c.modes [ [] ↦ (err efault, d, w) | m ∷ _ ↦ setup_mode devs res c m d w ]
  ]

  -- What the loop of `modeset_prepare` does after `modeset_setup_dev`.
  unfoldable pub finish_connector : Connector → ℕ → List Dev → Status × Dev × World → State
  finish_connector c self devs (err e, d, w) = record {
    devs = devs;
    world = note (release (connector c.connector_id)) (note (release (device self)) w);
  }
  finish_connector c self devs (ok, d, w) = record {
    devs = d ∷ devs;
    world = note (release (connector c.connector_id)) w;
  }

  -- The body of that loop.
  unfoldable pub prepare_connector : Resources → ℕ → State → State
  prepare_connector res id s = elim (drm.get_connector id) [
    | none ↦ record s { world = note refuse s.world }
    | some c ↦
        let w = note (acquire (connector c.connector_id)) s.world in
        let self = drm.malloc w.log in
        finish_connector c self s.devs
          (setup_dev s.devs res c (blank self c.connector_id) (note (acquire (device self)) w))
  ]

  unfoldable pub prepare_connectors : Resources → List ℕ → State → State
  prepare_connectors res [] s = s
  prepare_connectors res (id ∷ ids) s = prepare_connectors res ids (prepare_connector res id s)

  unfoldable pub prepare : State → Status × State
  prepare s = elim (drm.get_resources s.world.log) [
    | fail e ↦ (err e, record s { world = note refuse s.world })
    | done res ↦
        let s' =
          prepare_connectors res res.connectors
            (record s { world = note (acquire resources) s.world }) in
        (ok, record s' { world = note (release resources) s'.world })
  ]
