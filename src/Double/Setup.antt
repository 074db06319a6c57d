-- ===== src/Double/Setup.antt =====
-- `struct modeset_dev`, `modeset_create_fb`, `modeset_destroy_fb`, `modeset_setup_dev` and
-- `modeset_prepare` of perftools/X/drm-howto/modeset-double-buffered.c. `modeset_open` and
-- `modeset_find_crtc` are those of modeset.c.
pub mod Balance
pub mod Prepare
use debian_config_files.Base.{ℕ, ◌%◌, ◌^◌, Bool, true, false, Option, none, some, List, [], ◌∷◌}
use debian_config_files.Modeset.Kernel.{
  ModeInfo, Connector, Resources, SavedCrtc, done, fail, resources, connector, device, dumb_buffer,
  framebuffer, mapping, acquire, release, refuse, World, Drm, clear, enoent, efault,
}
use debian_config_files.Modeset.Crtc.{find_crtc}
use debian_config_files.Modeset.Setup.{Status, ok, err, note}
use debian_config_files.Modeset.Draw.{Buf}

-- `front` is `front_buf`, which is 0 (`false`) or 1: it starts at 0 and is only changed by `^= 1`.
pub record Dev : Type 0 where
  pub self : ℕ
  pub front : Bool
  pub buf0 : Buf
  pub buf1 : Buf
  pub mode : ModeInfo
  pub conn : ℕ
  pub crtc : ℕ
  pub saved : Option SavedCrtc

pub record State : Type 0 where
  pub devs : List Dev
  pub world : World

abbrev pub crtcs_of : List Dev → List ℕ
crtcs_of [] = []
crtcs_of (d ∷ devs) = d.crtc ∷ crtcs_of devs

-- `memset(dev, 0, sizeof(*dev))` and `dev->conn = …`, and a buffer in it with its size set.
abbrev pub blank_buf : ℕ → ℕ → Buf
blank_buf width height = record {
  width = width;
  height = height;
  stride = 0;
  size = 0;
  handle = 0;
  map = 0;
  fb = 0;
}

abbrev pub blank : ℕ → ℕ → Dev
blank self conn = record {
  self = self;
  front = false;
  buf0 = blank_buf 0 0;
  buf1 = blank_buf 0 0;
  mode = record { hdisplay = 0; vdisplay = 0; timings = 0 };
  conn = conn;
  crtc = 0;
  saved = none;
}

-- The labels `err_destroy` and `err_fb` of `modeset_create_fb`.
pub destroy_dumb : Buf → World → World
destroy_dumb b = note (release (dumb_buffer b.handle))

pub remove_fb : Buf → World → World
remove_fb b = note (release (framebuffer b.fb))

pub destroy_fb : Buf → World → World
destroy_fb b w = destroy_dumb b (remove_fb b (note (release (mapping b.map)) w))

module _ (drm : Drm) where
  -- The part of `modeset_create_fb` that maps the buffer, once the framebuffer is there.
  pub map_fb : Buf → World → Status × Buf × World
  map_fb b w = elim (drm.map_dumb w.log b.handle) [
    | fail e ↦ (err e, b, destroy_dumb b (remove_fb b (note refuse w)))
    | done offset ↦ elim (drm.mmap w.log b.size offset) [
      | fail e ↦ (err e, b, destroy_dumb b (remove_fb b (note refuse w)))
      | done a ↦ (
        ok,
        record b { map = a },
        record { log = acquire (mapping a) ∷ w.log; memory = clear w.memory a b.size },
      )
    ]
  ]

  pub create_fb : Buf → World → Status × Buf × World
  create_fb b w = elim (drm.create_dumb w.log b.width b.height) [
    | fail e ↦ (err e, b, note refuse w)
    | done q ↦
        let b' : Buf = record b { stride = q.pitch; size = q.size % 2 ^ 32; handle = q.handle } in
        let w' = note (acquire (dumb_buffer q.handle)) w in
        elim (drm.add_fb w'.log b'.width b'.height b'.stride b'.handle) [
          | fail e ↦ (err e, b', destroy_dumb b' (note refuse w'))
          | done fb ↦ map_fb (record b' { fb = fb }) (note (acquire (framebuffer fb)) w')
        ]
  ]

  -- The two calls of `modeset_create_fb` in `modeset_setup_dev`.
  pub second_fb : Dev → Buf → World → Status × Dev × World
  second_fb d b0 w =
      let (status, b1, w') = create_fb d.buf1 w in
      let d' : Dev = record d { buf0 = b0; buf1 = b1 } in
      elim status [ err e ↦ (err e, d', destroy_fb b0 w') | ok ↦ (ok, d', w') ]

  pub both_fbs : Dev → World → Status × Dev × World
  both_fbs d w =
      let (status, b0, w') = create_fb d.buf0 w in
      elim status [ err e ↦ (err e, record d { buf0 = b0 }, w') | ok ↦ second_fb d b0 w' ]

  -- The mode, width and height of a connector's first mode, the CRTC, and the buffers.
  pub setup_mode : List Dev → Resources → Connector → ModeInfo → Dev → World → Status × Dev × World
  setup_mode devs res c m d w =
      let b = blank_buf m.hdisplay m.vdisplay in
      let d' : Dev = record d { mode = m; buf0 = b; buf1 = b } in
      let (found, log) = find_crtc drm (crtcs_of devs) res c w.log in
      elim found [
        | fail e ↦ (err e, d', record w { log = log })
        | done crtc ↦ both_fbs (record d' { crtc = crtc }) (record w { log = log })
      ]

  pub setup_dev : List Dev → Resources → Connector → Dev → World → Status × Dev × World
  setup_dev devs res c d w = elim c.connected [
    | false ↦ (err enoent, d, w)
    | true ↦ elim c.modes [ [] ↦ (err efault, d, w) | m ∷ _ ↦ setup_mode devs res c m d w ]
  ]

  -- What the loop of `modeset_prepare` does after `modeset_setup_dev`.
  pub finish_connector : Connector → ℕ → List Dev → Status × Dev × World → State
  finish_connector c self devs (err e, d, w) = record {
    devs = devs;
    world = note (release (connector c.connector_id)) (note (release (device self)) w);
  }
  finish_connector c self devs (ok, d, w) = record {
    devs = d ∷ devs;
    world = note (release (connector c.connector_id)) w;
  }

  -- The body of that loop.
  pub prepare_connector : Resources → ℕ → State → State
  prepare_connector res id s = elim (drm.get_connector id) [
    | none ↦ record s { world = note refuse s.world }
    | some c ↦
        let w = note (acquire (connector c.connector_id)) s.world in
        let self = drm.malloc w.log in
        finish_connector c self s.devs
          (setup_dev s.devs res c (blank self c.connector_id) (note (acquire (device self)) w))
  ]

  pub prepare_connectors : Resources → List ℕ → State → State
  prepare_connectors res [] s = s
  prepare_connectors res (id ∷ ids) s = prepare_connectors res ids (prepare_connector res id s)

  pub prepare : State → Status × State
  prepare s = elim (drm.get_resources s.world.log) [
    | fail e ↦ (err e, record s { world = note refuse s.world })
    | done res ↦
        let s' =
          prepare_connectors res res.connectors
            (record s { world = note (acquire resources) s.world }) in
        (ok, record s' { world = note (release resources) s'.world })
  ]
