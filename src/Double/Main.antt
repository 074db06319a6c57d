-- ===== src/Double/Main.antt =====
-- `modeset_cleanup` and `main` of perftools/X/drm-howto/modeset-double-buffered.c.
pub mod Run
use Prim.Native.String.{String}
use debian_config_files.Base.{Option, none, some, List, [], ◌∷◌, ℕ}
use debian_config_files.Modeset.Kernel.{
  SavedCrtc, done, fail, descriptor, device, saved_crtc, acquire, release, refuse, set_crtc,
  CrtcSetting, World, Drm,
}
use debian_config_files.Modeset.Setup.{Status, ok, err, note, open_card}
use debian_config_files.Modeset.Main.{card_of}
use debian_config_files.Double.Setup.{Dev, destroy_fb, prepare}
use debian_config_files.Double.Draw.{Display, front_of, program, draw}

abbrev pub restore : Dev → SavedCrtc → CrtcSetting
restore d c = record {
  crtc = c.crtc_id;
  buffer = c.buffer_id;
  x = c.x;
  y = c.y;
  conn = d.conn;
  mode = c.mode;
}

-- What is done for a device after its CRTC was put back and freed.
unfoldable pub free_buffers : Dev → World → World
free_buffers d w = note (release (device d.self)) (destroy_fb d.buf0 (destroy_fb d.buf1 w))

abbrev pub free_device : Dev → SavedCrtc → World → World
free_device d c w = free_buffers d (note (release (saved_crtc c.crtc_id)) w)

-- `none` is the read through a null `saved_crtc`.
pub cleanup : List Dev → World → Option World
cleanup [] w = some w
cleanup (d ∷ devs) w = elim d.saved [
  | none ↦ none
  | some c ↦ cleanup devs (free_device d c (note (set_crtc (restore d c)) w))
]

-- `iter->saved_crtc = drmModeGetCrtc(…)`, a null pointer on an error.
unfoldable pub save_crtc : Drm → Dev → World → Dev × World
save_crtc drm d w = elim (drm.get_crtc d.crtc) [
  | none ↦ (record d { saved = none }, note refuse w)
  | some c ↦ (record d { saved = some c }, note (acquire (saved_crtc c.crtc_id)) w)
]

-- The loop of `main` over the devices. A failure of `drmModeSetCrtc` is only printed.
pub set_modes : Drm → List Dev → World → List Dev × World
set_modes drm [] w = ([], w)
set_modes drm (d ∷ devs) w =
    let (d', w') = save_crtc drm d w in
    let (devs', w'') = set_modes drm devs (note (set_crtc (program d' (front_of d'))) w') in
    (d' ∷ devs', w'')

module _ (display : Display) where
  -- The part of `main` between `modeset_prepare` and `close`.
  pub present : List Dev → World → Option World
  present devs w =
      let (devs₁, w₁) = set_modes display.drm devs w in
      let (devs₂, w₂) = draw display devs₁ w₁ in cleanup devs₂ w₂

  -- The part of `main` after `modeset_open`, the label `out_close` included.
  pub run_card : ℕ → World → Option (Status × World)
  run_card fd w =
      let (status, s) = prepare display.drm (record { devs = []; world = w }) in
      elim status [
        | err e ↦ some (err e, note (release (descriptor fd)) s.world)
        | ok ↦ elim (present s.devs s.world) [
          | none ↦ none
          | some w' ↦ some (ok, note (release (descriptor fd)) w')
        ]
      ]

  -- `main(argc, argv)`; `none` is a crash.
  pub main : List String → World → Option (Status × World)
  main argv w =
      let (opened, w') = open_card display.drm (card_of argv) w in
      elim opened [ fail e ↦ some (err e, w') | done fd ↦ run_card fd w' ]
