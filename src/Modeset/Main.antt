-- ===== src/Modeset/Main.antt =====
-- `modeset_cleanup` and `main` of perftools/X/drm-howto/modeset.c.
pub mod Laws
pub mod Run
use Prim.Native.String.{String}
use debian_config_files.Base.{ℕ, Option, none, some, List, [], ◌∷◌}
use debian_config_files.Modeset.Kernel.{
  SavedCrtc, Reply, done, fail, descriptor, device, mapping, saved_crtc, acquire, release, refuse,
  set_crtc, CrtcSetting, World, Drm,
}
use debian_config_files.Modeset.Crtc.{Dev}
use debian_config_files.Modeset.Setup.{
  Status, ok, err, State, note, open_card, destroy_dumb, remove_fb, prepare,
}
use debian_config_files.Modeset.Draw.{draw}

-- The arguments of `drmModeSetCrtc` that show a device's framebuffer, and that put back what its
-- CRTC showed before.
abbrev pub program : Dev → CrtcSetting
program d = record { crtc = d.crtc; buffer = d.fb; x = 0; y = 0; conn = d.conn; mode = d.mode }

abbrev pub restore : Dev → SavedCrtc → CrtcSetting
restore d c = record {
  crtc = c.crtc_id;
  buffer = c.buffer_id;
  x = c.x;
  y = c.y;
  conn = d.conn;
  mode = c.mode;
}

-- What `modeset_cleanup` does for one device, after it has put back the CRTC.
unfoldable pub cleanup_device : Dev → SavedCrtc → World → World
cleanup_device d c w = note (release (device d.self)) (
    destroy_dumb d (
      remove_fb d (
        note (release (mapping d.map))
          (note (release (saved_crtc c.crtc_id)) (note (set_crtc (restore d c)) w)))))

-- `none` is the read through a null `saved_crtc`.
unfoldable pub cleanup : List Dev → World → Option World
cleanup [] w = some w
cleanup (d ∷ devs) w = elim d.saved [ none ↦ none | some c ↦ cleanup devs (cleanup_device d c w) ]

-- `argv[1]`, or the first card.
unfoldable pub card_of : List String → String
card_of (_ ∷ card ∷ _) = card
card_of _ = "/dev/dri/card0"

module _ (drm : Drm) where
  -- `iter->saved_crtc = drmModeGetCrtc(…)`, a null pointer on an error.
  unfoldable pub save_crtc : Dev → World → Dev × World
  save_crtc d w = elim (drm.get_crtc d.crtc) [
    | none ↦ (record d { saved = none }, note refuse w)
    | some c ↦ (record d { saved = some c }, note (acquire (saved_crtc c.crtc_id)) w)
  ]

  -- The loop of `main` over the devices. A failure of `drmModeSetCrtc` is only printed.
  unfoldable pub set_modes : List Dev → World → List Dev × World
  set_modes [] w = ([], w)
  set_modes (d ∷ devs) w =
      let (d', w') = save_crtc d w in
      let (devs', w'') = set_modes devs (note (set_crtc (program d')) w') in (d' ∷ devs', w'')

  -- The part of `main` between `modeset_prepare` and `close`.
  unfoldable pub present : List Dev → World → Option World
  present devs w =
      let (devs', w') = set_modes devs w in
      cleanup devs' (record w' { memory = draw drm devs' w'.memory })

  -- The part of `main` after `modeset_open`, the label `out_close` included.
  unfoldable pub run_card : ℕ → World → Option (Status × World)
  run_card fd w =
      let (status, s) = prepare drm (record { devs = []; world = w }) in
      elim status [
        | err e ↦ some (err e, note (release (descriptor fd)) s.world)
        | ok ↦ elim (present s.devs s.world) [
          | none ↦ none
          | some w' ↦ some (ok, note (release (descriptor fd)) w')
        ]
      ]

  -- `main(argc, argv)` from a log and memory on; `none` is a crash.
  unfoldable pub main : List String → World → Option (Status × World)
  main argv w =
      let (opened, w') = open_card drm (card_of argv) w in
      elim opened [ fail e ↦ some (err e, w') | done fd ↦ run_card fd w' ]
