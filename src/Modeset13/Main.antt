-- ===== src/Modeset13/Main.antt =====
-- `main` of perftools/X/drm-howto/modeset13.c; `modeset_cleanup` is that of modeset.c.
pub mod Same
use Prim.Native.String.{String}
use debian_config_files.Base.{ℕ, Option, none, some, List, [], ◌∷◌}
use debian_config_files.Modeset.Kernel.{Reply, done, fail, descriptor, release, World, Drm}
use debian_config_files.Modeset.Crtc.{Dev}
use debian_config_files.Modeset.Setup.{Status, ok, err, State, note, open_card}
use debian_config_files.Modeset.Main.{set_modes, cleanup}
use debian_config_files.Modeset13.Setup.{ℤ, pos, prepare}
use debian_config_files.Modeset13.Draw.{draw2}

-- `mode_index`, from the arguments; what `atoi` gives is a parameter.
unfoldable pub index_of : (String → ℤ) → List String → ℤ
index_of atoi (_ ∷ index ∷ _) = atoi index
index_of atoi _ = pos 13

-- `none` is a crash, here and below.
module _ (drm : Drm) where
  -- The part of `main` between `modeset_prepare` and `close`.
  pub present : List Dev → World → Option World
  present devs w =
      let (devs', w') = set_modes drm devs w in
      cleanup devs' (record w' { memory = draw2 devs' w'.memory })

  -- The part of `main` after `modeset_prepare`, the label `out_close` included.
  pub run_prepared : ℕ → Status → State → Option (Status × World)
  run_prepared fd (err e) s = some (err e, note (release (descriptor fd)) s.world)
  run_prepared fd ok s = elim (present s.devs s.world) [
    | none ↦ none
    | some w' ↦ some (ok, note (release (descriptor fd)) w')
  ]

  -- The part of `main` after `modeset_open`.
  pub run_card : ℤ → ℕ → World → Option (Status × World)
  run_card index fd w = elim (prepare drm index (record { devs = []; world = w })) [
    | none ↦ none
    | some out ↦ run_prepared fd out.0 out.1
  ]

  -- `main(argc, argv)`.
  pub main : (String → ℤ) → List String → World → Option (Status × World)
  main atoi argv w =
      let (opened, w') = open_card drm "/dev/dri/card0" w in
      elim opened [ fail e ↦ some (err e, w') | done fd ↦ run_card (index_of atoi argv) fd w' ]
