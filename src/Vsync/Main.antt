-- ===== src/Vsync/Main.antt =====
-- `modeset_setup_dev`, `modeset_prepare` and `main` of perftools/X/drm-howto/modeset-vsync.c.
pub mod Laws
use Prim.Native.String.{String}
use debian_config_files.Base.{ℕ, Bool, false, Option, List, [], ◌∷◌, if◌then◌else◌}
use debian_config_files.Modeset.Kernel.{done, fail, descriptor, release, set_crtc, World}
use debian_config_files.Modeset.Setup.{Status, ok, err, note, open_card}
use debian_config_files.Modeset.Draw.{Shade}
use debian_config_files.Modeset.Main.{card_of}
use debian_config_files.Double.Setup as Double
use debian_config_files.Double.Draw.{Display, program, front_of}
use debian_config_files.Double.Main.{save_crtc}
use debian_config_files.Vsync.Host.{
  Dev, Kernel, Host, set_at, Outcome, ended, blocked, crashed, undocumented, Answer, Round,
}
use debian_config_files.Vsync.Draw.{draw}
use debian_config_files.Vsync.Cleanup.{cleanup}

-- The new fields, which `memset` clears.
abbrev pub with_flags : Double.Dev → Dev
with_flags d = record {
  dev = d;
  pending = false;
  cleanup = false;
  shade = record { r = 0; g = 0; b = 0; r_up = false; g_up = false; b_up = false; calls = 0 };
}

abbrev pub all_with_flags : List Double.Dev → List Dev
all_with_flags [] = []
all_with_flags (d ∷ devs) = with_flags d ∷ all_with_flags devs

-- What the environment does in a run: the answers to `time` and `select` while drawing, and of
-- `drmHandleEvent` in the clean-up.
pub record Script : Type 0 where
  pub start : ℕ
  pub rounds : List Round
  pub answers : List Answer

module _ (display : Display) where
  -- `modeset_prepare`: the same text, for the larger structure.
  pub prepare : World → Status × List Dev × World
  prepare w =
      let (status, s) = Double.prepare display.drm (record { devs = []; world = w }) in
      (status, all_with_flags s.devs, s.world)

  -- `drmModeSetCrtc` of the front buffer.
  unfoldable pub show_front : Double.Dev → Host → Host
  show_front d h =
      let s = program d (front_of d) in
      let k = h.kernel in
      record h {
        world = note (set_crtc s) h.world;
        kernel =
            if display.sets h.world.log s
            then record k { scan = set_at d.crtc (front_of d).fb k.scan }
            else k;
      }

  -- The loop of `main` over the devices.
  unfoldable pub set_modes : List Dev → Host → List Dev × Host
  set_modes [] h = ([], h)
  set_modes (d ∷ devs) h =
      let (saved, w) = save_crtc display.drm d.dev h.world in
      let (devs', h') = set_modes devs (show_front saved (record h { world = w })) in
      (record d { dev = saved } ∷ devs', h')

  -- The part of `main` between `modeset_prepare` and `close`.
  unfoldable pub present : Script → List Dev → Host → Outcome Host
  present script devs h =
      let (devs', h') = set_modes devs h in
      elim (draw display script.start script.rounds devs' h') [
        | ended (devs'', h'') ↦ cleanup display script.answers devs'' h''
        | blocked ↦ blocked
        | crashed ↦ crashed
        | undocumented ↦ undocumented
      ]

  -- The part of `main` after `modeset_open`, the label `out_close` included.
  pub run_card : Script → ℕ → Kernel → World → Outcome (Status × World)
  run_card script fd k w =
      let (status, devs, w') = prepare w in
      elim status [
        | err e ↦ ended (err e, note (release (descriptor fd)) w')
        | ok ↦ elim (present script devs (record { world = w'; rands = 0; kernel = k })) [
          | ended h ↦ ended (ok, note (release (descriptor fd)) h.world)
          | blocked ↦ blocked
          | crashed ↦ crashed
          | undocumented ↦ undocumented
        ]
      ]

  -- `main(argc, argv)`, from a state of the kernel on.
  pub main : Script → List String → Kernel → World → Outcome (Status × World)
  main script argv k w =
      let (opened, w') = open_card display.drm (card_of argv) w in
      elim opened [ fail e ↦ ended (err e, w') | done fd ↦ run_card script fd k w' ]
