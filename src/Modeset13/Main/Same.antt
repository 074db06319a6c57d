-- ===== src/Modeset13/Main/Same.antt =====
-- How a run of perftools/X/drm-howto/modeset13.c compares with one of modeset.c.
use Prim.Native.String.{String}
use debian_config_files.Base.{
  ℕ, ◌≡◌, refl, ap, ◌∙◌, Option, none, some, List, [], ◌∷◌, inl, inr, Option-cases, some_inj,
}
use debian_config_files.Modeset.Kernel.{Reply-cases, descriptor, release, Log, World, Drm}
use debian_config_files.Modeset.Crtc.{Dev}
use debian_config_files.Modeset.Setup.{
  Status, ok, err, State, note, open_card, destroy_dumb, remove_fb, prepare,
}
use debian_config_files.Modeset.Draw.{draw}
use debian_config_files.Modeset.Main.{
  save_crtc, set_modes, cleanup_device, cleanup, present, card_of, run_card, main,
}
use debian_config_files.Modeset13.Setup.{ℤ}
use debian_config_files.Modeset13.Setup.Same.{picking, AllHaveMode, prepare-Same}
use debian_config_files.Modeset13.Main as M
use debian_config_files.Modeset13.Main.{index_of, run_prepared}

abbrev pub log_of : Option World → Option Log
log_of none = none
log_of (some w) = some w.log

-- The status that a run returns and the calls that it made; `none` is a crash.
abbrev pub calls : Option (Status × World) → Option (Status × Log)
calls none = none
calls (some (s, w)) = some (s, w.log)

-- The calls of `modeset_cleanup` do not depend on the memory.
log-cleanup :
    (devs : List Dev) (w : World) (memory : ℕ → ℕ)
    → log_of (cleanup devs w) ≡ log_of (cleanup devs (record w { memory = memory }))
unfolding cleanup cleanup_device destroy_dumb remove_fb
log-cleanup [] w memory = refl
log-cleanup (d ∷ devs) w memory = elim (Option-cases d.saved) [
  | inl n ↦ rw (n, cleanup) refl
  | inr (c, e) ↦ rw (e, cleanup) (log-cleanup devs _ memory)
]

module _ (drm : Drm) (index : ℤ) where
  set_modes-picking :
      (devs : List Dev) (w : World) → set_modes (picking index drm) devs w ≡ set_modes drm devs w
  unfolding set_modes save_crtc
  set_modes-picking [] w = refl
  set_modes-picking (d ∷ devs) w = rw (set_modes-picking devs _, set_modes) refl

  log-present :
      (devs : List Dev) (w : World)
      → log_of (M.present drm devs w) ≡ log_of (present (picking index drm) devs w)
  unfolding M.present present
  log-present devs w =
      rw (set_modes-picking devs w, present)
        (log-cleanup _ _ (draw (picking index drm) (set_modes drm devs w).0 _))

-- The end of `main`, which closes the card.
abbrev pub closed : ℕ → Option World → Option (Status × World)
closed fd o = elim o [ none ↦ none | some w ↦ some (ok, note (release (descriptor fd)) w) ]

calls-closed :
    (fd : ℕ) (o o' : Option World)
    → log_of o ≡ log_of o'
    → calls (closed fd o) ≡ calls (closed fd o')
calls-closed fd none none h = refl
calls-closed fd none (some w') h = absurd (cc)
calls-closed fd (some w) none h = absurd (cc)
calls-closed fd (some w) (some w') h = ap (λ l. some (ok, release (descriptor fd) ∷ l)) (some_inj h)

module _ (drm : Drm) (index : ℤ) (all : AllHaveMode drm index) where
  calls-run_card :
      (fd : ℕ) (w : World)
      → calls (M.run_card drm index fd w) ≡ calls (run_card (picking index drm) fd w)
  unfolding M.run_card run_card run_prepared
  calls-run_card fd w =
      ap calls (rw (prepare-Same drm index all start, M.run_card) refl) ∙ go s.0 refl
    where
      start : State
      start = record { devs = []; world = w }

      s : Status × State
      s = prepare (picking index drm) start

      go :
          (status : Status)
          → s.0 ≡ status
          → calls (run_prepared drm fd s.0 s.1) ≡ calls (run_card (picking index drm) fd w)
      go (err e) k = rw (k, run_card, run_prepared) refl
      go ok k =
          rw (k, run_card, run_prepared)
            (calls-closed fd _ _ (log-present drm index s.1.devs s.1.world))

  open_card-picking :
      (node : String) (w : World) → open_card (picking index drm) node w ≡ open_card drm node w
  unfolding open_card
  open_card-picking node w = refl

  calls-main_at :
      (atoi : String → ℤ) (argv : List String) (w : World)
      → index_of atoi argv ≡ index
      → calls (M.main drm atoi argv w) ≡ calls (main (picking index drm) [] w)
  unfolding M.main main card_of open_card
  calls-main_at atoi argv w e = elim (Reply-cases (open_card drm "/dev/dri/card0" w).0) [
    | inl (fd, k) ↦
        rw (open_card-picking "/dev/dri/card0" w, k, M.main, main, card_of, e)
          (calls-run_card fd (open_card drm "/dev/dri/card0" w).1)
    | inr (x, k) ↦ rw (open_card-picking "/dev/dri/card0" w, k, M.main, main, card_of) refl
  ]

-- If the index that the arguments give, 13 without any, is in the array of modes of each connector
-- that has modes, `main` of modeset13.c reads nothing outside the arrays and returns what `main` of
-- modeset.c returns, started without arguments on the card whose connectors have that mode first,
-- after the same calls; and one of the two crashes exactly if the other does.
pub calls-main :
    (drm : Drm) (atoi : String → ℤ) (argv : List String) (w : World)
    → AllHaveMode drm (index_of atoi argv)
    → calls (M.main drm atoi argv w) ≡ calls (main (picking (index_of atoi argv) drm) [] w)
calls-main drm atoi argv w all = calls-main_at drm (index_of atoi argv) all atoi argv w refl
