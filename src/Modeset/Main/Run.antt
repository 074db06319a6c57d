-- ===== src/Modeset/Main/Run.antt =====
-- Whole runs of perftools/X/drm-howto/modeset.c.
use Prim.Native.String.{String}
use debian_config_files.Base.{
  ℕ, ◌+◌, ◌≡◌, ◌≢◌, refl, ap, Option, none, some, List, [], ◌∷◌, arith, true,
}
use debian_config_files.Modeset.Kernel.{
  Reply, done, fail, Resource, descriptor, release, Log, World, Drm,
}
use debian_config_files.Modeset.Kernel.Balance.{same, acquired, released, Gains}
use debian_config_files.Modeset.Crtc.{Dev}
use debian_config_files.Modeset.Setup.{Status, ok, err, State, note, open_card, prepare}
use debian_config_files.Modeset.Setup.Balance.{held, prepare-Owes, devs-prepare_err}
use debian_config_files.Modeset.Draw.{draw}
use debian_config_files.Modeset.Main.{set_modes, present, card_of, run_card, main}
use debian_config_files.Modeset.Main.Laws.{
  set_modes-Gains, set_modes-held, cleanup-Gains, all_known, present-some,
}

-- As often as it was got, each resource was given back.
abbrev pub IsBalanced : Log → Type 0
IsBalanced l = (r : Resource) → acquired r l ≡ released r l

module _ (drm : Drm) where
  -- What `present` gives back is what the devices hold.
  present-Gains :
      (r : Resource) (devs : List Dev) (w : World) {w' : World}
      → present drm devs w ≡ some w'
      → acquired r w'.log + released r w.log + held r devs ≡ acquired r w.log + released r w'.log
  unfolding present
  present-Gains r devs w {w'} h =
      let (devs', w₁) = set_modes drm devs w in
      omega (
        arith,
        cleanup-Gains r devs' (record w₁ { memory = draw drm devs' w₁.memory }) h,
        set_modes-Gains drm r devs w,
        set_modes-held drm r devs w,
      )

  abbrev pub open_gain : Resource → Reply ℕ → ℕ
  open_gain r (done fd) = same r (descriptor fd)
  open_gain r (fail e) = 0

  pub open_card-Gains :
      (r : Resource) (card : String) (w : World)
      → Gains r w.log (open_card drm card w).1.log (open_gain r (open_card drm card w).0)
  unfolding open_card
  open_card-Gains r card w = ground arith

  all_known_lem : ((c : ℕ) → drm.get_crtc c ≢ none) → (devs : List Dev) → all_known drm devs ≡ true
  all_known_lem h [] = refl
  all_known_lem h (d ∷ devs) = ground (arith, h d.crtc, all_known_lem h devs)

  -- A run that ends with every resource given back.
  abbrev pub EndsBalanced : Option (Status × World) → Type 0
  EndsBalanced o = (out : Status × World) × (o ≡ some out) × IsBalanced out.1.log

  run_card-EndsBalanced :
      ((c : ℕ) → drm.get_crtc c ≢ none)
      → (fd : ℕ) (w : World)
      → ((r : Resource) → acquired r w.log ≡ released r w.log + same r (descriptor fd))
      → EndsBalanced (run_card drm fd w)
  unfolding run_card
  run_card-EndsBalanced known fd w h =
      go (prepare drm start).0 refl (present drm s.devs s.world) refl
    where
      start : State
      start = record { devs = []; world = w }

      s : State
      s = (prepare drm start).1

      owes : (r : Resource) → Gains r w.log s.world.log (held r s.devs)
      owes r = prepare-Owes drm r start w.log (omega arith)

      go :
          (st : Status)
          → (prepare drm start).0 ≡ st
          → (o : Option World) → present drm s.devs s.world ≡ o
          → EndsBalanced (run_card drm fd w)
      go (err x) e o p = (
        (err x, note (release (descriptor fd)) s.world),
        rw (e, run_card),
        λ r. omega (arith, owes r, h r, ap (held r) (devs-prepare_err drm start e)),
      )
      go ok e none p = absurd (
          let k = present-some drm s.devs s.world in
          let q = all_known_lem known s.devs in ground arith)
      go ok e (some w') p = (
        (ok, note (release (descriptor fd)) w'),
        rw (e, run_card, p),
        λ r. omega (arith, owes r, h r, present-Gains r s.devs s.world p),
      )

  -- If every CRTC can be read, `main` ends on any arguments and with any answers of the kernel,
  -- and whatever it got (descriptor, resources, connectors, encoders, device structures, buffers,
  -- framebuffers, mappings, saved CRTCs) it has given back as often, on the error paths too.
  pub main-IsBalanced :
      ((c : ℕ) → drm.get_crtc c ≢ none)
      → (argv : List String) (memory : ℕ → ℕ)
      → EndsBalanced (main drm argv (record { log = []; memory = memory }))
  unfolding main
  main-IsBalanced known argv memory = go (open_card drm (card_of argv) w).0 refl
    where
      w : World
      w = record { log = []; memory = memory }

      go : (o : Reply ℕ) → (open_card drm (card_of argv) w).0 ≡ o → EndsBalanced (main drm argv w)
      go (fail e) k = (
        (err e, (open_card drm (card_of argv) w).1),
        rw (k, main),
        λ r. omega (arith, open_card-Gains r (card_of argv) w, ap (open_gain r) k),
      )
      go (done fd) k =
          rw (k, main)
            (run_card-EndsBalanced known fd (open_card drm (card_of argv) w).1
              (λ r. omega (arith, open_card-Gains r (card_of argv) w, ap (open_gain r) k)))
