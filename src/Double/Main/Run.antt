-- ===== src/Double/Main/Run.antt =====
-- Whole runs of perftools/X/drm-howto/modeset-double-buffered.c.
use Prim.Native.String.{String}
use debian_config_files.Base.{
  ℕ, ◌+◌, ◌≡◌, ◌≢◌, refl, ap, ◌∙◌, true, Option, none, some, List, [], ◌∷◌, arith, Option-cases,
  inl, inr,
}
use debian_config_files.Modeset.Kernel.{
  Reply, done, fail, Resource, descriptor, saved_crtc, release, set_crtc, World, Drm,
}
use debian_config_files.Modeset.Kernel.Balance.{same, acquired, released, Gains}
use debian_config_files.Modeset.Setup.{Status, ok, err, note, open_card}
use debian_config_files.Modeset.Main.{card_of}
use debian_config_files.Modeset.Main.Laws.{is_some, held_saved}
use debian_config_files.Modeset.Main.Run.{IsBalanced, open_gain, open_card-Gains}
use debian_config_files.Double.Setup.{Dev, State, destroy_fb, prepare}
use debian_config_files.Double.Setup.Balance.{held, destroy_fb-released}
use debian_config_files.Double.Setup.Prepare.{prepare-held, devs-prepare_err}
use debian_config_files.Double.Draw.{Display, draw, program, front_of}
use debian_config_files.Double.Draw.Balance.{held_saved_all, all_saved, draw-Keeps}
use debian_config_files.Double.Main.{
  restore, free_buffers, free_device, cleanup, save_crtc, set_modes, present, run_card, main,
}

module _ (r : Resource) where
  set_modes-Gains :
      (drm : Drm) (devs : List Dev) (w : World)
      → Gains r w.log (set_modes drm devs w).1.log (held_saved_all r (set_modes drm devs w).0)
  unfolding set_modes save_crtc
  set_modes-Gains drm [] w = omega arith
  set_modes-Gains drm (d ∷ devs) w =
      let (d', w') = save_crtc drm d w in
      ground (arith, set_modes-Gains drm devs (note (set_crtc (program d' (front_of d'))) w'))

  set_modes-held :
      (drm : Drm) (devs : List Dev) (w : World) → held r (set_modes drm devs w).0 ≡ held r devs
  unfolding set_modes save_crtc
  set_modes-held drm [] w = refl
  set_modes-held drm (d ∷ devs) w =
      let (d', w') = save_crtc drm d w in
      ground (arith, set_modes-held drm devs (note (set_crtc (program d' (front_of d'))) w'))

  cleanup-Gains :
      (drm : Drm) (devs : List Dev) (w : World) {w' : World}
      → cleanup devs w ≡ some w'
      → acquired r w'.log + released r w.log + held r devs + held_saved_all r devs
        ≡ acquired r w.log + released r w'.log
  unfolding cleanup free_buffers
  cleanup-Gains drm [] w h = ground arith
  cleanup-Gains drm (d ∷ devs) w {w'} h = elim (Option-cases d.saved) [
    | inl n ↦ absurd (ground arith)
    | inr (c, e) ↦
        let w₁ : World = note (release (saved_crtc c.crtc_id)) (note (set_crtc (restore d c)) w) in
        let rest : cleanup devs (free_device d c (note (set_crtc (restore d c)) w)) ≡ some w' =
          ground arith in
        let s = ap (held_saved r) e in
        omega (
          arith,
          cleanup-Gains drm devs _ rest,
          destroy_fb-released drm r d.buf1 w₁,
          destroy_fb-released drm r d.buf0 (destroy_fb d.buf1 w₁),
        )
  ]

cleanup-some : (devs : List Dev) (w : World) → is_some (cleanup devs w) ≡ all_saved devs
unfolding cleanup
cleanup-some [] w = refl
cleanup-some (d ∷ devs) w = elim (Option-cases d.saved) [
  | inl n ↦ rw (n, cleanup)
  | inr (c, e) ↦ rw (e, cleanup) (cleanup-some devs _)
]

set_modes-all_saved :
    (drm : Drm)
    → ((c : ℕ) → drm.get_crtc c ≢ none)
    → (devs : List Dev) (w : World) → all_saved (set_modes drm devs w).0 ≡ true
unfolding set_modes save_crtc
set_modes-all_saved drm known [] w = refl
set_modes-all_saved drm known (d ∷ devs) w =
    let (d', w') = save_crtc drm d w in
    ground (
      arith,
      known d.crtc,
      set_modes-all_saved drm known devs (note (set_crtc (program d' (front_of d'))) w'),
    )

module _ (display : Display) (known : (c : ℕ) → display.drm.get_crtc c ≢ none) where
  present-Gains :
      (r : Resource) (devs : List Dev) (w : World) {w' : World}
      → present display devs w ≡ some w'
      → acquired r w'.log + released r w.log + held r devs ≡ acquired r w.log + released r w'.log
  unfolding present
  present-Gains r devs w {w'} h =
      let (devs₁, w₁) = set_modes display.drm devs w in
      let (devs₂, w₂) = draw display devs₁ w₁ in
      let k = draw-Keeps r display devs₁ w₁ in
      let kl = k.log in
      let kd = k.devices in
      let kc = k.crtcs in
      omega (
        arith,
        cleanup-Gains r display.drm devs₂ w₂ h,
        set_modes-Gains r display.drm devs w,
        set_modes-held r display.drm devs w,
      )

  present-is_some : (devs : List Dev) (w : World) → is_some (present display devs w) ≡ true
  unfolding present
  present-is_some devs w =
      let (devs₁, w₁) = set_modes display.drm devs w in
      let (devs₂, w₂) = draw display devs₁ w₁ in
      let k = draw-Keeps (descriptor 0) display devs₁ w₁ in
      cleanup-some devs₂ w₂ ∙ k.saved ∙ set_modes-all_saved display.drm known devs w

  -- A run that ends with every resource given back.
  abbrev pub EndsBalanced : Option (Status × World) → Type 0
  EndsBalanced o = (out : Status × World) × (o ≡ some out) × IsBalanced out.1.log

  run_card-EndsBalanced :
      (fd : ℕ) (w : World)
      → ((r : Resource) → acquired r w.log ≡ released r w.log + same r (descriptor fd))
      → EndsBalanced (run_card display fd w)
  unfolding run_card
  run_card-EndsBalanced fd w h =
      go (prepare display.drm empty).0 refl (present display s.devs s.world) refl
    where
      empty : State
      empty = record { devs = []; world = w }

      s : State
      s = (prepare display.drm empty).1

      owes : (r : Resource) → Gains r w.log s.world.log (held r s.devs)
      owes r = prepare-held display.drm r empty w.log (omega arith)

      go :
          (st : Status)
          → (prepare display.drm empty).0 ≡ st
          → (o : Option World) → present display s.devs s.world ≡ o
          → EndsBalanced (run_card display fd w)
      go (err x) e o p = (
        (err x, note (release (descriptor fd)) s.world),
        rw (e, run_card),
        λ r. omega (arith, owes r, h r, ap (held r) (devs-prepare_err display.drm empty e)),
      )
      go ok e none p = absurd (let q = present-is_some s.devs s.world in ground arith)
      go ok e (some w') p = (
        (ok, note (release (descriptor fd)) w'),
        rw (e, run_card, p),
        λ r. omega (arith, owes r, h r, present-Gains r s.devs s.world p),
      )

  -- If every CRTC can be read, `main` of the double-buffered program ends, on any arguments and with
  -- any answers of the kernel, and whatever it got it has given back as often, both buffers of each
  -- device included, also where only the second buffer cannot be created.
  pub double-IsBalanced :
      (argv : List String) (memory : ℕ → ℕ)
      → EndsBalanced (main display argv (record { log = []; memory = memory }))
  unfolding main
  double-IsBalanced argv memory = go (open_card display.drm (card_of argv) w).0 refl
    where
      w : World
      w = record { log = []; memory = memory }

      go :
          (o : Reply ℕ)
          → (open_card display.drm (card_of argv) w).0 ≡ o
          → EndsBalanced (main display argv w)
      go (fail e) k = (
        (err e, (open_card display.drm (card_of argv) w).1),
        rw (k, main),
        λ r.
            omega (
              arith,
              open_card-Gains display.drm r (card_of argv) w,
              ap (open_gain display.drm r) k,
            ),
      )
      go (done fd) k =
          rw (k, main)
            (run_card-EndsBalanced fd (open_card display.drm (card_of argv) w).1 (λ r. omega (
              arith,
              open_card-Gains display.drm r (card_of argv) w,
              ap (open_gain display.drm r) k,
            )))
