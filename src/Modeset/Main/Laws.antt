-- ===== src/Modeset/Main/Laws.antt =====
-- What a run of perftools/X/drm-howto/modeset.c leaves behind.
use debian_config_files.Base.{
  ℕ, ◌+◌, ◌≡◌, refl, ap, ◌∙◌, Option, none, some, List, [], ◌∷◌, arith, Option-cases, inl, inr,
  Bool, true, false, ◌&&◌,
}
use debian_config_files.Modeset.Kernel.{
  SavedCrtc, Resource, acquire, release, refuse, set_crtc, page_flip, commit, CrtcSetting, Log,
  World, Drm, saved_crtc,
}
use debian_config_files.Modeset.Kernel.Balance.{same, acquired, released, Gains}
use debian_config_files.Modeset.Crtc.{Dev}
use debian_config_files.Modeset.Setup.{note, destroy_dumb, remove_fb}
use debian_config_files.Modeset.Setup.Balance.{held}
use debian_config_files.Modeset.Main.{
  program, restore, save_crtc, set_modes, cleanup_device, cleanup, present,
}

-- The saved CRTCs that the devices hold.
abbrev pub held_saved : Resource → Option SavedCrtc → ℕ
held_saved r none = 0
held_saved r (some c) = same r (saved_crtc c.crtc_id)

abbrev pub held_crtcs : Resource → List Dev → ℕ
held_crtcs r [] = 0
held_crtcs r (d ∷ devs) = held_saved r d.saved + held_crtcs r devs

module _ (drm : Drm) (r : Resource) where
  save_crtc-Gains :
      (d : Dev) (w : World)
      → Gains r w.log (save_crtc drm d w).1.log (held_saved r (save_crtc drm d w).0.saved)
  unfolding save_crtc
  save_crtc-Gains d w = ground arith

  save_crtc-held : (d : Dev) (w : World) → held r ((save_crtc drm d w).0 ∷ []) ≡ held r (d ∷ [])
  unfolding save_crtc
  save_crtc-held d w = ground arith

  pub set_modes-Gains :
      (devs : List Dev) (w : World)
      → Gains r w.log (set_modes drm devs w).1.log (held_crtcs r (set_modes drm devs w).0)
  unfolding set_modes
  set_modes-Gains [] w = omega arith
  set_modes-Gains (d ∷ devs) w =
      let (d', w') = save_crtc drm d w in
      omega (arith, save_crtc-Gains d w, set_modes-Gains devs (note (set_crtc (program d')) w'))

  pub set_modes-held : (devs : List Dev) (w : World) → held r (set_modes drm devs w).0 ≡ held r devs
  unfolding set_modes
  set_modes-held [] w = refl
  set_modes-held (d ∷ devs) w =
      let (d', w') = save_crtc drm d w in
      omega (arith, save_crtc-held d w, set_modes-held devs (note (set_crtc (program d')) w'))

-- `modeset_cleanup` gives back what the devices hold, their saved CRTCs included.
pub cleanup-Gains :
    (r : Resource) (devs : List Dev) (w : World) {w' : World}
    → cleanup devs w ≡ some w'
    → acquired r w'.log + released r w.log + held r devs + held_crtcs r devs
      ≡ acquired r w.log + released r w'.log
unfolding cleanup cleanup_device destroy_dumb remove_fb
cleanup-Gains r [] w h = ground arith
cleanup-Gains r (d ∷ devs) w {w'} h = elim (Option-cases d.saved) [
  | inl n ↦ absurd (ground arith)
  | inr (c, e) ↦
      let rest : cleanup devs (cleanup_device d c w) ≡ some w' = ground arith in
      let s = ap (held_saved r) e in omega (arith, cleanup-Gains r devs (cleanup_device d c w) rest)
]

abbrev pub is_some {ℓ} : {A : Type ℓ} → Option A → Bool
is_some none = false
is_some (some a) = true

-- Every device has a saved CRTC.
abbrev pub all_saved : List Dev → Bool
all_saved [] = true
all_saved (d ∷ devs) = is_some d.saved && all_saved devs

-- The CRTC of every device can be read.
abbrev pub all_known : Drm → List Dev → Bool
all_known drm [] = true
all_known drm (d ∷ devs) = is_some (drm.get_crtc d.crtc) && all_known drm devs

cleanup-some : (devs : List Dev) (w : World) → is_some (cleanup devs w) ≡ all_saved devs
unfolding cleanup
cleanup-some [] w = refl
cleanup-some (d ∷ devs) w = elim (Option-cases d.saved) [
  | inl n ↦ rw (n, cleanup)
  | inr (c, e) ↦ rw (e, cleanup) (cleanup-some devs (cleanup_device d c w))
]

set_modes-all_saved :
    (drm : Drm) (devs : List Dev) (w : World)
    → all_saved (set_modes drm devs w).0 ≡ all_known drm devs
unfolding set_modes save_crtc
set_modes-all_saved drm [] w = refl
set_modes-all_saved drm (d ∷ devs) w =
    let (d', w') = save_crtc drm d w in
    ground (arith, set_modes-all_saved drm devs (note (set_crtc (program d')) w'))

-- What `main` does between preparing and closing runs to its end exactly where the CRTC of every
-- device can be read; otherwise `modeset_cleanup` reads through a null pointer.
pub present-some :
    (drm : Drm) (devs : List Dev) (w : World) → is_some (present drm devs w) ≡ all_known drm devs
unfolding present
present-some drm devs w = cleanup-some _ _ ∙ set_modes-all_saved drm devs w

-- The settings that were made, the newest first.
abbrev pub settings : Log → List CrtcSetting
settings [] = []
settings (set_crtc s ∷ l) = s ∷ settings l
settings (acquire q ∷ l) = settings l
settings (release q ∷ l) = settings l
settings (refuse ∷ l) = settings l
settings (page_flip c b ∷ l) = settings l
settings (commit f q ∷ l) = settings l

-- What puts back the CRTCs of the devices, the last device's first, before earlier settings.
abbrev pub restores : List Dev → List CrtcSetting → List CrtcSetting
restores [] l = l
restores (d ∷ devs) l = restores devs (elim d.saved [ none ↦ l | some c ↦ restore d c ∷ l ])

-- `modeset_cleanup` sets the CRTC of each device once more, in the list's order and to what was
-- saved, and makes no other setting.
pub settings-cleanup :
    (devs : List Dev) (w : World) {w' : World}
    → cleanup devs w ≡ some w'
    → settings w'.log ≡ restores devs (settings w.log)
unfolding cleanup cleanup_device destroy_dumb remove_fb
settings-cleanup [] w h = ground arith
settings-cleanup (d ∷ devs) w {w'} h = elim (Option-cases d.saved) [
  | inl n ↦ absurd (ground arith)
  | inr (c, e) ↦
      let rest : cleanup devs (cleanup_device d c w) ≡ some w' = ground arith in
      rw (e, restores) (settings-cleanup devs (cleanup_device d c w) rest)
]
