-- ===== src/Double/Draw/Balance.antt =====
-- `modeset_draw` of perftools/X/drm-howto/modeset-double-buffered.c neither gets nor gives back
-- anything.
use debian_config_files.Base.{
  ℕ, zero, suc, ◌+◌, ◌≡◌, refl, ◌∙◌, Bool, true, ◌&&◌, List, [], ◌∷◌, arith,
}
use debian_config_files.Modeset.Kernel.{Resource, World}
use debian_config_files.Modeset.Kernel.Balance.{Gains}
use debian_config_files.Modeset.Draw.{Shade}
use debian_config_files.Modeset.Main.Laws.{is_some, held_saved}
use debian_config_files.Double.Setup.{Dev}
use debian_config_files.Double.Setup.Balance.{held}
use debian_config_files.Double.Draw.{Display, draw_dev, draw_devs, frames, draw}

-- The saved CRTCs that the devices hold, and whether each holds one.
abbrev pub held_saved_all : Resource → List Dev → ℕ
held_saved_all r [] = 0
held_saved_all r (d ∷ devs) = held_saved r d.saved + held_saved_all r devs

abbrev pub all_saved : List Dev → Bool
all_saved [] = true
all_saved (d ∷ devs) = is_some d.saved && all_saved devs

module _ (r : Resource) where
  -- What a step that holds nothing more leaves as it was.
  pub record Keeps (devs : List Dev) (w : World) (out : List Dev × World) : Type 0 where
    pub log : Gains r w.log out.1.log 0
    pub devices : held r out.0 ≡ held r devs
    pub crtcs : held_saved_all r out.0 ≡ held_saved_all r devs
    pub saved : all_saved out.0 ≡ all_saved devs

  Keeps-trans :
      (devs : List Dev) (w : World) (mid out : List Dev × World)
      → Keeps devs w mid
      → Keeps mid.0 mid.1 out
      → Keeps devs w out
  Keeps-trans devs w mid out k l = record {
    log = (let a = k.log in let b = l.log in omega arith);
    devices = l.devices ∙ k.devices;
    crtcs = l.crtcs ∙ k.crtcs;
    saved = l.saved ∙ k.saved;
  }

  draw_devs-Keeps :
      (display : Display) (color : ℕ) (devs : List Dev) (w : World)
      → Keeps devs w (draw_devs display color devs w)
  unfolding draw_devs draw_dev
  draw_devs-Keeps display color [] w = record {
    log = omega arith;
    devices = refl;
    crtcs = refl;
    saved = refl;
  }
  draw_devs-Keeps display color (d ∷ devs) w =
      let (d', w') = draw_dev display color d w in
      let k = draw_devs-Keeps display color devs w' in
      record {
        log = (let a = k.log in omega arith);
        devices = (let a = k.devices in ground arith);
        crtcs = (let a = k.crtcs in ground arith);
        saved = (let a = k.saved in ground arith);
      }

  frames-Keeps :
      (display : Display) (n : ℕ) (devs : List Dev) (s : Shade) (w : World)
      → Keeps devs w (frames display n devs s w)
  unfolding frames
  frames-Keeps display zero devs s w = record {
    log = omega arith;
    devices = refl;
    crtcs = refl;
    saved = refl;
  }
  frames-Keeps display (suc n) devs s w =
      Keeps-trans devs w _ _ (draw_devs-Keeps display _ devs w) (frames-Keeps display n _ _ _)

  pub draw-Keeps :
      (display : Display) (devs : List Dev) (w : World) → Keeps devs w (draw display devs w)
  unfolding draw
  draw-Keeps display devs w = frames-Keeps display 50 devs _ w
