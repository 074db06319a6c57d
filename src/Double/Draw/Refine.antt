-- ===== src/Double/Draw/Refine.antt =====
-- `modeset_draw` of perftools/X/drm-howto/modeset-double-buffered.c against what a viewer sees.
use debian_config_files.Base.{
  ℕ, zero, suc, ◌≡◌, inl, inr, refl, sym, subst, not, List, [], ◌∷◌, All, arith, Bool-cases,
}
use debian_config_files.Modeset.Kernel.{Log, World}
use debian_config_files.Modeset.Draw.{Buf, Shade, color_of, next_shade, start_shade}
use debian_config_files.Modeset.Draw.Pixels.{Covers, fill_rows-pixel, Shows}
use debian_config_files.Double.Setup.{Dev}
use debian_config_files.Double.Draw.{
  Display, front_of, back_of, program, paint, draw_dev, draw_devs, frames, draw,
}
use debian_config_files.Double.Draw.View.{
  Screen, screen_of, screens_of, colors_of, turn, frame, view,
}
use debian_config_files.Double.Draw.Screen.{
  Apart, bufs_of, Layout, Screens, Shows-paint_part, Screens-paint_part, own_front, front-All,
  Clear-Apart,
}

module _ (display : Display) where
  buf0-draw_dev : (color : ℕ) (d : Dev) (w : World) → (draw_dev display color d w).0.buf0 ≡ d.buf0
  unfolding draw_dev
  buf0-draw_dev color d w = ground arith

  buf1-draw_dev : (color : ℕ) (d : Dev) (w : World) → (draw_dev display color d w).0.buf1 ≡ d.buf1
  unfolding draw_dev
  buf1-draw_dev color d w = ground arith

  bufs_of-draw_devs :
      (color : ℕ) (devs : List Dev) (w : World)
      → bufs_of (draw_devs display color devs w).0 ≡ bufs_of devs
  unfolding draw_devs
  bufs_of-draw_devs color [] w = refl
  bufs_of-draw_devs color (d ∷ devs) w =
      rw
        (
          buf0-draw_dev color d w,
          buf1-draw_dev color d w,
          bufs_of-draw_devs color devs (draw_dev display color d w).1,
        )
        refl

  -- Drawing leaves alone what lies apart from the buffers.
  Shows-draw_devs :
      (color : ℕ) (devs : List Dev) (w : World) (c : Buf) (x : ℕ)
      → Covers c
      → All Covers (bufs_of devs)
      → All (Apart c) (bufs_of devs)
      → Shows c x w.memory
      → Shows c x (draw_devs display color devs w).1.memory
  unfolding draw_devs draw_dev paint
  Shows-draw_devs color [] w c x vc v a h = h
  Shows-draw_devs color (d ∷ devs) w c x vc v a h =
      let b = back_of d in
      Shows-draw_devs color devs (draw_dev display color d w).1 c x vc v.1.1 a.1.1 (
        Shows-paint_part b c color b.height x w.memory (front-All Covers d v.0 v.1.0).1 vc
          (omega arith) (front-All (Apart c) d a.0 a.1.0).1 h)

  front_of-flipped : (d : Dev) → front_of (record d { front = not d.front }) ≡ back_of d
  front_of-flipped d = elim (Bool-cases d.front) [ inl e ↦ rw e refl | inr e ↦ rw e refl ]

  back_of-flipped : (d : Dev) → back_of (record d { front = not d.front }) ≡ front_of d
  back_of-flipped d = elim (Bool-cases d.front) [ inl e ↦ rw e refl | inr e ↦ rw e refl ]

  -- After its turn the front buffer of a device shows what the viewer sees.
  draw_dev-turn :
      (color x : ℕ) (d : Dev) (w : World)
      → Covers d.buf0
      → Covers d.buf1
      → Apart d.buf0 d.buf1
      → Shows (front_of d) x w.memory
      → Shows
          (front_of (draw_dev display color d w).0)
          (turn display color (screen_of d x) w.log).color
          (draw_dev display color d w).1.memory
  unfolding draw_dev paint
  draw_dev-turn color x d w v0 v1 o h =
      let v = front-All Covers d v0 v1 in
      let b = back_of d in
      elim (Bool-cases (display.sets w.log (program d (back_of d)))) [
        | inl set ↦ rw set (
            subst (λ c. Shows c color (paint b color w.memory)) (sym (front_of-flipped d))
              (λ i k hi hk. fill_rows-pixel b color w.memory i k v.1 hi hk))
        | inr failed ↦ rw failed (
            Shows-paint_part b (front_of d) color b.height x w.memory v.1 v.0 (omega arith)
              (own_front d o) h)
      ]

  -- The device is then that of the screen.
  screen_of-draw_dev :
      (color x : ℕ) (d : Dev) (w : World)
      → screen_of (draw_dev display color d w).0 (turn display color (screen_of d x) w.log).color
        ≡ turn display color (screen_of d x) w.log
  unfolding draw_dev
  screen_of-draw_dev color x d w = elim (Bool-cases (display.sets w.log (program d (back_of d)))) [
    | inl set ↦ rw (set, front_of-flipped d, back_of-flipped d) refl
    | inr failed ↦ rw failed refl
  ]

  Layout-tail : (d : Dev) (devs : List Dev) → Layout (bufs_of (d ∷ devs)) → Layout (bufs_of devs)
  Layout-tail d devs l = record { covers = l.covers.1.1; apart = l.apart.1.1 }

  front-draw_dev :
      (P : Buf → Type 0) (color : ℕ) (d : Dev) (w : World)
      → P d.buf0
      → P d.buf1
      → P (front_of (draw_dev display color d w).0)
  front-draw_dev P color d w h0 h1 =
      (front-All P (draw_dev display color d w).0 (subst P (sym (buf0-draw_dev color d w)) h0)
        (subst P (sym (buf1-draw_dev color d w)) h1)).0

  -- One frame is what a viewer sees, and the calls are those that it takes.
  record Framed (color : ℕ) (xs : List ℕ) (devs : List Dev) (log : Log) (out : List Dev × World)
      : Type 0 where
    calls : out.1.log ≡ (frame display color (screens_of devs xs) log).1
    same :
        screens_of out.0 (colors_of (frame display color (screens_of devs xs) log).0)
        ≡ (frame display color (screens_of devs xs) log).0
    screens :
        Screens out.0 (colors_of (frame display color (screens_of devs xs) log).0) out.1.memory

  draw_devs-Framed :
      (color : ℕ) (devs : List Dev) (xs : List ℕ) (w : World)
      → Layout (bufs_of devs)
      → Screens devs xs w.memory
      → Framed color xs devs w.log (draw_devs display color devs w)
  unfolding draw_devs draw_dev paint
  draw_devs-Framed color [] [] w l h = record { calls = refl; same = refl; screens = tt }
  draw_devs-Framed color [] (x ∷ xs) w l h = absurd h
  draw_devs-Framed color (d ∷ devs) [] w l h = absurd h
  draw_devs-Framed color (d ∷ devs) (x ∷ xs) w l h =
      let v = front-All Covers d l.covers.0 l.covers.1.0 in
      let a = front-All (λ b. All (Apart b) (bufs_of devs)) d l.apart.0.1 l.apart.1.0 in
      let (d', w') = draw_dev display color d w in
      let s = turn display color (screen_of d x) w.log in
      let one = draw_dev-turn color x d w l.covers.0 l.covers.1.0 l.apart.0.0 h.0 in
      let below =
        Screens-paint_part (back_of d) color (back_of d).height devs xs w.memory (omega arith) v.1
          (Clear-Apart (back_of d) devs l.covers.1.1 a.1) h.1 in
      let rest = draw_devs-Framed color devs xs w' (Layout-tail d devs l) below in
      record {
        calls = rest.calls;
        same = rw (screen_of-draw_dev color x d w, rest.same) refl;
        screens = (
          Shows-draw_devs color devs w' (front_of d') s.color
              (front-draw_dev Covers color d w l.covers.0 l.covers.1.0) l.covers.1.1
              (front-draw_dev (λ b. All (Apart b) (bufs_of devs)) color d w l.apart.0.1 l.apart.1.0)
              one,
          rest.screens,
        );
      }

  -- The devices after a run, and what a viewer sees after the frames.
  abbrev pub Viewed : ℕ → Shade → List Screen → Log → List Dev × World → Type 0
  Viewed n shade screens log out =
      (ys : List ℕ) × (screens_of out.0 ys ≡ (view display n shade screens log).0)
      × (out.1.log ≡ (view display n shade screens log).1)
      × Screens out.0 ys out.1.memory

  frames-Viewed :
      (n : ℕ) (devs : List Dev) (s : Shade) (xs : List ℕ) (w : World)
      → Layout (bufs_of devs)
      → Screens devs xs w.memory
      → Viewed n s (screens_of devs xs) w.log (frames display n devs s w)
  unfolding frames view
  frames-Viewed zero devs s xs w l h = (xs, refl, refl, h)
  frames-Viewed (suc n) devs s xs w l h =
      let s' = next_shade display.drm s in
      let (devs', w') = draw_devs display (color_of s') devs w in
      let one = draw_devs-Framed (color_of s') devs xs w l h in
      let l' : Layout (bufs_of devs') = rw (bufs_of-draw_devs (color_of s') devs w) l in
      let more =
        frames-Viewed n devs' s'
          (colors_of (frame display (color_of s') (screens_of devs xs) w.log).0) w' l'
          one.screens in
      subst
        (λ ss.
          Viewed n s' ss (frame display (color_of s') (screens_of devs xs) w.log).1
            (frames display n devs' s' w'))
        one.same
        (subst
          (λ log.
            Viewed n s'
              (screens_of devs'
                (colors_of (frame display (color_of s') (screens_of devs xs) w.log).0))
              log (frames display n devs' s' w'))
          one.calls more)

  -- With buffers that cover their pixels and do not overlap, `modeset_draw` does what a viewer
  -- expects of 50 frames, whose colours are the next of the sequence: in each frame the kernel is
  -- asked once for each device, in order, to show the buffer that is not shown; where it does so,
  -- the two buffers change places and the whole screen has the frame's colour, and where it fails the
  -- screen keeps its buffer and its colour. The calls are those, and at the end each front buffer is
  -- the one that the kernel shows and holds the screen's colour in every pixel.
  pub draw-Viewed :
      (devs : List Dev) (xs : List ℕ) (w : World)
      → Layout (bufs_of devs)
      → Screens devs xs w.memory
      → Viewed 50 (start_shade display.drm) (screens_of devs xs) w.log (draw display devs w)
  unfolding draw
  draw-Viewed devs xs w l h = frames-Viewed 50 devs (start_shade display.drm) xs w l h
