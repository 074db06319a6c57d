-- ===== src/Modeset13/Draw/Nested.antt =====
-- What the three passes of `modeset_draw2` of perftools/X/drm-howto/modeset13.c leave on a screen.
use debian_config_files.Base.{
  ℕ, ◌+◌, ◌-◌, ◌*◌, ◌≤◌, ◌<◌, ◌≡◌, refl, subst, ◌∙◌, true, none, some, List, [], ◌∷◌, All, arith,
  if◌then◌else◌,
}
use debian_config_files.Modeset.Crtc.{Dev}
use debian_config_files.Modeset.Draw.{Memory, Buf, buf_of}
use debian_config_files.Modeset.Draw.Pixels.{Outside}
use debian_config_files.Double.Draw.Screen.{Apart}
use debian_config_files.Modeset13.Draw.{less, fill_inner, fill_all, red, green, blue, draw2}
use debian_config_files.Modeset13.Draw.Band.{Fits, fill_band-Outside}
use debian_config_files.Modeset13.Draw.Pictures.{
  inside, Holds, Picture, over, fill_inner-Paints, AllPaint, AllApart, Paints-kept,
}

module _ (a color : ℕ) where
  fill_inner-Outside :
      (d : Buf) (memory : Memory) (p : ℕ)
      → Fits a d
      → Outside p d.map d.size
      → fill_inner d color a memory p ≡ memory p
  unfolding fill_inner
  fill_inner-Outside d memory p v o =
      let tall = v.tall in
      let bits = v.height_bits in
      fill_band-Outside d color a v a (less d.height a - a) memory p (omega arith) o

  fill_all-Outside :
      (devs : List Dev) (memory : Memory) (p : ℕ)
      → All (λ d. Fits a (buf_of d)) devs
      → All (λ d. Outside p d.map d.size) devs
      → fill_all a color devs memory p ≡ memory p
  unfolding fill_all
  fill_all-Outside [] memory p v o = refl
  fill_all-Outside (d ∷ devs) memory p v o =
      fill_all-Outside devs _ p v.1 o.1 ∙ fill_inner-Outside (buf_of d) memory p v.0 o.0

  -- An address in one mapping is in none of the mappings apart from it.
  Apart-Outside :
      (d : Buf) (devs : List Dev) (p : ℕ)
      → All (λ e. Apart d (buf_of e)) devs
      → d.map ≤ p
      → p < d.map + d.size
      → All (λ e. Outside p e.map e.size) devs
  Apart-Outside d [] p o lo hi = tt
  Apart-Outside d (e ∷ devs) p o lo hi = (ground arith, Apart-Outside d devs p o.1 lo hi)

  inner-AllPaint :
      (d : Buf) (devs : List Dev) (f : Dev → Picture) (memory : Memory)
      → Fits a d
      → All (λ e. Fits a (buf_of e)) devs
      → All (λ e. Apart d (buf_of e)) devs
      → AllPaint devs f memory
      → AllPaint devs f (fill_inner d color a memory)
  inner-AllPaint d [] f memory v vs o h = tt
  inner-AllPaint d (e ∷ devs) f memory v vs o h = (
    Paints-kept (buf_of e) (f e) memory _ vs.0.covers
        (λ p lo hi. fill_inner-Outside d memory p v (ground arith)) h.0,
    inner-AllPaint d devs f memory v vs.1 o.1 h.1,
  )

  fill_all-AllPaint :
      (devs : List Dev) (f : Dev → Picture) (memory : Memory)
      → All (λ d. Fits a (buf_of d)) devs
      → AllApart devs
      → AllPaint devs f memory
      → AllPaint devs (λ d. over a color (buf_of d) (f d)) (fill_all a color devs memory)
  unfolding fill_all
  fill_all-AllPaint [] f memory v o h = tt
  fill_all-AllPaint (d ∷ devs) f memory v o h = (
    Paints-kept (buf_of d) (over a color (buf_of d) (f d)) (fill_inner (buf_of d) color a memory) _
        v.0.covers
        (λ p lo hi. fill_all-Outside devs _ p v.1 (Apart-Outside (buf_of d) devs p o.0 lo hi))
        (fill_inner-Paints a color (buf_of d) (f d) memory v.0 h.0),
    fill_all-AllPaint devs f _ v.1 o.1 (inner-AllPaint (buf_of d) devs f memory v.0 v.1 o.0 h.1),
  )

-- Room for an edge is room for a narrower one.
Fits-narrower : (a b : ℕ) (d : Buf) → a ≤ b → Fits b d → Fits a d
Fits-narrower a b d h v = record {
  covers = v.covers;
  wide = omega (arith, v.wide);
  tall = omega (arith, v.tall);
  width_bits = v.width_bits;
  height_bits = v.height_bits;
}

All-narrower :
    (a : ℕ) (devs : List Dev)
    → a ≤ 200
    → All (λ d. Fits 200 (buf_of d)) devs
    → All (λ d. Fits a (buf_of d)) devs
All-narrower a [] h v = tt
All-narrower a (d ∷ devs) h v = (Fits-narrower a 200 (buf_of d) h v.0, All-narrower a devs h v.1)

-- The picture: blue from 200 pixels off the edges on, green from 100 on, and red.
abbrev pub nested : Buf → Picture
nested d i k =
    if inside d 200 i k then some blue else if inside d 100 i k then some green else some red

nothing-AllPaint : (devs : List Dev) (memory : Memory) → AllPaint devs (λ d i k. none) memory
nothing-AllPaint [] memory = tt
nothing-AllPaint (d ∷ devs) memory = ((λ i k hi hk. tt), nothing-AllPaint devs memory)

-- The red pass leaves no pixel out.
nested_all :
    (devs : List Dev) (memory : Memory)
    → AllPaint devs
        (λ d.
          over 200 blue
            (buf_of d)
            (over 100 green (buf_of d) (over 0 red (buf_of d) (λ i k. none))))
        memory
    → AllPaint devs (λ d. nested (buf_of d)) memory
nested_all [] memory h = tt
nested_all (d ∷ devs) memory h = (
  λ i k hi hk.
      subst
        (λ b. Holds memory (d.map + (d.stride * i + k * 4)) (
          if inside (buf_of d) 200 i k
          then some blue
          else if inside (buf_of d) 100 i k
          then some green
          else if b
          then some red
          else none))
        {x = inside (buf_of d) 0 i k} {y = true} (ground arith) (h.0 i k hi hk),
  nested_all devs memory h.1,
)

-- On screens of at least 200 by 200 pixels, whose buffers cover their pixels and do not overlap,
-- `modeset_draw2` leaves three nested rectangles on every screen: each pixel that is at least 200
-- pixels away from all edges is blue, each other that is at least 100 away is green, and the rest
-- is red. Outside the mapped framebuffers it writes nothing.
pub draw2-Nested :
    (devs : List Dev) (memory : Memory)
    → All (λ d. Fits 200 (buf_of d)) devs
    → AllApart devs
    → AllPaint devs (λ d. nested (buf_of d)) (draw2 devs memory)
      × ((p : ℕ) → All (λ d. Outside p d.map d.size) devs → draw2 devs memory p ≡ memory p)
unfolding draw2
draw2-Nested devs memory v o =
    let v₁ = All-narrower 100 devs (omega arith) v in
    let v₀ = All-narrower 0 devs (omega arith) v in
    (
      nested_all devs _ (
          fill_all-AllPaint 200 blue devs _ _ v o (
            fill_all-AllPaint 100 green devs _ _ v₁ o
              (fill_all-AllPaint 0 red devs _ memory v₀ o (nothing-AllPaint devs memory)))),
      λ p out.
          fill_all-Outside 200 blue devs _ p v out
          ∙ fill_all-Outside 100 green devs _ p v₁ out
          ∙ fill_all-Outside 0 red devs memory p v₀ out,
    )
