-- ===== src/Double/Draw/Screen.antt =====
-- What the screens show while `modeset_draw` of perftools/X/drm-howto/modeset-double-buffered.c
-- runs: the front buffers.
use debian_config_files.Base.{
  ℕ, zero, suc, ◌+◌, ◌≤◌, ◌<◌, ◌≡◌, ◌⊎◌, inl, inr, refl, subst, Bool, true, false, List, [], ◌∷◌,
  All, arith, get_elem?, some, some_inj,
}
use debian_config_files.Modeset.Draw.{Buf, Memory, fill_rows}
use debian_config_files.Modeset.Draw.Pixels.{Covers, fill_rows_part, Shows, Shows-kept}
use debian_config_files.Double.Setup.{Dev}
use debian_config_files.Double.Draw.{front_of, back_of, paint}

-- The mappings of two buffers do not overlap.
abbrev pub Apart : Buf → Buf → Type 0
Apart b c = (b.map + b.size ≤ c.map) ⊎ (c.map + c.size ≤ b.map)

abbrev pub AllApart : List Buf → Type 0
AllApart [] = Unit
AllApart (b ∷ bufs) = All (Apart b) bufs × AllApart bufs

abbrev pub bufs_of : List Dev → List Buf
bufs_of [] = []
bufs_of (d ∷ devs) = d.buf0 ∷ d.buf1 ∷ bufs_of devs

-- The buffers as the kernel hands them out: each covers its pixels, and no two overlap.
pub record Layout (bufs : List Buf) : Type 0 where
  pub covers : All Covers bufs
  pub apart : AllApart bufs

-- Each device's front buffer shows its colour in the list.
abbrev pub Screens : List Dev → List ℕ → Memory → Type 0
Screens [] [] memory = Unit
Screens [] (c ∷ colors) memory = ⊥
Screens (d ∷ devs) [] memory = ⊥
Screens (d ∷ devs) (c ∷ colors) memory = Shows (front_of d) c memory × Screens devs colors memory

paint_part :
    (b c : Buf) (color n : ℕ) (memory : Memory) (p : ℕ)
    → Covers b
    → n ≤ b.height
    → Apart c b
    → c.map ≤ p
    → p < c.map + c.size
    → fill_rows b color 0 n memory p ≡ memory p
paint_part b c color n memory p v le (inl before) lo hi =
    fill_rows_part b color n memory p v le (inl (omega arith))
paint_part b c color n memory p v le (inr after) lo hi =
    fill_rows_part b color n memory p v le (inr (omega arith))

-- Painting a buffer changes no byte of another.
pub paint-Apart :
    (b c : Buf) (color : ℕ) (memory : Memory) (p : ℕ)
    → Covers b
    → Apart c b
    → c.map ≤ p
    → p < c.map + c.size
    → paint b color memory p ≡ memory p
unfolding paint
paint-Apart b c color memory p v a lo hi =
    paint_part b c color b.height memory p v (omega arith) a lo hi

pub Apart-sym : (b c : Buf) → Apart b c → Apart c b
Apart-sym b c (inl h) = inr h
Apart-sym b c (inr h) = inl h

pub Shows-paint_part :
    (b c : Buf) (color n x : ℕ) (memory : Memory)
    → Covers b
    → Covers c
    → n ≤ b.height
    → Apart c b
    → Shows c x memory
    → Shows c x (fill_rows b color 0 n memory)
Shows-paint_part b c color n x memory vb vc le o h =
    Shows-kept c x memory _ vc (λ p lo hi. paint_part b c color n memory p vb le o lo hi) h

-- A buffer of a device is one of its two; so what holds of both holds of it.
pub front-All : (P : Buf → Type 0) (d : Dev) → P d.buf0 → P d.buf1 → P (front_of d) × P (back_of d)
front-All P d h0 h1 = go d.front refl
  where
    go : (f : Bool) → d.front ≡ f → P (front_of d) × P (back_of d)
    go true e = (rw e h1, rw e h0)
    go false e = (rw e h0, rw e h1)

-- The front buffers of the devices lie apart from a buffer.
abbrev pub Clear : Buf → List Dev → Type 0
Clear b devs = All (λ d. Covers (front_of d) × Apart (front_of d) b) devs

pub Screens-paint_part :
    (b : Buf) (color n : ℕ) (devs : List Dev) (colors : List ℕ) (memory : Memory)
    → n ≤ b.height
    → Covers b
    → Clear b devs
    → Screens devs colors memory
    → Screens devs colors (fill_rows b color 0 n memory)
Screens-paint_part b color n [] [] memory le v a h = tt
Screens-paint_part b color n [] (c ∷ colors) memory le v a h = absurd h
Screens-paint_part b color n (d ∷ devs) [] memory le v a h = absurd h
Screens-paint_part b color n (d ∷ devs) (c ∷ colors) memory le v a h = (
  Shows-paint_part b (front_of d) color n c memory v a.0.0 le a.0.1 h.0,
  Screens-paint_part b color n devs colors memory le v a.1 h.1,
)

-- A buffer that lies apart from those of all devices.
pub Clear-Apart :
    (b : Buf) (devs : List Dev)
    → All Covers (bufs_of devs)
    → All (Apart b) (bufs_of devs)
    → Clear b devs
Clear-Apart b [] v a = tt
Clear-Apart b (d ∷ devs) v a = (
  ((front-All Covers d v.0 v.1.0).0, Apart-sym b (front_of d) (front-All (Apart b) d a.0 a.1.0).0),
  Clear-Apart b devs v.1.1 a.1.1,
)

pub own_front : (d : Dev) → Apart d.buf0 d.buf1 → Apart (front_of d) (back_of d)
own_front d h = go d.front refl
  where
    go : (f : Bool) → d.front ≡ f → Apart (front_of d) (back_of d)
    go true e = rw e (Apart-sym d.buf0 d.buf1 h)
    go false e = rw e h

-- The buffers of a device of the list, among those of all.
pub at_device :
    (P : Buf → Type 0) (devs : List Dev) (k : ℕ) {e : Dev}
    → get_elem? devs k ≡ some e
    → All P (bufs_of devs)
    → P (back_of e)
at_device P [] k g h = absurd (ground arith)
at_device P (d ∷ devs) zero g h =
    subst (λ x. P (back_of x)) (some_inj g) (front-All P d h.0 h.1.0).1
at_device P (d ∷ devs) (suc k) g h = at_device P devs k g h.1.1

pub Clear-back_of :
    (devs : List Dev) (k : ℕ) {e : Dev}
    → get_elem? devs k ≡ some e
    → All Covers (bufs_of devs)
    → AllApart (bufs_of devs)
    → Clear (back_of e) devs
Clear-back_of [] k g v a = absurd (ground arith)
Clear-back_of (d ∷ devs) zero {e} g v a =
    subst (λ x. Clear (back_of x) (d ∷ devs)) (some_inj g)
      (
        ((front-All Covers d v.0 v.1.0).0, own_front d a.0.0),
        Clear-Apart (back_of d) devs v.1.1
            (front-All (λ b. All (Apart b) (bufs_of devs)) d a.0.1 a.1.0).1,
      )
Clear-back_of (d ∷ devs) (suc k) {e} g v a = (
  (
    (front-All Covers d v.0 v.1.0).0,
    at_device (Apart (front_of d)) devs k g
        (front-All (λ b. All (Apart b) (bufs_of devs)) d a.0.1 a.1.0).0,
  ),
  Clear-back_of devs k g v.1.1 a.1.1,
)

-- With buffers that cover their pixels and do not overlap: while a new frame is painted for any
-- device, however many of its rows are done, every screen shows its colour as before, so no frame is
-- seen half-drawn.
pub Screens-fill_rows :
    (devs : List Dev) (colors : List ℕ) (memory : Memory) (k : ℕ) (e : Dev) (color n : ℕ)
    → Layout (bufs_of devs)
    → Screens devs colors memory
    → get_elem? devs k ≡ some e
    → n ≤ (back_of e).height
    → Screens devs colors (fill_rows (back_of e) color 0 n memory)
Screens-fill_rows devs colors memory k e color n l h g le =
    Screens-paint_part (back_of e) color n devs colors memory le
      (at_device Covers devs k g l.covers) (Clear-back_of devs k g l.covers l.apart) h
