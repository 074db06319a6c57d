-- ===== src/Vsync/Draw/Tearing.antt =====
-- What the screens show while page-flip events are handled in
-- perftools/X/drm-howto/modeset-vsync.c.
use debian_config_files.Base.{
  ℕ, ◌≡◌, inl, inr, refl, ap, sym, subst, ◌∙◌, false, some, List, [], ◌∷◌, All,
}
use debian_config_files.Modeset.Draw.{Buf, Memory}
use debian_config_files.Modeset.Draw.Pixels.{Covers}
use debian_config_files.Double.Draw.{Display, front_of, back_of}
use debian_config_files.Double.Draw.Screen.{Apart, Apart-sym, bufs_of, Layout, front-All, own_front}
use debian_config_files.Vsync.Host.{
  Dev, Flip, Kernel, Host, Outcome, ended, blocked, crashed, undocumented,
}
use debian_config_files.Vsync.Draw.{arrived, finish_flip, page_flip_event, handle_event}
use debian_config_files.Vsync.Draw.Invariant.{Good, ids_of, AllDistinct, Uses, Inv, set_at-at}
use debian_config_files.Vsync.Draw.Events.{
  waiting-Good, fresh_self, with_first, page_flip_event-found, page_flip_event-missed,
}
use debian_config_files.Vsync.Draw.Safety.{Safe, Kept, handle_event-some, handle_event-Kept}
use debian_config_files.Vsync.Draw.Untouched.{
  inner, SameBytes, After, After-Safe, both-All, Untouched, finish_flip-Untouched,
  page_flip_event-Untouched,
}

-- If a device's CRTC shows one of its buffers, no byte of it differs.
abbrev pub Steady : (ℕ → ℕ) → Memory → Memory → Dev → Type 0
Steady scan m m' d =
    (d.dev.buf0.fb ≡ scan d.dev.crtc → SameBytes d.dev.buf0 m m')
    × (d.dev.buf1.fb ≡ scan d.dev.crtc → SameBytes d.dev.buf1 m m')

-- The devices whose buffers lie apart from one that is drawn.
Steady-others :
    (scan : ℕ → ℕ) (b : Buf) (h h' : Host) (devs : List Dev)
    → ((c : Buf) → Apart c b → SameBytes c h.world.memory h'.world.memory)
    → All (Apart b) (bufs_of (inner devs))
    → All (Steady scan h.world.memory h'.world.memory) devs
Steady-others scan b h h' [] f a = tt
Steady-others scan b h h' (d ∷ devs) f a = (
  (
    λ e. f d.dev.buf0 (Apart-sym b d.dev.buf0 a.0),
    λ e. f d.dev.buf1 (Apart-sym b d.dev.buf1 a.1.0),
  ),
  Steady-others scan b h h' devs f a.1.1,
)

-- A device before those that are handled.
below-Steady :
    (d : Dev) (devs : List Dev) (h : Host) (o : Outcome (List Dev × Host))
    → After (λ out. Untouched d.dev.buf0 h out.1) o
    → After (λ out. Untouched d.dev.buf1 h out.1) o
    → After (λ out. All (Steady h.kernel.scan h.world.memory out.1.world.memory) devs) o
    → After
        (λ out. All (Steady h.kernel.scan h.world.memory out.1.world.memory) (d ∷ devs))
        (with_first d o)
below-Steady d devs h (ended (ds, h')) u0 u1 r = ((λ e. u0.bytes, λ e. u1.bytes), r)
below-Steady d devs h blocked u0 u1 r = r
below-Steady d devs h crashed u0 u1 r = r
below-Steady d devs h undocumented u0 u1 r = r

module _ (display : Display) where
  -- The device whose flip happened: its front buffer is shown and is not drawn.
  finish_flip-Steady :
      (d : Dev) (h : Host) (k : Kernel) (f : Flip)
      → Good k d
      → k.flip d.dev.crtc ≡ some f
      → h.kernel ≡ arrived d.dev.crtc f k
      → Covers (back_of d.dev)
      → Apart d.dev.buf0 d.dev.buf1
      → Steady h.kernel.scan h.world.memory (finish_flip display d h).1.world.memory d
  finish_flip-Steady d h k f g e a v o =
      let fb = ap (λ x. x.fb) (waiting-Good k d f g e).1 in
      let scan : h.kernel.scan d.dev.crtc ≡ (front_of d.dev).fb =
        ap (λ x. x.scan d.dev.crtc) a ∙ set_at-at d.dev.crtc f.fb k.scan ∙ fb in
      both-All
        (λ b.
          b.fb ≡ h.kernel.scan d.dev.crtc
          → SameBytes b h.world.memory (finish_flip display d h).1.world.memory)
        d.dev
        (λ q. (finish_flip-Untouched display (front_of d.dev) d h v (own_front d.dev o)).bytes)
        (λ q. absurd (g.fbs (sym (q ∙ scan))))

  page_flip_event-Steady :
      (crtc : ℕ) (f : Flip) (k : Kernel) (devs : List Dev) (h : Host)
      → All (Good k) devs
      → AllDistinct (ids_of devs)
      → Uses crtc (ids_of devs)
      → k.flip crtc ≡ some f
      → h.kernel ≡ arrived crtc f k
      → Layout (bufs_of (inner devs))
      → After
          (λ out. All (Steady h.kernel.scan h.world.memory out.1.world.memory) devs)
          (page_flip_event display f.user devs h)
  unfolding page_flip_event
  page_flip_event-Steady crtc f k [] h g u s e a l = tt
  page_flip_event-Steady crtc f k (d ∷ devs) h g u (inl here) e a l =
      let P : List Dev × Host → Type 0 =
        λ out. All (Steady h.kernel.scan h.world.memory out.1.world.memory) (d ∷ devs) in
      let e' : k.flip d.dev.crtc ≡ some f = ap k.flip here ∙ e in
      let a' : h.kernel ≡ arrived d.dev.crtc f k = a ∙ ap (λ c. arrived c f k) (sym here) in
      let user = ap (λ x. x.user) (waiting-Good k d f g.0 e').1 in
      let v = (front-All Covers d.dev l.covers.0 l.covers.1.0).1 in
      subst (After P) (sym (page_flip_event-found display d devs h f.user user)) (
        finish_flip-Steady d h k f g.0 e' a' v l.apart.0.0,
        Steady-others h.kernel.scan (back_of d.dev) h (finish_flip display d h).1 devs
            (λ c o. (finish_flip-Untouched display c d h v o).bytes)
            (front-All (λ b. All (Apart b) (bufs_of (inner devs))) d.dev l.apart.0.1 l.apart.1.0).1,
      )
  page_flip_event-Steady crtc f k (d ∷ devs) h g u (inr there) e a l =
      let P : List Dev × Host → Type 0 =
        λ out. All (Steady h.kernel.scan h.world.memory out.1.world.memory) (d ∷ devs) in
      let n = fresh_self k (d.dev.self, d.dev.crtc) devs crtc f g.1 e u.0 there in
      let l' : Layout (bufs_of (inner devs)) = record {
        covers = l.covers.1.1;
        apart = l.apart.1.1;
      } in
      subst (After P) (sym (page_flip_event-missed display d devs h f.user n)) (
        below-Steady d devs h (page_flip_event display f.user devs h)
          (page_flip_event-Untouched display d.dev.buf0 f.user devs h l'.covers l.apart.0.1)
          (page_flip_event-Untouched display d.dev.buf1 f.user devs h l'.covers l.apart.1.0)
          (page_flip_event-Steady crtc f k devs h g.1 u.1 there e a l'))

  -- No screen tears: where each pending flip is of the front buffer of a device that waits for it,
  -- and the buffers cover their pixels and do not overlap, the handling of a flip's event redraws a
  -- buffer, but changes no byte of one that a device's CRTC shows when the flip has happened.
  pub handle_event-Steady :
      (crtc : ℕ) (f : Flip) (devs : List Dev) (h : Host)
      → h.kernel.flip crtc ≡ some f
      → Inv devs h.kernel
      → Layout (bufs_of (inner devs))
      → Safe false
          (λ out.
            All (Steady (arrived crtc f h.kernel).scan h.world.memory out.1.world.memory) devs)
          (handle_event display crtc devs h)
  handle_event-Steady crtc f devs h e i l =
      let h' : Host = record h { kernel = arrived crtc f h.kernel } in
      let P : List Dev × Host → Type 0 =
        λ out. All (Steady h'.kernel.scan h.world.memory out.1.world.memory) devs in
      After-Safe (Kept devs) P (handle_event display crtc devs h)
        (handle_event-Kept display crtc devs h i)
        (subst (After P) (sym (handle_event-some display crtc devs h f e)) (
          page_flip_event-Steady crtc f h.kernel devs h' i.good i.distinct (i.owned crtc f e) e refl
            l))
