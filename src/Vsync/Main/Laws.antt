-- ===== src/Vsync/Main/Laws.antt =====
-- Runs of perftools/X/drm-howto/modeset-vsync.c with the card open and the devices set up.
use debian_config_files.Base.{
  ℕ, ◌≡◌, ◌≢◌, refl, ap, sym, ◌∙◌, Bool, true, false, some, List, [], ◌∷◌, All, if◌then◌else◌,
}
use debian_config_files.Modeset.Kernel.{SavedCrtc, saved_crtc, acquire, World}
use debian_config_files.Modeset.Setup.{note}
use debian_config_files.Double.Setup as Double
use debian_config_files.Double.Draw.{Display, front_of, back_of, program}
use debian_config_files.Double.Main.{save_crtc}
use debian_config_files.Vsync.Host.{Dev, Kernel, Host, set_at}
use debian_config_files.Vsync.Draw.{draw}
use debian_config_files.Vsync.Draw.Invariant.{
  ids_of, AllDistinct, Uses, Elsewhere, Ready, set_at-at, set_at-off,
}
use debian_config_files.Vsync.Draw.Start.{Outside, Outside-cons, own_crtc, draw-Kept}
use debian_config_files.Vsync.Draw.Safety.{Safe, Safe-and_then}
use debian_config_files.Vsync.Cleanup.Quiet.{cleanup-Quiet}
use debian_config_files.Vsync.Cleanup.{cleanup}
use debian_config_files.Vsync.Cleanup.Laws.{NoFailure, Quiet}
use debian_config_files.Vsync.Main.{Script, show_front, set_modes, present}

-- A device as `modeset_prepare` leaves it: its buffers are two framebuffers, and the second is not
-- shown yet.
pub record Fresh (k : Kernel) (d : Dev) : Type 0 where
  pub fbs : (front_of d.dev).fb ≢ (back_of d.dev).fb
  pub pending : d.pending ≡ false
  pub scan : k.scan d.dev.crtc ≢ (back_of d.dev).fb

-- The kernel knows each CRTC, and says which it describes.
abbrev pub Known : Display → Type 0
Known display = (c : ℕ) → (s : SavedCrtc) × (display.drm.get_crtc c ≡ some s) × (s.crtc_id ≡ c)

Fresh-others :
    (i : ℕ × ℕ) (k k' : Kernel) (devs : List Dev)
    → Elsewhere i.1 k k'
    → All (λ j. (i.0 ≢ j.0) × (i.1 ≢ j.1)) (ids_of devs)
    → All (Fresh k) devs
    → All (Fresh k') devs
Fresh-others i k k' [] e a r = tt
Fresh-others i k k' (d ∷ devs) e a r = (
  record {
    fbs = r.0.fbs;
    pending = r.0.pending;
    scan = rw (e.scan d.dev.crtc (λ q. a.0.1 (sym q))) r.0.scan;
  },
  Fresh-others i k k' devs e a.1 r.1,
)

module _ (display : Display) (known : Known display) where
  -- Showing a front buffer schedules no flip, and the back buffer is not shown.
  record Showed (d : Double.Dev) (k k' : Kernel) : Type 0 where
    elsewhere : Elsewhere d.crtc k k'
    flip : (c : ℕ) → k'.flip c ≡ k.flip c
    scan : k'.scan d.crtc ≢ (back_of d).fb

  show_front-Showed :
      (d : Double.Dev) (h : Host)
      → (front_of d).fb ≢ (back_of d).fb
      → h.kernel.scan d.crtc ≢ (back_of d).fb
      → Showed d h.kernel (show_front display d h).kernel
  unfolding show_front
  show_front-Showed d h n m = go (display.sets h.world.log (program d (front_of d)))
    where
      shown : Bool → Kernel
      shown b =
          if b
          then record h.kernel { scan = set_at d.crtc (front_of d).fb h.kernel.scan }
          else h.kernel

      go : (b : Bool) → Showed d h.kernel (shown b)
      go true = record {
        elsewhere = record {
          flip = λ c q. refl;
          scan = λ c q. set_at-off d.crtc c (front_of d).fb h.kernel.scan q;
        };
        flip = λ c. refl;
        scan = rw (set_at-at d.crtc (front_of d).fb h.kernel.scan) n;
      }
      go false = record {
        elsewhere = record { flip = λ c q. refl; scan = λ c q. refl };
        flip = λ c. refl;
        scan = m;
      }

  save_crtc-some :
      (d : Double.Dev) (w : World)
      → save_crtc display.drm d w ≡ (
        record d { saved = some (known d.crtc).0 },
        note (acquire (saved_crtc (known d.crtc).0.crtc_id)) w,
      )
  unfolding save_crtc
  save_crtc-some d w = rw ((known d.crtc).1, save_crtc) refl

  Ready-Outside :
      (is : List (ℕ × ℕ)) (k k' : Kernel) (d : Dev)
      → Outside is k k'
      → (Uses d.dev.crtc is → ⊥)
      → Ready d k
      → Ready d k'
  Ready-Outside is k k' d o n r = record {
    saved = r.saved;
    fbs = r.fbs;
    pending = r.pending;
    flip = o.flip d.dev.crtc n ∙ r.flip;
    scan = rw (o.scan d.dev.crtc n) r.scan;
  }

  -- The devices when drawing starts.
  record Shown (devs : List Dev) (k : Kernel) (out : List Dev × Host) : Type 0 where
    ready : All (λ d. Ready d out.1.kernel) out.0
    ids : ids_of out.0 ≡ ids_of devs
    outside : Outside (ids_of devs) k out.1.kernel
    flip : (c : ℕ) → out.1.kernel.flip c ≡ k.flip c

  set_modes-Shown :
      (devs : List Dev) (h : Host)
      → AllDistinct (ids_of devs)
      → All (Fresh h.kernel) devs
      → Quiet h
      → Shown devs h.kernel (set_modes display devs h)
  unfolding set_modes
  set_modes-Shown [] h u r q = record {
    ready = tt;
    ids = refl;
    outside = record { flip = λ c n. refl; scan = λ c n. refl };
    flip = λ c. refl;
  }
  set_modes-Shown (d ∷ devs) h u r q =
      let i : ℕ × ℕ = (d.dev.self, d.dev.crtc) in
      let (s, e, c) = known d.dev.crtc in
      let saved : Double.Dev = record d.dev { saved = some s } in
      let h' =
        show_front display saved
          (record h { world = note (acquire (saved_crtc s.crtc_id)) h.world }) in
      let one =
        show_front-Showed saved (record h { world = note (acquire (saved_crtc s.crtc_id)) h.world })
          r.0.fbs r.0.scan in
      let far : Elsewhere i.1 h.kernel h'.kernel = record {
        flip = one.elsewhere.flip;
        scan = one.elsewhere.scan;
      } in
      let rest =
        set_modes-Shown devs h' u.1 (Fresh-others i h.kernel h'.kernel devs far u.0 r.1)
          (λ x. one.flip x ∙ q x) in
      let (devs', h'') = set_modes display devs h' in
      let ready : Ready (record d { dev = saved }) h'.kernel = record {
        saved = (s, refl, c);
        fbs = r.0.fbs;
        pending = r.0.pending;
        flip = one.flip d.dev.crtc ∙ q d.dev.crtc;
        scan = one.scan;
      } in
      rw (save_crtc-some d.dev h.world) (record {
        ready = (
          Ready-Outside (ids_of devs) h'.kernel h''.kernel (record d { dev = saved }) rest.outside
              (own_crtc i (ids_of devs) u.0) ready,
          rest.ready,
        );
        ids = ap (λ is. i ∷ is) rest.ids;
        outside = Outside-cons i (ids_of devs) h.kernel h'.kernel h''.kernel far rest.outside;
        flip = λ x. rest.flip x ∙ one.flip x;
      })

  -- From the end of `modeset_prepare` to `close`, for devices on different CRTCs, which the kernel
  -- can describe, with two framebuffers each, the second of which is not shown, while no flip is
  -- pending: if no `drmHandleEvent` fails in the clean-up and the kernel sends no event of a flip
  -- that is not pending, the program reads no freed memory and no null pointer, and when it ends, no
  -- flip is pending.
  pub present-Quiet :
      (script : Script) (devs : List Dev) (h : Host)
      → NoFailure script.answers
      → AllDistinct (ids_of devs)
      → All (Fresh h.kernel) devs
      → Quiet h
      → Safe true Quiet (present display script devs h)
  unfolding present
  present-Quiet script devs h f u r q =
      let (devs', h') = set_modes display devs h in
      let s = set_modes-Shown devs h u r q in
      Safe-and_then true Quiet (draw display script.start script.rounds devs' h')
        (λ out. cleanup display script.answers out.0 out.1)
        (draw-Kept display script.start script.rounds devs' h' (rw s.ids u) s.ready
          (λ c. s.flip c ∙ q c))
        (λ out k. cleanup-Quiet display script.answers out.0 out.1 f k.inv)
