-- ===== src/Vsync/Cleanup/Freed.antt =====
-- What happens in `modeset_cleanup` of perftools/X/drm-howto/modeset-vsync.c after an error of
-- `drmHandleEvent`.
use debian_config_files.Base.{
  ℕ, suc, ◌≡◌, ◌≢◌, refl, ap, sym, subst, inl, inr, Option-cases, ◌∙◌, true, some, List, [], ◌∷◌,
  All, length,
}
use debian_config_files.Modeset.Kernel.{saved_crtc, release, World}
use debian_config_files.Modeset.Setup.{note}
use debian_config_files.Double.Draw.{Display, front_of, back_of}
use debian_config_files.Double.Main.{free_buffers}
use debian_config_files.Vsync.Host.{Dev, Flip, Host, ended, crashed, Answer, failed, events}
use debian_config_files.Vsync.Draw.{arrived, page_flip_event, handle_events}
use debian_config_files.Vsync.Draw.Invariant.{Phase, ids_of, Inv}
use debian_config_files.Vsync.Draw.Events.{with_first, page_flip_event-missed}
use debian_config_files.Vsync.Draw.Safety.{and_then, handle_event-some}
use debian_config_files.Vsync.Cleanup.Quiet.{free_first}
use debian_config_files.Vsync.Cleanup.{wait_flip, free_dev, cleanup_devs, cleanup}
use debian_config_files.Vsync.Cleanup.Live.{wait_flip-events}

module _ (display : Display) where
  -- The pointer of a device that was freed.
  page_flip_event-freed :
      (user : ℕ) (x : ℕ) (devs : List Dev) (h : Host)
      → All (λ j. (user ≢ j.0) × (x ≢ j.1)) (ids_of devs)
      → page_flip_event display user devs h ≡ crashed
  unfolding page_flip_event
  page_flip_event-freed user x [] h a = refl
  page_flip_event-freed user x (d ∷ devs) h a =
      page_flip_event-missed display d devs h user (λ q. a.0.0 (sym q))
      ∙ ap (with_first d) (page_flip_event-freed user x devs h a.1)

  wait_flip-failed :
      (answers : List Answer) (d : Dev) (devs : List Dev) (h : Host)
      → d.pending ≡ true
      → wait_flip display (failed ∷ answers) (d ∷ devs) h ≡ ended (d ∷ devs, h, answers)
  unfolding wait_flip
  wait_flip-failed answers d devs h e = simp (e, wait_flip)

  -- A device whose flip is pending is freed, and its CRTC is not put back.
  free_dev-pending :
      (d : Dev) (h : Host)
      → d.pending ≡ true
      → (w : World) × (free_dev display d h ≡ ended (record h { world = w }))
  unfolding free_dev
  free_dev-pending d h e = elim (Option-cases d.dev.saved) [
    | inl n ↦ (free_buffers d.dev h.world, simp (e, n, free_dev))
    | inr (c, s) ↦
        (free_buffers d.dev (note (release (saved_crtc c.crtc_id)) h.world), simp (e, s, free_dev))
  ]

  cleanup_devs-suc :
      (n : ℕ) (answers : List Answer) (d : Dev) (devs : List Dev) (h : Host)
      → cleanup_devs display (suc n) answers (d ∷ devs) h
        ≡ and_then
            (wait_flip display answers (record d { cleanup = true } ∷ devs) h)
            (free_first display n)
  unfolding cleanup_devs
  cleanup_devs-suc n answers d devs h = refl

  handle_events-freed :
      (crtc : ℕ) (crtcs : List ℕ) (devs : List Dev) (h : Host) (f : Flip)
      → h.kernel.flip crtc ≡ some f
      → All (λ j. (f.user ≢ j.0) × (crtc ≢ j.1)) (ids_of devs)
      → handle_events display (crtc ∷ crtcs) devs h ≡ crashed
  unfolding handle_events
  handle_events-freed crtc crtcs devs h f e a =
      ap (λ o. and_then o (λ out. handle_events display crtcs out.0 out.1))
        (handle_event-some display crtc devs h f e
          ∙ page_flip_event-freed f.user crtc devs (record h { kernel = arrived crtc f h.kernel })
              a)

  -- Two devices wait for their flips when the clean-up starts, and the first `drmHandleEvent` fails:
  -- then the first device is freed with its flip pending, and if the event of that flip comes next,
  -- it is handled with a pointer to the freed device.
  pub cleanup-uses_freed :
      (d e : Dev) (devs : List Dev) (h : Host) (crtcs : List ℕ) (answers : List Answer)
      → Inv (d ∷ e ∷ devs) h.kernel
      → d.pending ≡ true
      → e.pending ≡ true
      → cleanup display (failed ∷ events (d.dev.crtc ∷ crtcs) ∷ answers) (d ∷ e ∷ devs) h ≡ crashed
  unfolding cleanup
  cleanup-uses_freed d e devs h crtcs answers i p q =
      let n = length devs in
      let later : List Answer = events (d.dev.crtc ∷ crtcs) ∷ answers in
      let d' : Dev = record d { cleanup = true } in
      let e' : Dev = record e { cleanup = true } in
      let (w, freed) = free_dev-pending d' h p in
      let h' : Host = record h { world = w } in
      let f : Flip = record { fb = (front_of d.dev).fb; user = d.dev.self } in
      let flip : h.kernel.flip d.dev.crtc ≡ some f =
        (subst
          (λ b.
            Phase b (h.kernel.flip d.dev.crtc) (h.kernel.scan d.dev.crtc) (front_of d.dev).fb
              (back_of d.dev).fb d.dev.self)
          p i.good.0.phase).0 in
      cleanup_devs-suc (suc n) (failed ∷ later) d (e ∷ devs) h
      ∙ ap (λ o. and_then o (free_first display (suc n))) (wait_flip-failed later d' (e ∷ devs) h p)
      ∙ ap (λ o. and_then o (λ x. cleanup_devs display (suc n) later (e ∷ devs) x)) freed
      ∙ cleanup_devs-suc n later e devs h'
      ∙ ap (λ o. and_then o (free_first display n))
          (wait_flip-events display (d.dev.crtc ∷ crtcs) answers e' devs h' q)
      ∙ ap
          (λ o.
            and_then (and_then o (λ out. wait_flip display answers out.0 out.1))
              (free_first display n))
          (handle_events-freed d.dev.crtc crtcs (e' ∷ devs) h' f flip i.distinct.0)
