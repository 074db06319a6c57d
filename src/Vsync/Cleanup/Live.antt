-- ===== src/Vsync/Cleanup/Live.antt =====
-- That `modeset_cleanup` of perftools/X/drm-howto/modeset-vsync.c does not wait forever.
use debian_config_files.Base.{
  ℕ, zero, suc, ◌≡◌, ◌⊎◌, inl, inr, refl, sym, subst, true, false, List, [], ◌∷◌, arith, Bool-cases,
  length,
}
use debian_config_files.Double.Draw.{Display}
use debian_config_files.Vsync.Host.{Dev, Host, ended, Answer, failed, events}
use debian_config_files.Vsync.Draw.{handle_events}
use debian_config_files.Vsync.Draw.Invariant.{ids_of, Inv}
use debian_config_files.Vsync.Draw.Safety.{Safe, Safe-and_then, Safe-map, and_then, Kept}
use debian_config_files.Vsync.Cleanup.Quiet.{free_first-Quiet}
use debian_config_files.Vsync.Cleanup.Quiet.{free_first}
use debian_config_files.Vsync.Cleanup.{first_pending, wait_flip, cleanup_devs, cleanup}
use debian_config_files.Vsync.Cleanup.Laws.{
  NoFailure, Quiet, Waited, Waited-after, tail_of, Inv-Quiet, marked-Inv,
}
use debian_config_files.Vsync.Cleanup.Progress.{Has, first_cleanup, handle_events-Progress}

abbrev pub Names : ℕ → Answer → Type 0
Names c failed = ⊥
Names c (events crtcs) = Has c crtcs

-- The answers bring an event for each device in turn, others between them.
abbrev pub Served : List (ℕ × ℕ) → List Answer → Type 0
Served [] answers = Unit
Served (i ∷ is) [] = ⊥
Served (i ∷ is) (a ∷ answers) = (Names i.1 a × Served is answers) ⊎ Served (i ∷ is) answers

Served-more :
    (is : List (ℕ × ℕ)) (a : Answer) (answers : List Answer)
    → Served is answers
    → Served is (a ∷ answers)
Served-more [] a answers s = tt
Served-more (i ∷ is) a answers s = inr s

Served-tail :
    (i : ℕ × ℕ) (is : List (ℕ × ℕ)) (answers : List Answer)
    → Served (i ∷ is) answers
    → Served is answers
Served-tail i is [] s = absurd s
Served-tail i is (a ∷ answers) (inl s) = Served-more is a answers s.1
Served-tail i is (a ∷ answers) (inr s) = Served-more is a answers (Served-tail i is answers s)

module _ (display : Display) where
  -- What the wait leaves, and what is left for the other devices.
  record Finished (devs : List Dev) (out : List Dev × Host × List Answer) : Type 0 where
    waited : Waited devs out
    left : Served (tail_of (ids_of devs)) out.2

  Finished-after :
      (devs : List Dev) (out : List Dev × Host) (out' : List Dev × Host × List Answer)
      → Kept devs out
      → Finished out.0 out'
      → Finished devs out'
  Finished-after devs out out' k w = record {
    waited = Waited-after devs out out' k w.waited;
    left = subst (λ is. Served (tail_of is) out'.2) k.ids w.left;
  }

  wait_flip-idle :
      (answers : List Answer) (devs : List Dev) (h : Host)
      → first_pending devs ≡ false
      → wait_flip display answers devs h ≡ ended (devs, h, answers)
  unfolding wait_flip
  wait_flip-idle [] devs h e = rw (e, wait_flip) refl
  wait_flip-idle (a ∷ answers) devs h e = rw (e, wait_flip) refl

  idle-Finished :
      (answers : List Answer) (devs : List Dev) (h : Host)
      → first_pending devs ≡ false
      → Inv devs h.kernel
      → NoFailure answers
      → Served (tail_of (ids_of devs)) answers
      → Safe false (Finished devs) (wait_flip display answers devs h)
  idle-Finished answers devs h e i n s =
      subst (Safe false (Finished devs)) (sym (wait_flip-idle answers devs h e))
        (record { waited = record { inv = i; ids = refl; idle = e; left = n }; left = s })

  pub wait_flip-events :
      (crtcs : List ℕ) (answers : List Answer) (d : Dev) (devs : List Dev) (h : Host)
      → d.pending ≡ true
      → wait_flip display (events crtcs ∷ answers) (d ∷ devs) h
        ≡ and_then
            (handle_events display crtcs (d ∷ devs) h)
            (λ out. wait_flip display answers out.0 out.1)
  unfolding wait_flip
  wait_flip-events crtcs answers d devs h e = simp (e, wait_flip)

  -- The wait ends when the events come that the devices wait for.
  wait_flip-Finished :
      (answers : List Answer) (devs : List Dev) (h : Host)
      → NoFailure answers
      → Inv devs h.kernel
      → first_cleanup devs ≡ true
      → Served (ids_of devs) answers
      → Safe false (Finished devs) (wait_flip display answers devs h)
  unfolding wait_flip
  wait_flip-Finished answers [] h n i m s = idle-Finished answers [] h refl i n tt
  wait_flip-Finished [] (d ∷ devs) h n i m s = absurd s
  wait_flip-Finished (failed ∷ answers) (d ∷ devs) h n i m s = absurd n
  wait_flip-Finished (events crtcs ∷ answers) (d ∷ devs) h n i m s = elim (Bool-cases d.pending) [
    | inr idle ↦
        idle-Finished (events crtcs ∷ answers) (d ∷ devs) h idle i n
          (Served-tail (d.dev.self, d.dev.crtc) (ids_of devs) (events crtcs ∷ answers) s)
    | inl waiting ↦
        subst (Safe false (Finished (d ∷ devs)))
          (sym (wait_flip-events crtcs answers d devs h waiting))
          (Safe-and_then false (Finished (d ∷ devs)) (handle_events display crtcs (d ∷ devs) h)
            (λ out. wait_flip display answers out.0 out.1)
            (handle_events-Progress display crtcs (d ∷ devs) h i m)
            (λ out p.
              Safe-map false (wait_flip display answers out.0 out.1)
                (λ out' w. Finished-after (d ∷ devs) out out' p.kept w)
                (elim s [
                  | inl t ↦
                      idle-Finished answers out.0 out.1 (p.served t.0) p.kept.inv n
                        (subst (λ is. Served (tail_of is) answers) (sym p.kept.ids) t.1)
                  | inr t ↦
                      wait_flip-Finished answers out.0 out.1 n p.kept.inv p.marked
                        (subst (λ is. Served is answers) (sym p.kept.ids) t)
                ])))
  ]

  cleanup_devs-ends :
      (n : ℕ) (answers : List Answer) (devs : List Dev) (h : Host)
      → length devs ≡ n
      → NoFailure answers
      → Inv devs h.kernel
      → Served (ids_of devs) answers
      → Safe false Quiet (cleanup_devs display n answers devs h)
  unfolding cleanup_devs
  cleanup_devs-ends zero answers [] h l f i s = Inv-Quiet display h i
  cleanup_devs-ends zero answers (d ∷ devs) h l f i s = absurd (omega (arith, l))
  cleanup_devs-ends (suc n) answers [] h l f i s = Inv-Quiet display h i
  cleanup_devs-ends (suc n) answers (d ∷ devs) h l f i s =
      let ds : List Dev = record d { cleanup = true } ∷ devs in
      Safe-and_then false Quiet (wait_flip display answers ds h) (free_first display n)
        (wait_flip-Finished answers ds h f (marked-Inv display d devs h.kernel i) refl s)
        (λ out w. free_first-Quiet display false n ds out l w.waited (λ ds' h' l' q i'.
          cleanup_devs-ends n out.2 ds' h' l' w.waited.left i'
            (subst (λ is. Served is out.2) (sym q) w.left)))

  -- If what each device's CRTC showed before was saved, its two framebuffers differ, no two devices
  -- share an allocation or a CRTC, each pending flip is of the front buffer of a device that waits
  -- for it and points to that device, no `drmHandleEvent` fails, the kernel sends no event of a flip
  -- that is not pending, and events come for the devices in turn, then `modeset_cleanup` ends, reads no freed memory on the way, and no flip is pending
  -- after it.
  pub cleanup-ends :
      (answers : List Answer) (devs : List Dev) (h : Host)
      → NoFailure answers
      → Inv devs h.kernel
      → Served (ids_of devs) answers
      → Safe false Quiet (cleanup display answers devs h)
  unfolding cleanup
  cleanup-ends answers devs h f i s = cleanup_devs-ends (length devs) answers devs h refl f i s
