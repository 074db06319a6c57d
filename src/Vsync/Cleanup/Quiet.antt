-- ===== src/Vsync/Cleanup/Quiet.antt =====
-- That `modeset_cleanup` of perftools/X/drm-howto/modeset-vsync.c ends every flip before it frees
-- the buffers: the loop over the devices.
use debian_config_files.Base.{
  ℕ, zero, suc, ◌≡◌, refl, ap, ◌∙◌, Bool, true, List, [], ◌∷◌, arith, length,
}
use debian_config_files.Double.Draw.{Display}
use debian_config_files.Vsync.Host.{Dev, Host, Outcome, ended, Answer}
use debian_config_files.Vsync.Draw.Invariant.{ids_of, Inv}
use debian_config_files.Vsync.Draw.Safety.{Safe, Safe-and_then, and_then}
use debian_config_files.Vsync.Cleanup.{wait_flip, free_dev, cleanup_devs, cleanup}
use debian_config_files.Vsync.Cleanup.Laws.{
  NoFailure, Quiet, Waited, tail_of, wait_flip-Waited, free_dev-Freed, marked-Inv, Freed-Inv,
  Inv-Quiet, length-ids_of,
}

module _ (display : Display) where
  -- What a round does after the wait.
  abbrev pub free_first : ℕ → List Dev × Host × List Answer → Outcome Host
  free_first n ([], h, answers) = ended h
  free_first n (d ∷ devs, h, answers) =
      and_then (free_dev display d h) (λ h'. cleanup_devs display n answers devs h')

  -- What comes after the wait, when the other rounds are safe.
  pub free_first-Quiet :
      (may : Bool) (n : ℕ) (devs : List Dev) (out : List Dev × Host × List Answer)
      → length devs ≡ suc n
      → Waited devs out
      → ((ds : List Dev) (h' : Host)
          → length ds ≡ n
          → ids_of ds ≡ tail_of (ids_of devs)
          → Inv ds h'.kernel
          → Safe may Quiet (cleanup_devs display n out.2 ds h'))
      → Safe may Quiet (free_first n out)
  free_first-Quiet may n devs ([], h', answers) l w rest = Inv-Quiet display h' w.inv
  free_first-Quiet may n devs (d ∷ ds, h', answers) l w rest =
      let m = length-ids_of display devs (d ∷ ds) w.ids ∙ l in
      Safe-and_then may Quiet (free_dev display d h') (λ h''. cleanup_devs display n answers ds h'')
        (free_dev-Freed display may d h' w.inv.good.0 w.idle)
        (λ h'' r.
          rest ds h'' (omega (arith, m)) (ap tail_of w.ids)
            (Freed-Inv display d ds h'.kernel h'' w.inv w.idle r))

  cleanup_devs-Quiet :
      (n : ℕ) (answers : List Answer) (devs : List Dev) (h : Host)
      → length devs ≡ n
      → NoFailure answers
      → Inv devs h.kernel
      → Safe true Quiet (cleanup_devs display n answers devs h)
  unfolding cleanup_devs
  cleanup_devs-Quiet zero answers [] h l f i = Inv-Quiet display h i
  cleanup_devs-Quiet zero answers (d ∷ devs) h l f i = absurd (omega (arith, l))
  cleanup_devs-Quiet (suc n) answers [] h l f i = Inv-Quiet display h i
  cleanup_devs-Quiet (suc n) answers (d ∷ devs) h l f i =
      let ds : List Dev = record d { cleanup = true } ∷ devs in
      Safe-and_then true Quiet (wait_flip display answers ds h) (free_first n)
        (wait_flip-Waited display answers ds h f (marked-Inv display d devs h.kernel i))
        (λ out w.
          free_first-Quiet true n ds out l w
            (λ ds' h' l' q i'. cleanup_devs-Quiet n out.2 ds' h' l' w.left i'))

  -- If no `drmHandleEvent` fails and the kernel sends no event of a flip that is not pending,
  -- `modeset_cleanup` reads no freed memory, and when it ends, no flip is pending.
  pub cleanup-Quiet :
      (answers : List Answer) (devs : List Dev) (h : Host)
      → NoFailure answers
      → Inv devs h.kernel
      → Safe true Quiet (cleanup display answers devs h)
  unfolding cleanup
  cleanup-Quiet answers devs h f i = cleanup_devs-Quiet (length devs) answers devs h refl f i
