-- ===== src/Atomic/Main.antt =====
-- `modeset_cleanup` and `main` of perftools/X/drm-howto/modeset-atomic.c.
pub mod Balance
pub mod Wait
pub mod Run
use Prim.Native.String.{String}
use debian_config_files.Base.{ℕ, zero, suc, Bool, true, false, List, [], ◌∷◌, length, if◌then◌else◌}
use debian_config_files.Modeset.Kernel.{Reply, done, fail, descriptor}
use debian_config_files.Modeset.Setup.{Status, ok, err}
use debian_config_files.Modeset.Main.{card_of}
use debian_config_files.Vsync.Host.{Answer, failed, events}
use debian_config_files.Vsync.Main.{Script}
use debian_config_files.Atomic.Program.{Card, Program, pure, wait, ◌>>=◌, ◌>>◌, give}
use debian_config_files.Atomic.Output.{Output, first_pending, output_destroy, open_card, prepare}
use debian_config_files.Atomic.Draw.{handle_events, draw}

-- What the loop of `modeset_cleanup` does after the wait; `next` is its later rounds.
pub destroy_first : (List Output → Program (Unit {0})) → List Output → Program (Unit {0})
destroy_first next [] = pure tt
destroy_first next (first ∷ rest) = output_destroy first >> next rest

module _ (card : Card) where
  -- The loop that waits for the first output's flip. The second result is what later calls of
  -- `drmHandleEvent` find.
  pub wait_flip : List Answer → List Output → Program (List Output × List Answer)
  wait_flip [] outs = if (first_pending outs) then (wait) else (pure (outs, []))
  wait_flip (a ∷ answers) outs =
      if first_pending outs
      then elim a [
        | failed ↦ pure (outs, answers)
        | events crtcs ↦ handle_events card crtcs outs >>= wait_flip answers
      ]
      else pure (outs, a ∷ answers)

  -- The loop over the list, with `n` outputs left.
  pub cleanup_outs : ℕ → List Answer → List Output → Program (Unit {0})
  cleanup_outs zero answers outs = pure tt
  cleanup_outs (suc n) answers [] = pure tt
  cleanup_outs (suc n) answers (out ∷ outs) =
      wait_flip answers (record out { cleanup = true } ∷ outs) >>= λ waited.
      destroy_first (cleanup_outs n waited.1) waited.0

  -- A round for each output.
  pub cleanup : List Answer → List Output → Program (Unit {0})
  cleanup answers outs = cleanup_outs (length outs) answers outs

  -- The part of `main` after `modeset_prepare`, the label `out_close` included.
  pub run_prepared : Script → ℕ → Status × List Output → Program Status
  run_prepared script fd (err e, outs) = give (descriptor fd) >> pure (err e)
  run_prepared script fd (ok, outs) = do
    outs' ← draw card script.start script.rounds outs
    cleanup script.answers outs'
    give (descriptor fd)
    pure ok

  -- The part of `main` after `modeset_open`.
  pub run_card : Script → ℕ → Program Status
  run_card script fd = prepare card >>= run_prepared script fd

  -- `main(argc, argv)`.
  pub main_from : Script → Reply ℕ → Program Status
  main_from script (fail e) = pure (err e)
  main_from script (done fd) = run_card script fd

  pub main : Script → List String → Program Status
  main script argv = open_card card (card_of argv) >>= main_from script
