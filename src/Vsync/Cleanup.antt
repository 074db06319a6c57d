-- ===== src/Vsync/Cleanup.antt =====
-- `modeset_cleanup` of perftools/X/drm-howto/modeset-vsync.c. The device that is taken off the list
-- stays first in the list of allocated devices until it is freed.
pub mod Laws
pub mod Quiet
pub mod Progress
pub mod Live
pub mod Freed
use debian_config_files.Base.{
  ℕ, zero, suc, Bool, true, false, Option, none, some, List, [], ◌∷◌, length, if◌then◌else◌,
}
use debian_config_files.Modeset.Kernel.{SavedCrtc, saved_crtc, release, set_crtc, World}
use debian_config_files.Modeset.Setup.{note}
use debian_config_files.Double.Draw.{Display}
use debian_config_files.Double.Main.{restore, free_buffers}
use debian_config_files.Vsync.Host.{
  Dev, Host, set_at, Outcome, ended, blocked, crashed, undocumented, Answer, failed, events,
}
use debian_config_files.Vsync.Draw.{handle_events}

-- `iter->pflip_pending`.
abbrev pub first_pending : List Dev → Bool
first_pending [] = false
first_pending (d ∷ devs) = d.pending

module _ (display : Display) where
  -- The loop that waits for the first device's flip. The third result is what later calls of
  -- `drmHandleEvent` find.
  unfoldable pub wait_flip : List Answer → List Dev → Host → Outcome (List Dev × Host × List Answer)
  wait_flip [] devs h = if first_pending devs then blocked else ended (devs, h, [])
  wait_flip (a ∷ answers) devs h = elim (first_pending devs) [
    | false ↦ ended (devs, h, a ∷ answers)
    | true ↦ elim a [
      | failed ↦ ended (devs, h, answers)
      | events crtcs ↦ elim (handle_events display crtcs devs h) [
        | ended (devs', h') ↦ wait_flip answers devs' h'
        | blocked ↦ blocked
        | crashed ↦ crashed
        | undocumented ↦ undocumented
      ]
    ]
  ]

  -- `drmModeSetCrtc` with what was saved.
  unfoldable pub put_back : Dev → SavedCrtc → Host → Host
  put_back d c h =
      let s = restore d.dev c in
      let k = h.kernel in
      record h {
        world = note (set_crtc s) h.world;
        kernel =
            if display.sets h.world.log s
            then record k { scan = set_at c.crtc_id c.buffer_id k.scan }
            else k;
      }

  -- From there to `free(iter)`. The CRTC is put back only where no flip is pending; freeing a null
  -- pointer does nothing.
  unfoldable pub free_dev : Dev → Host → Outcome Host
  free_dev d h = elim d.dev.saved [
    | none ↦ if d.pending then ended (record h { world = free_buffers d.dev h.world }) else crashed
    | some c ↦
        let h' = if d.pending then h else put_back d c h in
        ended (record h' {
          world = free_buffers d.dev (note (release (saved_crtc c.crtc_id)) h'.world);
        })
  ]

  -- The loop over the list, with `n` devices left.
  unfoldable pub cleanup_devs : ℕ → List Answer → List Dev → Host → Outcome Host
  cleanup_devs zero answers devs h = ended h
  cleanup_devs (suc n) answers [] h = ended h
  cleanup_devs (suc n) answers (d ∷ devs) h =
      elim (wait_flip answers (record d { cleanup = true } ∷ devs) h) [
        | ended ([], h', answers') ↦ ended h'
        | ended (d' ∷ devs', h', answers') ↦ elim (free_dev d' h') [
          | ended h'' ↦ cleanup_devs n answers' devs' h''
          | blocked ↦ blocked
          | crashed ↦ crashed
          | undocumented ↦ undocumented
        ]
        | blocked ↦ blocked
        | crashed ↦ crashed
        | undocumented ↦ undocumented
      ]

  -- A round for each device.
  unfoldable pub cleanup : List Answer → List Dev → Host → Outcome Host
  cleanup answers devs h = cleanup_devs (length devs) answers devs h
