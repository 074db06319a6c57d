-- ===== src/Vsync/Draw.antt =====
-- `modeset_draw_dev`, `modeset_page_flip_event` and `modeset_draw` of
-- perftools/X/drm-howto/modeset-vsync.c.
pub mod Invariant
pub mod Events
pub mod Safety
pub mod Start
pub mod Untouched
pub mod Tearing
use debian_config_files.Base.{
  ℕ, ◌+◌, ◌%◌, Bool, true, false, not, ◌&&◌, Option, none, some, List, [], ◌∷◌, ltb, ◌==◌,
  if◌then◌else◌,
}
use debian_config_files.Modeset.Kernel.{refuse, page_flip, World}
use debian_config_files.Modeset.Setup.{note}
use debian_config_files.Modeset.Draw.{Shade, color_of, next_shade}
use debian_config_files.Double.Draw.{Display, back_of, paint}
use debian_config_files.Vsync.Host.{
  Dev, Flip, Kernel, Host, set_at, Outcome, ended, blocked, crashed, undocumented, Select, error,
  input, ready, timeout, Round,
}

-- `front_buf ^= 1` and `pflip_pending = true`.
abbrev pub flipped : Dev → Dev
flipped d = record d { dev = record d.dev { front = not d.dev.front }; pending = true }

abbrev pub schedule : ℕ → Flip → Kernel → Kernel
schedule crtc f k = record k { flip = set_at crtc (some f) k.flip }

-- The kernel refuses a second flip of a CRTC with `EBUSY`.
abbrev pub is_idle : Option Flip → Bool
is_idle none = true
is_idle (some f) = false

-- The flip happens: its framebuffer is scanned out from now on.
abbrev pub arrived : ℕ → Flip → Kernel → Kernel
arrived crtc f k = record { flip = set_at crtc none k.flip; scan = set_at crtc f.fb k.scan }

module _ (display : Display) where
  -- The end of `modeset_draw_dev`, from `drmModePageFlip` on.
  unfoldable pub flip_dev : Dev → Host → Dev × Host
  flip_dev d h =
      let b = back_of d.dev in
      if is_idle (h.kernel.flip d.dev.crtc) && display.flips h.world.log d.dev.crtc b.fb
      then (
        flipped d,
        record h {
          world = note (page_flip d.dev.crtc b.fb) h.world;
          kernel = schedule d.dev.crtc (record { fb = b.fb; user = d.dev.self }) h.kernel;
        },
      )
      else (d, record h { world = note refuse h.world })

  unfoldable pub draw_dev : Dev → Host → Dev × Host
  draw_dev d h =
      let shade = next_shade display.drm (record d.shade { calls = h.rands }) in
      let memory = paint (back_of d.dev) (color_of shade) h.world.memory in
      flip_dev (record d { shade = shade })
        (record h { world = record h.world { memory = memory }; rands = shade.calls })

  -- What `modeset_page_flip_event` does to the device that its pointer leads to.
  unfoldable pub finish_flip : Dev → Host → Dev × Host
  finish_flip d h =
      let d' : Dev = record d { pending = false } in if d.cleanup then (d', h) else draw_dev d' h

  -- `modeset_page_flip_event` over the devices that are allocated.
  unfoldable pub page_flip_event : ℕ → List Dev → Host → Outcome (List Dev × Host)
  page_flip_event user [] h = crashed
  page_flip_event user (d ∷ devs) h = elim (d.dev.self == user) [
    | true ↦ let (d', h') = finish_flip d h in ended (d' ∷ devs, h')
    | false ↦ elim (page_flip_event user devs h) [
      | ended (devs', h') ↦ ended (d ∷ devs', h')
      | blocked ↦ blocked
      | crashed ↦ crashed
      | undocumented ↦ undocumented
    ]
  ]

  -- One event, of the flip of a CRTC.
  unfoldable pub handle_event : ℕ → List Dev → Host → Outcome (List Dev × Host)
  handle_event crtc devs h = elim (h.kernel.flip crtc) [
    | none ↦ undocumented
    | some f ↦ page_flip_event f.user devs (record h { kernel = arrived crtc f h.kernel })
  ]

  unfoldable pub handle_events : List ℕ → List Dev → Host → Outcome (List Dev × Host)
  handle_events [] devs h = ended (devs, h)
  handle_events (crtc ∷ crtcs) devs h = elim (handle_event crtc devs h) [
    | ended (devs', h') ↦ handle_events crtcs devs' h'
    | blocked ↦ blocked
    | crashed ↦ crashed
    | undocumented ↦ undocumented
  ]

  -- The first loop of `modeset_draw`.
  unfoldable pub start_dev : Dev → Host → Dev × Host
  start_dev d h =
      let n = h.rands in
      let shade : Shade = record {
        r = display.drm.rand n % 255;
        g = display.drm.rand (n + 1) % 255;
        b = display.drm.rand (n + 2) % 255;
        r_up = true;
        g_up = true;
        b_up = true;
        calls = n + 3;
      } in
      draw_dev (record d { shade = shade }) (record h { rands = n + 3 })

  unfoldable pub start_devs : List Dev → Host → List Dev × Host
  start_devs [] h = ([], h)
  start_devs (d ∷ devs) h =
      let (d', h') = start_dev d h in let (devs', h'') = start_devs devs h' in (d' ∷ devs', h'')

  -- The second loop, until `stop`; each round takes the time and waits for what `select` reports.
  unfoldable pub watch : ℕ → List Round → List Dev → Host → Outcome (List Dev × Host)
  watch stop [] devs h = blocked
  watch stop (round ∷ rounds) devs h = elim (ltb round.now stop) [
    | false ↦ ended (devs, h)
    | true ↦ elim round.select [
      | error ↦ ended (devs, h)
      | input ↦ ended (devs, h)
      | timeout ↦ watch stop rounds devs h
      | ready crtcs ↦ elim (handle_events crtcs devs h) [
        | ended (devs', h') ↦ watch stop rounds devs' h'
        | blocked ↦ blocked
        | crashed ↦ crashed
        | undocumented ↦ undocumented
      ]
    ]
  ]

  -- `start` is the time at the start.
  unfoldable pub draw : ℕ → List Round → List Dev → Host → Outcome (List Dev × Host)
  draw start rounds devs h =
      let (devs', h') = start_devs devs h in watch (start + 5) rounds devs' h'
