-- ===== src/Atomic/Draw.antt =====
-- `modeset_atomic_prepare_commit`, the drawing and the page flips of
-- perftools/X/drm-howto/modeset-atomic.c; `next_color` is that of modeset.c.
pub mod Commit
pub mod Events
pub mod Balance
pub mod Table
pub mod Tearing
pub mod FirstFlip
pub mod Flip
use debian_config_files.Base.{
  ℕ, ◌+◌, ◌*◌, ◌%◌, ◌^◌, Bool, true, false, not, List, [], ◌∷◌, ltb, ◌==◌, if◌then◌else◌,
}
use Prim.Native.String.{String}
use debian_config_files.Modeset.Kernel.{CommitFlags, request, commit, refuse, World}
use debian_config_files.Modeset.Setup.{Status, ok, err}
use debian_config_files.Modeset.Draw.{Buf, Shade, color_of, next_color}
use debian_config_files.Double.Draw.{paint}
use debian_config_files.Vsync.Host.{Select, error, input, ready, timeout, Round}
use debian_config_files.Atomic.Program.{
  on_status, Card, returned, Program, pure, wait, ◌>>=◌, ◌>>◌, look, emit, get, give,
}
use debian_config_files.Atomic.Objects.{DrmObject, Request, set_object_property}
use debian_config_files.Atomic.Output.{Output}

-- `bufs[front_buf ^ 1]`.
abbrev pub back_of : Output → Buf
back_of out = if out.front then out.buf0 else out.buf1

abbrev pub test_flags : CommitFlags
test_flags = record { test_only = true; allow_modeset = true; flip_event = false; nonblock = false }

abbrev pub modeset_flags : CommitFlags
modeset_flags = record {
  test_only = false;
  allow_modeset = true;
  flip_event = true;
  nonblock = false;
}

abbrev pub flip_flags : CommitFlags
flip_flags = record { test_only = false; allow_modeset = false; flip_event = true; nonblock = true }

-- `front_buf ^= 1` and `pflip_pending = true`.
abbrev pub flipped : Output → Output
flipped out = record out { front = not out.front; pending = true }

module _ (card : Card) where
  -- One `if (set_drm_object_property(…) < 0) return -1;` after others.
  pub set_next : DrmObject → String → ℕ → Status × Request → Program (Status × Request)
  set_next obj name value (err e, req) = pure (err e, req)
  set_next obj name value (ok, req) = set_object_property card obj name value req >>= λ set.
      on_status set.0 (λ e. pure (err 1, set.1)) (pure set)

  pub prepare_plane : Output → Status × Request → Program (Status × Request)
  prepare_plane out p₀ = do
    p₁ ← set_next out.plane "FB_ID" (back_of out).fb p₀
    p₂ ← set_next out.plane "CRTC_ID" out.crtc.id p₁
    p₃ ← set_next out.plane "SRC_X" 0 p₂
    p₄ ← set_next out.plane "SRC_Y" 0 p₃
    p₅ ← set_next out.plane "SRC_W" ((back_of out).width * 65536 % 2 ^ 32) p₄
    p₆ ← set_next out.plane "SRC_H" ((back_of out).height * 65536 % 2 ^ 32) p₅
    p₇ ← set_next out.plane "CRTC_X" 0 p₆
    p₈ ← set_next out.plane "CRTC_Y" 0 p₇
    p₉ ← set_next out.plane "CRTC_W" (back_of out).width p₈
    set_next out.plane "CRTC_H" (back_of out).height p₉

  pub prepare_commit : Output → Request → Program (Status × Request)
  prepare_commit out req = do
    p₁ ← set_next out.conn "CRTC_ID" out.crtc.id (ok, req)
    p₂ ← set_next out.crtc "MODE_ID" out.mode_blob_id p₁
    p₃ ← set_next out.crtc "ACTIVE" 1 p₂
    prepare_plane out p₃

  -- The colours of the next frame; `calls` is where the sequence of `rand()` stands.
  pub next_shade : Shade → Shade
  next_shade s =
      let (r, r_up) = next_color s.r_up s.r 5 (card.drm.rand s.calls) in
      let (g, g_up) = next_color s.g_up s.g 5 (card.drm.rand (s.calls + 1)) in
      let (b, b_up) = next_color s.b_up s.b 5 (card.drm.rand (s.calls + 2)) in
      record { r = r; g = g; b = b; r_up = r_up; g_up = g_up; b_up = b_up; calls = s.calls + 3 }

  pub paint_framebuffer : Output → Program Output
  paint_framebuffer out m =
      let shade = next_shade (record out.shade { calls = m.rands }) in
      let memory = paint (back_of out) (color_of shade) m.world.memory in
      returned (record out { shade = shade })
        (record { world = record m.world { memory = memory }; rands = shade.calls })

  pub alloc_request : Program Request
  alloc_request = do
    at ← look card.alloc_request
    get (request at)
    pure (record { at = at; settings = [] })

  pub atomic_commit : CommitFlags → Request → Program Status
  atomic_commit flags req = do
    status ← look (λ log. card.try_commit log flags req.settings)
    on_status status (λ e. emit refuse >> pure (err e))
        (emit (commit flags req.settings) >> pure ok)

  -- `modeset_draw_out` from `modeset_atomic_prepare_commit` on; `painted` is the output then.
  pub flip_out : Output → Program Output
  flip_out painted = do
    req ← alloc_request
    p ← prepare_commit painted req
    on_status p.0 (λ e. pure painted)
        (do
          status ← atomic_commit flip_flags p.1
          give (request p.1.at)
          pure (on_status status (λ e. painted) (flipped painted)))

  pub draw_out : Output → Program Output
  draw_out out = paint_framebuffer out >>= flip_out

  -- What `modeset_page_flip_event` does to the output of the CRTC.
  pub finish_flip : Output → Program Output
  finish_flip out =
      let out' : Output = record out { pending = false } in
      if out.cleanup then (pure out') else (draw_out out')

  -- `modeset_page_flip_event` of a CRTC.
  pub page_flip_event : ℕ → List Output → Program (List Output)
  page_flip_event crtc [] = pure []
  page_flip_event crtc (out ∷ outs) =
      if out.crtc.id == crtc
      then (do out' ← finish_flip out; pure (out' ∷ outs))
      else (do outs' ← page_flip_event crtc outs; pure (out ∷ outs'))

  -- The events that one `drmHandleEvent` reads.
  pub handle_events : List ℕ → List Output → Program (List Output)
  handle_events [] outs = pure outs
  handle_events (crtc ∷ crtcs) outs = page_flip_event crtc outs >>= handle_events crtcs

  -- The two loops of `modeset_perform_modeset`.
  pub prepare_all : List Output → Request → Program (Status × Request)
  prepare_all [] req = pure (ok, req)
  prepare_all (out ∷ outs) req =
      prepare_commit out req >>= λ p. on_status p.0 (λ e. pure p) (prepare_all outs p.1)

  pub start_shade : ℕ → Shade
  start_shade n = record {
    r = card.drm.rand n % 255;
    g = card.drm.rand (n + 1) % 255;
    b = card.drm.rand (n + 2) % 255;
    r_up = true;
    g_up = true;
    b_up = true;
    calls = n + 3;
  }

  pub start_out : Output → Program Output
  start_out out m =
      paint_framebuffer (record out { shade = start_shade m.rands })
        (record m { rands = m.rands + 3 })

  pub start_all : List Output → Program (List Output)
  start_all [] = pure []
  start_all (out ∷ outs) = do out' ← start_out out; outs' ← start_all outs; pure (out' ∷ outs')

  -- From the test commit on. A failed commit is only printed.
  pub commit_all : List Output → Request → Program (Status × List Output)
  commit_all outs req = atomic_commit test_flags req >>= λ tested.
      on_status tested (λ e. give (request req.at) >> pure (err e, outs))
        (do
          outs' ← start_all outs
          status ← atomic_commit modeset_flags req
          give (request req.at)
          pure (status, outs'))

  pub perform_modeset : List Output → Program (Status × List Output)
  perform_modeset outs = do
    req ← alloc_request
    p ← prepare_all outs req
    on_status p.0 (λ e. pure (err e, outs)) (commit_all outs p.1)

  -- What a round of the loop of `modeset_draw` does; `next` is the later rounds.
  pub on_select :
      (List Output → Program (List Output)) → List Output → Select → Program (List Output)
  on_select next outs error = pure outs
  on_select next outs input = pure outs
  on_select next outs timeout = next outs
  on_select next outs (ready crtcs) = handle_events crtcs outs >>= next

  -- That loop, until `stop`; each round takes the time and waits for what `select` reports.
  pub watch : ℕ → List Round → List Output → Program (List Output)
  watch stop [] outs = wait
  watch stop (round ∷ rounds) outs =
      if ltb round.now stop then on_select (watch stop rounds) outs round.select else pure outs

  -- `start` is the time at the start; what `modeset_perform_modeset` returns is not read.
  pub draw : ℕ → List Round → List Output → Program (List Output)
  draw start rounds outs =
      perform_modeset outs >>= λ performed. watch (start + 5) rounds performed.1
