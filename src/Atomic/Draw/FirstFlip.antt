-- ===== src/Atomic/Draw/FirstFlip.antt =====
-- The first flips of perftools/X/drm-howto/modeset-atomic.c.
use debian_config_files.Base.{
  ℕ, ◌+◌, ◌≡◌, refl, ap, ◌∙◌, sym, subst, ◌==◌, if◌then◌else◌, true, false, Option, none, some,
  List, [], ◌∷◌, ◌++◌, arith,
}
use debian_config_files.Modeset.Kernel.{
  Setting, CommitFlags, Event, Resource, acquire, release, refuse, set_crtc, page_flip, commit,
  request, Log,
}
use debian_config_files.Modeset.Setup.{ok, note}
use debian_config_files.Modeset.Draw.{Buf, Shade, color_of}
use debian_config_files.Double.Draw.{paint}
use debian_config_files.Atomic.Program.{
  Card, Machine, returned, pure, ◌>>=◌, look, emit, get, give, change,
}
use debian_config_files.Atomic.Program.Owns.{Meets, Meets-and_then}
use debian_config_files.Atomic.Objects.{Request}
use debian_config_files.Atomic.Objects.Set.{bind-returned}
use debian_config_files.Atomic.Output.{Output}
use debian_config_files.Atomic.Output.Objects.{IsReady}
use debian_config_files.Atomic.Draw.{
  back_of, test_flags, modeset_flags, next_shade, start_shade, paint_framebuffer, alloc_request,
  prepare_commit, atomic_commit, draw_out, finish_flip, page_flip_event, prepare_all, start_out,
  start_all, commit_all, perform_modeset,
}
use debian_config_files.Atomic.Draw.Table.{table, settings_of, Commits, prepare_commit-Commits}
use debian_config_files.Atomic.Draw.Tearing.{draw_out-Paints}

-- The last atomic request that the kernel took.
abbrev pub last_commit : Log → Option (CommitFlags × List Setting)
last_commit [] = none
last_commit (commit flags settings ∷ l) = some (flags, settings)
last_commit (acquire q ∷ l) = last_commit l
last_commit (release q ∷ l) = last_commit l
last_commit (refuse ∷ l) = last_commit l
last_commit (set_crtc s ∷ l) = last_commit l
last_commit (page_flip c b ∷ l) = last_commit l

-- `bufs[front_buf]`, the other buffer.
abbrev pub front_of : Output → Buf
front_of out = if out.front then out.buf1 else out.buf0

-- A machine after one more event, and after the painting of an output.
abbrev pub after : Machine → Event → Machine
after m e = record m { world = note e m.world }

abbrev started : Card → Output → ℕ → Output
started card out n = record out {
  shade = next_shade card (record (start_shade card n) { calls = n + 3 });
}

abbrev painted : Card → Output → Machine → Machine
painted card out m = record {
  world = record m.world {
    memory = paint (back_of out) (color_of (started card out m.rands).shade) m.world.memory;
  };
  rands = (started card out m.rands).shade.calls;
}

module _ (card : Card)
    (commits : (log : Log) (flags : CommitFlags) (s : List Setting)
      → card.try_commit log flags s ≡ ok) where
  pub alloc :
      (m : Machine)
      → alloc_request card m
        ≡ returned
            (record { at = card.alloc_request m.world.log; settings = [] })
            (after m (acquire (request (card.alloc_request m.world.log))))
  unfolding alloc_request ◌>>=◌ look get emit change pure
  alloc m = refl

  pub given : (q : Resource) (m : Machine) → give q m ≡ returned tt (after m (release q))
  unfolding give emit change
  given q m = refl

  pub atomic_commit-returned :
      (flags : CommitFlags) (req : Request) (m : Machine)
      → atomic_commit card flags req m ≡ returned ok (after m (commit flags req.settings))
  unfolding atomic_commit ◌>>=◌ look emit change pure
  atomic_commit-returned flags req m = rw (commits m.world.log flags req.settings) refl

  start_one :
      (out : Output) (m : Machine)
      → start_all card (out ∷ []) m ≡ returned (started card out m.rands ∷ []) (painted card out m)
  unfolding start_all start_out paint_framebuffer ◌>>=◌ pure
  start_one out m = refl

  module _ (adds : (log : Log) (s : Setting) → card.add_property log s ≡ ok) where
    prepare_one :
        (out : Output) (req : Request) (settings : List Setting) (m : Machine)
        → IsReady out
        → settings_of (table out) ≡ some settings
        → prepare_all card (out ∷ []) req m
          ≡ returned (ok, record req { settings = req.settings ++ settings }) m
    unfolding prepare_all pure
    prepare_one out req settings m h e =
        let (p, q, k) = prepare_commit-Commits card adds out req m h in
        let done : p ≡ (ok, record req { settings = req.settings ++ settings }) =
          subst (λ o. Commits o req p) e k in
        bind-returned (prepare_commit card out req) _ (q ∙ ap (λ x. returned x m) done)

    -- The machine when `modeset_perform_modeset` returns.
    abbrev performed : Output → List Setting → Machine → Machine
    performed out settings m =
        let at = card.alloc_request m.world.log in
        let tested = after (after m (acquire (request at))) (commit test_flags settings) in
        after (after (painted card out tested) (commit modeset_flags settings))
          (release (request at))

    perform_one :
        (out : Output) (settings : List Setting) (m : Machine)
        → IsReady out
        → settings_of (table out) ≡ some settings
        → perform_modeset card (out ∷ []) m
          ≡ returned (ok, started card out m.rands ∷ []) (performed out settings m)
    unfolding perform_modeset commit_all alloc_request look get give emit change pure
    perform_one out settings m h e =
        let req : Request = record { at = card.alloc_request m.world.log; settings = [] } in
        let req' : Request = record req { settings = settings } in
        let m₁ = after m (acquire (request req.at)) in
        let m₂ = after m₁ (commit test_flags settings) in
        let m₃ = painted card out m₂ in
        bind-returned (alloc_request card) _ (alloc m)
        ∙ bind-returned (prepare_all card (out ∷ []) req) _ (prepare_one out req settings m₁ h e)
        ∙ bind-returned (atomic_commit card test_flags req') _
            (atomic_commit-returned test_flags req' m₁)
        ∙ bind-returned (start_all card (out ∷ [])) _ (start_one out m₂)
        ∙ bind-returned (atomic_commit card modeset_flags req') _
            (atomic_commit-returned modeset_flags req' m₃)
        ∙ bind-returned (give (request req.at)) _
            (given (request req.at) (after m₃ (commit modeset_flags settings)))

    finish_flip-Paints :
        (out : Output) (m : Machine)
        → IsReady out
        → out.cleanup ≡ false
        → (color : ℕ) × Meets false
            (λ _ m'. m'.world.memory ≡ paint (back_of out) color m.world.memory)
            (finish_flip card out m)
    unfolding finish_flip
    finish_flip-Paints out m h c =
        let out' : Output = record out { pending = false } in
        let color = color_of (next_shade card (record out.shade { calls = m.rands })) in
        let drawn : finish_flip card out m ≡ draw_out card out' m =
          ap (λ b. (if b then pure out' else draw_out card out') m) c in
        (
          color,
          subst (Meets false (λ _ m'. m'.world.memory ≡ paint (back_of out) color m.world.memory))
              (sym drawn)
              (draw_out-Paints card adds out' m
                (record { conn = h.conn; crtc = h.crtc; plane = h.plane })),
        )

    -- The event of an output that is first in the list.
    event-Paints :
        (out : Output) (outs : List Output) (m : Machine)
        → IsReady out
        → out.cleanup ≡ false
        → (color : ℕ) × Meets false
            (λ _ m'. m'.world.memory ≡ paint (back_of out) color m.world.memory)
            (page_flip_event card out.crtc.id (out ∷ outs) m)
    unfolding page_flip_event ◌>>=◌ pure
    event-Paints out outs m h c =
        let (color, k) = finish_flip-Paints out m h c in
        let same : (out.crtc.id == out.crtc.id) ≡ true = ground arith in
        (
          color,
          rw (same, page_flip_event)
              (Meets-and_then false _ (finish_flip card out m) _ (λ a m' e. e) k),
        )

    -- If libdrm has room for settings and the kernel takes every request, then for an output whose
    -- objects have all their properties, the only one and not in the clean-up,
    -- `modeset_perform_modeset` succeeds, the last request that the kernel took shows the back
    -- buffer (the table's), with an event to come, and the output is as before but for its colours:
    -- its buffers are not exchanged, and it is not marked as having a flip pending. So the event makes
    -- the program paint that same buffer, the one that the kernel shows then.
    pub first_flip-Tears :
        (out : Output) (settings : List Setting) (m : Machine)
        → IsReady out
        → out.cleanup ≡ false
        → settings_of (table out) ≡ some settings
        → (shade : Shade) × (m' : Machine) × (perform_modeset card (out ∷ []) m
            ≡ returned (ok, record out { shade = shade } ∷ []) m')
          × (last_commit m'.world.log ≡ some (modeset_flags, settings))
          × (color : ℕ) × Meets false
              (λ _ m''. m''.world.memory ≡ paint (back_of out) color m'.world.memory)
              (page_flip_event card out.crtc.id (record out { shade = shade } ∷ []) m')
    first_flip-Tears out settings m h c e =
        let out' = started card out m.rands in
        let m' = performed out settings m in
        let (color, k) =
          event-Paints out' [] m' (record { conn = h.conn; crtc = h.crtc; plane = h.plane }) c in
        (out'.shade, m', perform_one out settings m h e, refl, color, k)
