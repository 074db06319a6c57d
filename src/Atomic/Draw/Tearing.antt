-- ===== src/Atomic/Draw/Tearing.antt =====
-- Which buffer perftools/X/drm-howto/modeset-atomic.c paints, and which one it shows.
use debian_config_files.Base.{ℕ, ◌≡◌, refl, ◌∙◌, sym, subst, false}
use debian_config_files.Modeset.Kernel.{
  Setting, CommitFlags, Event, acquire, release, refuse, request, Log,
}
use debian_config_files.Modeset.Setup.{Status, ok, err}
use debian_config_files.Modeset.Draw.{color_of}
use debian_config_files.Double.Draw.{paint}
use debian_config_files.Atomic.Program.{
  Card, Machine, Program, pure, ◌>>=◌, look, emit, get, give, change, on_status,
}
use debian_config_files.Atomic.Program.Owns.{Meets, Meets-map, Meets-and_then}
use debian_config_files.Atomic.Objects.{Request}
use debian_config_files.Atomic.Output.{Output}
use debian_config_files.Atomic.Output.Objects.{IsReady}
use debian_config_files.Atomic.Draw.{
  back_of, flip_flags, next_shade, paint_framebuffer, alloc_request, prepare_commit, atomic_commit,
  flip_out, draw_out,
}
use debian_config_files.Atomic.Draw.Table.{prepare_commit-Commits}

-- `p` leaves the memory as it is.
abbrev KeepsMemory {ℓ} : {A : Type ℓ} → Program A → Type 0
KeepsMemory p = (m : Machine) → Meets false (λ _ m'. m'.world.memory ≡ m.world.memory) (p m)

KeepsMemory-bind {ℓ κ} :
    {A : Type ℓ} {B : Type κ} (p : Program A) (f : A → Program B)
    → KeepsMemory p
    → ((a : A) → KeepsMemory (f a))
    → KeepsMemory (p >>= f)
unfolding ◌>>=◌
KeepsMemory-bind p f h g m =
    Meets-and_then false _ (p m) f (λ a m' e. Meets-map false (f a m') (λ b m'' q. q ∙ e) (g a m'))
      (h m)

KeepsMemory-status {ℓ} :
    {A : Type ℓ} (f : ℕ → Program A) (p : Program A) (s : Status)
    → ((e : ℕ) → KeepsMemory (f e))
    → KeepsMemory p
    → KeepsMemory (on_status s f p)
KeepsMemory-status f p (err e) h g = h e
KeepsMemory-status f p ok h g = g

KeepsMemory-pure {ℓ} : {A : Type ℓ} (a : A) → KeepsMemory (pure a)
unfolding pure
KeepsMemory-pure a m = refl

KeepsMemory-emit : (e : Event) → KeepsMemory (emit e)
unfolding emit change
KeepsMemory-emit e m = refl

KeepsMemory-look {ℓ} : {A : Type ℓ} (f : Log → A) → KeepsMemory (look f)
unfolding look
KeepsMemory-look f m = refl

module _ (card : Card) where
  atomic_commit-memory :
      (flags : CommitFlags) (req : Request) → KeepsMemory (atomic_commit card flags req)
  unfolding atomic_commit
  atomic_commit-memory flags req =
      KeepsMemory-bind (look (λ log. card.try_commit log flags req.settings)) _ (KeepsMemory-look _)
        (λ s.
          KeepsMemory-status _ _ s
            (λ e.
              KeepsMemory-bind (emit refuse) _ (KeepsMemory-emit refuse) (λ _. KeepsMemory-pure _))
            (KeepsMemory-bind (emit _) _ (KeepsMemory-emit _) (λ _. KeepsMemory-pure _)))

  alloc_request-memory : KeepsMemory (alloc_request card)
  unfolding alloc_request get
  alloc_request-memory = KeepsMemory-bind (look card.alloc_request) _ (KeepsMemory-look _) (λ at.
      KeepsMemory-bind (emit (acquire (request at))) _ (KeepsMemory-emit _)
        (λ _. KeepsMemory-pure _))

  module _ (adds : (log : Log) (s : Setting) → card.add_property log s ≡ ok) where
    prepare_commit-memory :
        (out : Output) (req : Request) → IsReady out → KeepsMemory (prepare_commit card out req)
    prepare_commit-memory out req h m =
        let (p, e, k) = prepare_commit-Commits card adds out req m h in
        subst (Meets false (λ _ m'. m'.world.memory ≡ m.world.memory)) (sym e) refl

    flip_out-memory : (out : Output) → IsReady out → KeepsMemory (flip_out card out)
    unfolding flip_out give
    flip_out-memory out h = KeepsMemory-bind (alloc_request card) _ alloc_request-memory (λ req.
        KeepsMemory-bind (prepare_commit card out req) _ (prepare_commit-memory out req h) (λ p.
          KeepsMemory-status _ _ p.0 (λ e. KeepsMemory-pure out)
            (KeepsMemory-bind (atomic_commit card flip_flags p.1) _
              (atomic_commit-memory flip_flags p.1)
              (λ s.
                KeepsMemory-bind (emit (release (request p.1.at))) _ (KeepsMemory-emit _)
                  (λ _. KeepsMemory-pure _)))))

    pub draw_out-Paints :
        (out : Output) (m : Machine)
        → IsReady out
        → Meets false
            (λ _ m'.
              m'.world.memory
              ≡ paint
                  (back_of out)
                  (color_of (next_shade card (record out.shade { calls = m.rands })))
                  m.world.memory)
            (draw_out card out m)
    unfolding draw_out paint_framebuffer ◌>>=◌
    draw_out-Paints out m h =
        let shade = next_shade card (record out.shade { calls = m.rands }) in
        flip_out-memory (record out { shade = shade })
          (record { conn = h.conn; crtc = h.crtc; plane = h.plane }) _
