-- ===== src/Atomic/Draw/Flip.antt =====
-- A later page flip of perftools/X/drm-howto/modeset-atomic.c.
use debian_config_files.Base.{
  ℕ, ◌≡◌, refl, ap, ◌∙◌, subst, if◌then◌else◌, Bool, true, false, not, some, List, [],
}
use debian_config_files.Modeset.Kernel.{
  Setting, CommitFlags, acquire, release, commit, request, Log,
}
use debian_config_files.Modeset.Setup.{ok}
use debian_config_files.Modeset.Draw.{color_of}
use debian_config_files.Double.Draw.{paint}
use debian_config_files.Atomic.Program.{Card, Machine, returned, pure, give}
use debian_config_files.Atomic.Objects.{Request}
use debian_config_files.Atomic.Objects.Set.{bind-returned}
use debian_config_files.Atomic.Output.{Output}
use debian_config_files.Atomic.Output.Objects.{IsReady}
use debian_config_files.Atomic.Draw.{
  back_of, flip_flags, flipped, flip_out, next_shade, paint_framebuffer, alloc_request,
  prepare_commit, atomic_commit, draw_out,
}
use debian_config_files.Atomic.Draw.Table.{table, settings_of, Commits, prepare_commit-Commits}
use debian_config_files.Atomic.Draw.FirstFlip.{
  last_commit, front_of, after, alloc, given, atomic_commit-returned,
}

module _ (card : Card)
    (commits : (log : Log) (flags : CommitFlags) (s : List Setting)
      → card.try_commit log flags s ≡ ok)
    (adds : (log : Log) (s : Setting) → card.add_property log s ≡ ok) where
  back-flipped : (out : Output) → back_of (flipped out) ≡ front_of out
  back-flipped out = go out.front
    where
      go : (b : Bool) → (if not b then out.buf0 else out.buf1) ≡ (if b then out.buf1 else out.buf0)
      go true = refl
      go false = refl

  flip_one :
      (out : Output) (settings : List Setting) (m : Machine)
      → IsReady out
      → settings_of (table out) ≡ some settings
      → flip_out card out m
        ≡ returned (flipped out) (
            let at = card.alloc_request m.world.log in
            after
              (after (after m (acquire (request at))) (commit flip_flags settings))
              (release (request at)))
  unfolding flip_out pure
  flip_one out settings m h e =
      let req : Request = record { at = card.alloc_request m.world.log; settings = [] } in
      let req' : Request = record req { settings = settings } in
      let m₁ = after m (acquire (request req.at)) in
      let m₂ = after m₁ (commit flip_flags settings) in
      let (p, q, k) = prepare_commit-Commits card adds out req m₁ h in
      let done : p ≡ (ok, req') = subst (λ o. Commits o req p) e k in
      bind-returned (alloc_request card) _ (alloc card commits m)
      ∙ bind-returned (prepare_commit card out req) _ (q ∙ ap (λ x. returned x m₁) done)
      ∙ bind-returned (atomic_commit card flip_flags req') _
          (atomic_commit-returned card commits flip_flags req' m₁)
      ∙ bind-returned (give (request req.at)) _ (given card commits (request req.at) m₂)

  -- If libdrm has room for settings and the kernel takes every request, then for an output whose
  -- objects have all their properties `modeset_draw_out` paints the back buffer and nothing else,
  -- the last request that the kernel took shows that buffer (the table's), with an event to come,
  -- and afterwards a flip is pending and the buffers are exchanged.
  pub draw_out-Shows :
      (out : Output) (settings : List Setting) (m : Machine)
      → IsReady out
      → settings_of (table out) ≡ some settings
      → (out' : Output) × (m' : Machine) × (draw_out card out m ≡ returned out' m')
        × (out'.pending ≡ true)
        × (back_of out' ≡ front_of out)
        × (last_commit m'.world.log ≡ some (flip_flags, settings))
        × (color : ℕ) × (m'.world.memory ≡ paint (back_of out) color m.world.memory)
  unfolding draw_out paint_framebuffer
  draw_out-Shows out settings m h e =
      let shade = next_shade card (record out.shade { calls = m.rands }) in
      let out' : Output = record out { shade = shade } in
      let h' : IsReady out' = record { conn = h.conn; crtc = h.crtc; plane = h.plane } in
      (
        flipped out',
        _,
        bind-returned (paint_framebuffer card out) (flip_out card) refl
            ∙ flip_one out' settings _ h' e,
        refl,
        back-flipped out',
        refl,
        color_of shade,
        refl,
      )
