-- ===== src/Atomic/Draw/Events.antt =====
-- Drawing and events in perftools/X/drm-howto/modeset-atomic.c: what they hold, and that the first
-- output, once it is marked for the clean-up, is done when its event has come.
use debian_config_files.Base.{
  ℕ, ◌+◌, ◌≡◌, ◌⊎◌, inl, inr, refl, sym, subst, ◌==◌, Bool, true, false, not, List, [], ◌∷◌, arith,
  All, ap, ◌∙◌,
}
use debian_config_files.Modeset.Kernel.{Resource, request}
use debian_config_files.Modeset.Kernel.Balance.{same}
use debian_config_files.Modeset.Setup.{Status, ok, err}
use debian_config_files.Modeset.Draw.{Shade}
use debian_config_files.Vsync.Cleanup.Progress.{Has}
use debian_config_files.Atomic.Program.{Card, Program, pure, give, on_status}
use debian_config_files.Atomic.Program.Owns.{
  Owns, Any, Owns-bind, Owns-next, Owns-pure, Owns-look, Owns-same, Owns-get, Owns-give, Owns-test,
  Owns-status,
}
use debian_config_files.Atomic.Output.{Output, crtcs_of, first_pending}
use debian_config_files.Atomic.Output.Objects.{IsReady}
use debian_config_files.Atomic.Output.Balance.{held_out, held_outs}
use debian_config_files.Atomic.Draw.{
  flip_flags, flipped, paint_framebuffer, alloc_request, flip_out, draw_out, finish_flip,
  page_flip_event, handle_events,
}
use debian_config_files.Atomic.Draw.Commit.{prepare_commit-Owns, atomic_commit-Owns}

-- What drawing leaves of an output.
pub record Drawn (out out' : Output) : Type 0 where
  pub ready : IsReady out'
  pub crtc : out'.crtc.id ≡ out.crtc.id
  pub cleanup : out'.cleanup ≡ out.cleanup

pub Drawn-by :
    (out : Output) (front pending : Bool) (shade : Shade)
    → IsReady out
    → Drawn out (record out { front = front; pending = pending; shade = shade })
Drawn-by out front pending shade h = record {
  ready = record { conn = h.conn; crtc = h.crtc; plane = h.plane };
  crtc = refl;
  cleanup = refl;
}

Drawn-trans : {a b c : Output} → Drawn a b → Drawn b c → Drawn a c
Drawn-trans h k = record {
  ready = k.ready;
  crtc = k.crtc ∙ h.crtc;
  cleanup = k.cleanup ∙ h.cleanup;
}

-- What an event leaves of its output.
abbrev Finished : Output → Output → Type 0
Finished out out' = Drawn out out' × (out.cleanup ≡ true → out'.pending ≡ false)

-- `cleanup` of the first output, and whether its CRTC stands in a list.
abbrev pub first_marked : List Output → Bool
first_marked [] = false
first_marked (out ∷ outs) = out.cleanup

abbrev pub HasFirst : List ℕ → List ℕ → Type 0
HasFirst [] crtcs = ⊥
HasFirst (c ∷ cs) crtcs = Has c crtcs

no_first : (cs : List ℕ) → HasFirst cs [] → ⊥
no_first [] h = h
no_first (c ∷ cs) h = h

-- What the events of some CRTCs leave.
pub record Handled (crtcs : List ℕ) (outs outs' : List Output) : Type 0 where
  pub ready : All IsReady outs'
  pub ids : crtcs_of outs' ≡ crtcs_of outs
  pub marked : first_marked outs ≡ true → first_marked outs' ≡ true
  pub idle : first_marked outs ≡ true → first_pending outs ≡ false → first_pending outs' ≡ false
  pub served :
      first_marked outs ≡ true → HasFirst (crtcs_of outs) crtcs → first_pending outs' ≡ false

Handled-refl :
    (crtcs : List ℕ) (outs : List Output)
    → All IsReady outs
    → (first_marked outs ≡ true → HasFirst (crtcs_of outs) crtcs → first_pending outs ≡ false)
    → Handled crtcs outs outs
Handled-refl crtcs outs h f = record {
  ready = h;
  ids = refl;
  marked = λ m. m;
  idle = λ m p. p;
  served = f;
}

Handled-first :
    (crtc : ℕ) (out out' : Output) (outs : List Output)
    → Finished out out'
    → All IsReady outs
    → Handled (crtc ∷ []) (out ∷ outs) (out' ∷ outs)
Handled-first crtc out out' outs k h = record {
  ready = (k.0.ready, h);
  ids = ap (λ c. c ∷ crtcs_of outs) k.0.crtc;
  marked = λ m. k.0.cleanup ∙ m;
  idle = λ m p. k.1 m;
  served = λ m s. k.1 m;
}

Handled-rest :
    (crtc : ℕ) (out : Output) (outs outs' : List Output)
    → (out.crtc.id == crtc) ≡ false
    → IsReady out
    → Handled (crtc ∷ []) outs outs'
    → Handled (crtc ∷ []) (out ∷ outs) (out ∷ outs')
Handled-rest crtc out outs outs' e h k = record {
  ready = (h, k.ready);
  ids = ap (λ cs. out.crtc.id ∷ cs) k.ids;
  marked = λ m. m;
  idle = λ m p. p;
  served = λ m s. elim s [ inl q ↦ absurd (ground arith) | inr q ↦ absurd q ];
}

HasFirst-split :
    (cs : List ℕ) (crtc : ℕ) (crtcs : List ℕ)
    → HasFirst cs (crtc ∷ crtcs)
    → HasFirst cs (crtc ∷ []) ⊎ HasFirst cs crtcs
HasFirst-split [] crtc crtcs h = absurd h
HasFirst-split (c ∷ cs) crtc crtcs (inl e) = inl (inl e)
HasFirst-split (c ∷ cs) crtc crtcs (inr h) = inr h

Handled-trans :
    (crtc : ℕ) (crtcs : List ℕ) {a b c : List Output}
    → Handled (crtc ∷ []) a b
    → Handled crtcs b c
    → Handled (crtc ∷ crtcs) a c
Handled-trans crtc crtcs {a} {b} {c} k q = record {
  ready = q.ready;
  ids = q.ids ∙ k.ids;
  marked = λ m. q.marked (k.marked m);
  idle = λ m p. q.idle (k.marked m) (k.idle m p);
  served = λ m s. elim (HasFirst-split (crtcs_of a) crtc crtcs s) [
    | inl first ↦ q.idle (k.marked m) (k.served m first)
    | inr later ↦ q.served (k.marked m) (subst (λ cs. HasFirst cs crtcs) (sym k.ids) later)
  ];
}

module _ (card : Card) (w : Bool) (r : Resource) (free : (at : ℕ) → same r (request at) ≡ 0) where
  pub alloc_request-Owns : (n : ℕ) → Owns w r n (alloc_request card) (λ _. n) Any
  unfolding alloc_request
  alloc_request-Owns n = Owns-bind w r (Owns-look w r n card.alloc_request) (λ at _.
      Owns-next w r (Owns-get w r n (request at))
        (Owns-pure w r _ (let z = free at in omega arith) tt))

  pub give-request-Owns : (n at : ℕ) → Owns w r n (give (request at)) (λ _. n) Any
  give-request-Owns n at =
      Owns-same w r (let z = free at in omega arith) (λ _ _. (refl, tt))
        (Owns-give w r n (request at))

  -- An output stays as it is held, and keeps its CRTC and its mark.
  abbrev pub Holds : ℕ → Output → Program Output → Type 0
  Holds n out p = Owns w r (held_out r out + n) p (λ out'. held_out r out' + n) (Drawn out)

  pub paint_framebuffer-Owns :
      (n : ℕ) (out : Output) → IsReady out → Holds n out (paint_framebuffer card out)
  unfolding paint_framebuffer
  paint_framebuffer-Owns n out h = record {
    runs = λ m l c g. (g, Drawn-by out out.front out.pending _ h);
  }

  flip_out-Owns : (n : ℕ) (out : Output) → IsReady out → Holds n out (flip_out card out)
  unfolding flip_out
  flip_out-Owns n out h = Owns-bind w r (alloc_request-Owns _) (λ req _.
      Owns-bind w r (prepare_commit-Owns card w r _ out h req) (λ p _.
        Owns-status w r _ p.0
          (λ e q. Owns-pure w r _ refl (Drawn-by out out.front out.pending out.shade h))
          (λ q.
            Owns-bind w r (atomic_commit-Owns card w r flip_flags p.1 _)
              (λ status _. Owns-next w r (give-request-Owns _ p.1.at) (last n out h status)))))
    where
      last :
          (n : ℕ) (out : Output)
          → IsReady out
          → (s : Status) → Holds n out (pure (on_status s (λ e. out) (flipped out)))
      last n out h (err e) = Owns-pure w r _ refl (Drawn-by out out.front out.pending out.shade h)
      last n out h ok = Owns-pure w r _ refl (Drawn-by out (not out.front) true out.shade h)

  draw_out-Owns : (n : ℕ) (out : Output) → IsReady out → Holds n out (draw_out card out)
  unfolding draw_out
  draw_out-Owns n out h = Owns-bind w r (paint_framebuffer-Owns n out h) (λ out₁ k.
      Owns-same w r refl (λ out₂ q. (refl, Drawn-trans k q)) (flip_out-Owns n out₁ k.ready))

  finish_flip-Owns :
      (n : ℕ) (out : Output)
      → IsReady out
      → Owns w r
          (held_out r out + n)
          (finish_flip card out)
          (λ out'. held_out r out' + n)
          (Finished out)
  unfolding finish_flip
  finish_flip-Owns n out h =
      let out' : Output = record out { pending = false } in
      let h' : IsReady out' = record { conn = h.conn; crtc = h.crtc; plane = h.plane } in
      Owns-test w r out.cleanup
        (λ e. Owns-pure w r _ refl (Drawn-by out out.front false out.shade h, λ _. refl))
        (λ e.
          Owns-same w r refl
            (λ out'' k. (
              refl,
              (
                record { ready = k.ready; crtc = k.crtc; cleanup = k.cleanup },
                λ q. absurd (ground arith),
              ),
            ))
            (draw_out-Owns n out' h'))

  -- And events find the same CRTCs; the first output, once marked, is done when its event has come.
  abbrev pub Stays : ℕ → List ℕ → List Output → Program (List Output) → Type 0
  Stays n crtcs outs p =
      Owns w r (held_outs r outs + n) p (λ outs'. held_outs r outs' + n) (Handled crtcs outs)

  page_flip_event-Owns :
      (n crtc : ℕ) (outs : List Output)
      → All IsReady outs
      → Stays n (crtc ∷ []) outs (page_flip_event card crtc outs)
  unfolding page_flip_event
  page_flip_event-Owns n crtc [] h = Owns-pure w r _ refl (Handled-refl _ [] h (λ m q. refl))
  page_flip_event-Owns n crtc (out ∷ outs) h =
      Owns-test w r (out.crtc.id == crtc)
        (λ e.
          Owns-bind w r
            (Owns-same w r (omega arith) (λ _ k. (refl, k))
              (finish_flip-Owns (held_outs r outs + n) out h.0))
            (λ out' k. Owns-pure w r _ (omega arith) (Handled-first crtc out out' outs k h.1)))
        (λ e.
          Owns-bind w r
            (Owns-same w r (omega arith) (λ _ k. (refl, k))
              (page_flip_event-Owns (held_out r out + n) crtc outs h.1))
            (λ outs' k. Owns-pure w r _ (omega arith) (Handled-rest crtc out outs outs' e h.0 k)))

  pub handle_events-Owns :
      (n : ℕ) (crtcs : List ℕ) (outs : List Output)
      → All IsReady outs
      → Stays n crtcs outs (handle_events card crtcs outs)
  unfolding handle_events
  handle_events-Owns n [] outs h =
      Owns-pure w r _ refl (Handled-refl [] outs h (λ m q. absurd (no_first (crtcs_of outs) q)))
  handle_events-Owns n (crtc ∷ crtcs) outs h =
      Owns-bind w r (page_flip_event-Owns n crtc outs h) (λ outs' k.
        Owns-same w r refl (λ outs'' q. (refl, Handled-trans crtc crtcs k q))
          (handle_events-Owns n crtcs outs' k.ready))
