-- ===== src/Atomic/Output/Balance.antt =====
-- `modeset_output_create` and `modeset_output_destroy` of
-- perftools/X/drm-howto/modeset-atomic.c give back what they do not hand on.
use debian_config_files.Base.{
  Bool, ℕ, ◌+◌, ◌≡◌, ◌∙◌, refl, ap, Option, none, some, List, [], ◌∷◌, arith, subst, sym,
}
use debian_config_files.Modeset.Kernel.{ModeInfo, Connector, Resources, Resource, device, blob}
use debian_config_files.Modeset.Kernel.Balance.{same}
use debian_config_files.Modeset.Setup.{Status, ok, err}
use debian_config_files.Atomic.Program.{Card, Program}
use debian_config_files.Atomic.Program.Owns.{
  Owns, Any, Owns-bind, Owns-next, Owns-pure, Owns-look, Owns-same, Owns-fetch, Owns-get, Owns-give,
  Owns-if, Owns-status,
}
use debian_config_files.Atomic.Objects.Balance.{Known}
use debian_config_files.Atomic.Choice.{Route}
use debian_config_files.Atomic.Choice.Balance.{IsNew, PicksCrtc, find_crtc-Owns}
use debian_config_files.Atomic.Choice.Plane.{find_plane-Owns}
use debian_config_files.Atomic.Output.{
  Output, blank, route_of, with_route, output_destroy, out_error, out_blob, out_obj, with_objects,
  with_plane, with_crtc, with_blob, with_mode, first_mode, output_create,
}
use debian_config_files.Atomic.Output.Objects.{
  held_objects, IsReady, Sets, held_buffers, Fills, held_after-err, held_after-ok,
  destroy_objects-Owns, setup_objects-Owns, destroy_fb-Owns, setup_framebuffers-Owns,
}
use debian_config_files.Double.Setup.Balance.{held_buf}

-- What an output holds, and what it holds beside its objects and buffers.
abbrev pub held_base : Resource → Output → ℕ
held_base r out = same r (blob out.mode_blob_id) + same r (device out.self)

abbrev pub held_out : Resource → Output → ℕ
held_out r out = held_objects r out + (held_buf r out.buf0 + held_buf r out.buf1) + held_base r out

abbrev pub held_outs : Resource → List Output → ℕ
held_outs r [] = 0
held_outs r (out ∷ outs) = held_out r out + held_outs r outs

abbrev pub held_made : Resource → Option Output → ℕ
held_made r none = 0
held_made r (some out) = held_out r out

-- An output that is made has its objects, and a CRTC with a property.
abbrev pub MadeWith : (ℕ → Type 0) → Option Output → Type 0
MadeWith P none = Unit
MadeWith P (some out) = IsReady out × P out.crtc.id

pub output_destroy-Owns :
    (card : Card) (w : Bool) (r : Resource) (n : ℕ) (out : Output)
    → IsReady out
    → Owns w r (held_out r out + n) (output_destroy out) (λ _. n) Any
unfolding output_destroy
output_destroy-Owns card w r n out h =
    let b₀ = held_buf r out.buf0 in
    let b₁ = held_buf r out.buf1 in
    Owns-next w r
      (Owns-same w r (omega arith) (λ _ _. (refl, tt))
        (destroy_objects-Owns w r (b₀ + (b₁ + (held_base r out + n))) out h))
      (Owns-next w r (destroy_fb-Owns card.drm w r (b₁ + (held_base r out + n)) out.buf0) (
        Owns-next w r (destroy_fb-Owns card.drm w r (held_base r out + n) out.buf1) (
          Owns-next w r
            (Owns-same w r (omega arith) (λ _ _. (refl, tt))
              (Owns-give w r (same r (device out.self) + n) (blob out.mode_blob_id)))
            (Owns-give w r n (device out.self)))))

module _ (card : Card) (known : Known card) (w : Bool) (r : Resource) (n : ℕ) where
  -- How a part of `modeset_output_create` ends that starts with `base` held.
  abbrev Creates : ℕ → (ℕ → Type 0) → Program (Option Output) → Type 0
  Creates base P p = Owns w r (base + n) p (λ made. held_made r made + n) (MadeWith P)

  out_error-Owns :
      (P : ℕ → Type 0) (out : Output) → Creates (same r (device out.self)) P (out_error card out)
  unfolding out_error
  out_error-Owns P out = Owns-next w r (Owns-give w r n _) (Owns-pure w r _ (omega arith) tt)

  out_blob-Owns : (P : ℕ → Type 0) (out : Output) → Creates (held_base r out) P (out_blob card out)
  unfolding out_blob
  out_blob-Owns P out =
      Owns-next w r
        (Owns-same w r (omega arith) (λ _ _. (refl, tt))
          (Owns-give w r (same r (device out.self) + n) (blob out.mode_blob_id)))
        (out_error-Owns _ out)

  out_obj-Owns :
      (P : ℕ → Type 0) (out : Output)
      → IsReady out
      → Creates (held_objects r out + held_base r out) P (out_obj card out)
  unfolding out_obj
  out_obj-Owns P out h =
      Owns-next w r
        (Owns-same w r (omega arith) (λ _ _. (refl, tt))
          (destroy_objects-Owns w r (held_base r out + n) out h))
        (out_blob-Owns _ out)

  IsReady-Fills :
      (out : Output) (made : Status × Output) → Fills out made → IsReady out → IsReady made.1
  IsReady-Fills out made f h = record {
    conn = rw f.0 h.conn;
    crtc = rw f.1 h.crtc;
    plane = rw f.2 h.plane;
  }

  held-Fills :
      (out : Output) (made : Status × Output)
      → Fills out made
      → held_objects r made.1 + held_base r made.1 ≡ held_objects r out + held_base r out
  held-Fills out made f = rw (f.0, f.1, f.2, f.3, f.4) refl

  with_objects-Owns :
      (m : ModeInfo) (out : Output)
      → IsReady out
      → Creates
          (held_objects r out + held_base r out)
          (λ c. c ≡ out.crtc.id)
          (with_objects card m out)
  unfolding with_objects
  with_objects-Owns m out h = Owns-bind w r (setup_framebuffers-Owns card w r _ m out) (λ made f.
      Owns-status w r _ made.0
        (λ e q.
          Owns-same w r
            (let z = held_after-err (held_buffers r) made e q in
              let k = held-Fills out made f in omega arith)
            (λ _ k. (refl, k)) (out_obj-Owns _ made.1 (IsReady-Fills out made f h)))
        (λ q.
          Owns-pure w r _
            (let z = held_after-ok (held_buffers r) made q in
              let k = held-Fills out made f in omega arith)
            (IsReady-Fills out made f h, ap (λ obj. obj.id) f.1)))

  Sets-IsReady :
      (at id c : ℕ) (made : Status × Output) → Sets at id c made → made.0 ≡ ok → IsReady made.1
  Sets-IsReady at id c (ok, out) s q = s.1
  Sets-IsReady at id c (err e, out) s q = absurd (ground arith)

  Sets-base :
      (out : Output) (made : Status × Output)
      → Sets out.self out.mode_blob_id out.crtc.id made
      → held_base r made.1 ≡ held_base r out
  Sets-base out (ok, out') s = rw (s.0.self, s.0.blob) refl
  Sets-base out (err e, out') s = rw (s.self, s.blob) refl

  Sets-chosen : (at id c : ℕ) (made : Status × Output) → Sets at id c made → made.1.crtc.id ≡ c
  Sets-chosen at id c (ok, out) s = s.0.chosen
  Sets-chosen at id c (err e, out) s = s.chosen

  -- The same of the CRTC, differently put.
  MadeWith-map :
      {P Q : ℕ → Type 0} (made : Option Output)
      → ((c : ℕ) → P c → Q c)
      → MadeWith P made
      → MadeWith Q made
  MadeWith-map none f h = tt
  MadeWith-map (some out) f h = (h.0, f _ h.1)

  with_plane-Owns :
      (m : ModeInfo) (out : Output)
      → Creates (held_base r out) (λ c. c ≡ out.crtc.id) (with_plane card m out)
  unfolding with_plane
  with_plane-Owns m out = Owns-bind w r (setup_objects-Owns card known w r _ out) (λ made s.
      let base = Sets-base out made s in
      Owns-status w r _ made.0
        (λ e q.
          Owns-same w r (let z = held_after-err (held_objects r) made e q in omega arith)
            (λ _ k. (refl, k)) (out_blob-Owns _ made.1))
        (λ q.
          Owns-same w r (let z = held_after-ok (held_objects r) made q in omega arith)
            (λ o k. (refl, MadeWith-map o (λ c e. e ∙ Sets-chosen _ _ _ made s) k))
            (with_objects-Owns m made.1 (Sets-IsReady _ _ _ made s q))))

  PicksCrtc-New :
      (used : List ℕ) (res : Resources) (c : Connector) (route : Route) (made : Status × Route)
      → PicksCrtc card used res c route made
      → made.0 ≡ ok
      → IsNew used made.1.crtc
  PicksCrtc-New used res c route (ok, route') p q = p.0
  PicksCrtc-New used res c route (err e, route') p q = absurd (ground arith)

  with_crtc-Owns :
      (m : ModeInfo) (out : Output)
      → Creates (held_base r out) (λ c. c ≡ out.crtc.id) (with_crtc card m out)
  unfolding with_crtc
  with_crtc-Owns m out = Owns-bind w r (find_plane-Owns card w r known _ (route_of out)) (λ made e.
      Owns-status w r _ made.0 (λ x q. out_blob-Owns _ (with_route out made.1))
        (λ q.
          Owns-same w r refl (λ o k. (refl, MadeWith-map o (λ c p. p ∙ e) k))
            (with_plane-Owns m (with_route out made.1))))

  with_blob-Owns :
      (used : List ℕ) (res : Resources) (c : Connector) (m : ModeInfo) (out : Output)
      → Creates (held_base r out) (IsNew used) (with_blob card used res c m out)
  unfolding with_blob
  with_blob-Owns used res c m out =
      Owns-bind w r (find_crtc-Owns card w r _ used res c (route_of out)) (λ made p.
        Owns-status w r _ made.0 (λ x q. out_blob-Owns _ (with_route out made.1))
          (λ q.
            Owns-same w r refl
              (λ o k. (
                refl,
                MadeWith-map o
                    (λ x e.
                      subst (IsNew used) (sym e) (PicksCrtc-New used res c (route_of out) made p q))
                    k,
              ))
              (with_crtc-Owns m (with_route out made.1))))

  with_mode-Owns :
      (used : List ℕ) (res : Resources) (c : Connector) (m : ModeInfo) (out : Output)
      → Creates (same r (device out.self)) (IsNew used) (with_mode card used res c m out)
  unfolding with_mode
  with_mode-Owns used res c m out =
      Owns-bind w r (Owns-look w r _ (λ log. card.create_blob log m)) (λ made _.
        Owns-fetch w r _ blob made (λ _. out_error-Owns _ out)
          (λ id _.
            Owns-same w r (omega arith) (λ _ k. (refl, k))
              (with_blob-Owns used res c m (record out { mode_blob_id = id }))))

  first_mode-Owns :
      (used : List ℕ) (res : Resources) (c : Connector) (ms : List ModeInfo) (out : Output)
      → Creates (same r (device out.self)) (IsNew used) (first_mode card used res c ms out)
  unfolding first_mode
  first_mode-Owns used res c [] out = out_error-Owns _ out
  first_mode-Owns used res c (m ∷ ms) out = with_mode-Owns used res c m (record out { mode = m })

  pub output_create-Owns :
      (used : List ℕ) (res : Resources) (c : Connector)
      → Owns w r n
          (output_create card used res c)
          (λ made. held_made r made + n)
          (MadeWith (IsNew used))
  unfolding output_create
  output_create-Owns used res c = Owns-bind w r (Owns-look w r n card.drm.malloc) (λ self _.
      Owns-next w r (Owns-get w r n (device self)) (
        Owns-if w r c.connected (first_mode-Owns used res c c.modes (blank self c.connector_id))
          (out_error-Owns _ (blank self c.connector_id))))
