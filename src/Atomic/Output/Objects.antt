-- ===== src/Atomic/Output/Objects.antt =====
-- The parts of an output of perftools/X/drm-howto/modeset-atomic.c: what its objects and its
-- framebuffers hold.
use debian_config_files.Base.{
  Bool, ℕ, ◌+◌, ◌≡◌, ◌≢◌, refl, true, false, Option, none, some, arith, subst,
}
use debian_config_files.Modeset.Kernel.{ModeInfo, Resource, Drm}
use debian_config_files.Modeset.Setup.{Status, ok, err}
use debian_config_files.Modeset.Draw.{Buf}
use debian_config_files.Double.Setup.{create_fb, destroy_fb}
use debian_config_files.Double.Setup.Balance.{
  held_buf, create_fb-Gains, destroy_fb-released, fb_held,
}
use debian_config_files.Atomic.Program.{
  Card, is_null, change, lift, connector_type, crtc_type, plane_type,
}
use debian_config_files.Atomic.Program.Owns.{
  Owns, Any, Owns-bind, Owns-next, Owns-pure, Owns-same, Owns-test, Owns-status,
}
use debian_config_files.Atomic.Objects.{DrmObject, drm_object_fini}
use debian_config_files.Atomic.Objects.Balance.{
  Known, held_object, held_props, IsLoaded, get_object_properties-Owns, drm_object_fini-Owns,
}
use debian_config_files.Atomic.Output.{
  Output, sized, destroy_objects, setup_plane, setup_crtc, setup_objects, second_framebuffer,
  setup_framebuffers,
}

abbrev pub held_objects : Resource → Output → ℕ
held_objects r out = held_object r out.conn + held_object r out.crtc + held_object r out.plane

-- The properties of the three objects are there.
pub record IsReady (out : Output) : Type 0 where
  pub conn : IsLoaded out.conn
  pub crtc : IsLoaded out.crtc
  pub plane : IsLoaded out.plane

-- Nothing that `modeset_output_create` frees by itself has changed, nor the choice of the CRTC.
pub record Keeps (at id c : ℕ) (out : Output) : Type 0 where
  pub self : out.self ≡ at
  pub blob : out.mode_blob_id ≡ id
  pub chosen : out.crtc.id ≡ c

not_null {ℓ} : {A : Type ℓ} (o : Option A) → is_null o ≡ false → o ≢ none
not_null o h e = ground arith

held_null : (r : Resource) (obj : DrmObject) → is_null obj.props ≡ true → held_object r obj ≡ 0
held_null r obj h = go obj.props h
  where
    go : (props : _) → is_null props ≡ true → held_props r props obj.id obj.info_at obj.info ≡ 0
    go none e = refl
    go (some props) e = absurd (ground arith)

-- What is held when a step of `modeset_output_create` returns: `f` of the output after a success.
abbrev pub held_after : (Output → ℕ) → Status × Output → ℕ
held_after f (ok, out) = f out
held_after f (err e, out) = 0

abbrev pub Sets : ℕ → ℕ → ℕ → Status × Output → Type 0
Sets at id c (ok, out) = Keeps at id c out × IsReady out
Sets at id c (err e, out) = Keeps at id c out

abbrev same_buf : Resource → Status × Buf → ℕ
same_buf r (ok, b) = held_buf r b
same_buf r (err e, b) = 0

module _ (w : Bool) (r : Resource) (n : ℕ) where
  fini-Owns :
      (obj : DrmObject)
      → IsLoaded obj
      → Owns w r (held_object r obj + n) (drm_object_fini obj) (λ _. n) Any
  fini-Owns obj h = drm_object_fini-Owns w r obj n h.props

pub destroy_objects-Owns :
    (w : Bool) (r : Resource) (n : ℕ) (out : Output)
    → IsReady out
    → Owns w r (held_objects r out + n) (destroy_objects out) (λ _. n) Any
unfolding destroy_objects
destroy_objects-Owns w r n out h =
    Owns-next w r
      (Owns-next w r
        (Owns-same w r (omega arith) (λ _ _. (refl, tt))
          (fini-Owns w r (held_object r out.crtc + (held_object r out.plane + n)) out.conn h.conn))
        (fini-Owns w r (held_object r out.plane + n) out.crtc h.crtc))
      (fini-Owns w r n out.plane h.plane)

module _ (card : Card) (known : Known card) (w : Bool) (r : Resource) (n : ℕ) where
  setup_plane-Owns :
      (out : Output)
      → IsLoaded out.conn
      → IsLoaded out.crtc
      → Owns w r
          (held_object r out.crtc + (held_object r out.conn + n))
          (setup_plane card out)
          (λ made. held_after (held_objects r) made + n)
          (Sets out.self out.mode_blob_id out.crtc.id)
  unfolding setup_plane
  setup_plane-Owns out hc hr =
      Owns-bind w r (get_object_properties-Owns card w r known plane_type out.plane _) (λ plane l.
        Owns-test w r (is_null plane.props)
          (λ e.
            Owns-next w r
              (Owns-same w r (omega (arith, held_null r plane e)) (λ _ _. (refl, tt))
                (fini-Owns w r (held_object r out.conn + n) out.crtc hr))
              (Owns-next w r (fini-Owns w r n out.conn hc) (
                Owns-pure w r _ (omega arith)
                  (record { self = refl; blob = refl; chosen = refl }))))
          (λ e. Owns-pure w r _ (omega arith) (
            record { self = refl; blob = refl; chosen = refl },
            record { conn = hc; crtc = hr; plane = l.1 (not_null plane.props e) },
          )))

  setup_crtc-Owns :
      (out : Output)
      → IsLoaded out.conn
      → Owns w r
          (held_object r out.conn + n)
          (setup_crtc card out)
          (λ made. held_after (held_objects r) made + n)
          (Sets out.self out.mode_blob_id out.crtc.id)
  unfolding setup_crtc
  setup_crtc-Owns out hc =
      Owns-bind w r (get_object_properties-Owns card w r known crtc_type out.crtc _) (λ crtc l.
        Owns-test w r (is_null crtc.props)
          (λ e.
            Owns-next w r
              (Owns-same w r (omega (arith, held_null r crtc e)) (λ _ _. (refl, tt))
                (fini-Owns w r n out.conn hc))
              (Owns-pure w r _ (omega arith) (record { self = refl; blob = refl; chosen = l.0 })))
          (λ e.
            Owns-same w r refl
              (λ made h. (refl, subst (λ c. Sets out.self out.mode_blob_id c made) l.0 h))
              (setup_plane-Owns (record out { crtc = crtc }) hc (l.1 (not_null crtc.props e)))))

  pub setup_objects-Owns :
      (out : Output)
      → Owns w r n
          (setup_objects card out)
          (λ made. held_after (held_objects r) made + n)
          (Sets out.self out.mode_blob_id out.crtc.id)
  unfolding setup_objects
  setup_objects-Owns out =
      Owns-bind w r (get_object_properties-Owns card w r known connector_type out.conn n) (λ conn l.
        Owns-test w r (is_null conn.props)
          (λ e.
            Owns-pure w r _ (omega (arith, held_null r conn e))
              (record { self = refl; blob = refl; chosen = refl }))
          (λ e. setup_crtc-Owns (record out { conn = conn }) (l.1 (not_null conn.props e))))

module _ (drm : Drm) (w : Bool) (r : Resource) where
  create_fb-Owns :
      (n : ℕ) (b : Buf) → Owns w r n (lift (create_fb drm b)) (λ made. same_buf r made + n) Any
  unfolding lift
  create_fb-Owns n b = record {
    runs = λ m l c q.
        let g = create_fb-Gains drm r b m.world in
        let e = fb_held-same (create_fb drm b m.world) in (omega arith, tt);
  }
    where
      fb_held-same : (made : Status × Buf × _) → fb_held r made ≡ same_buf r (made.0, made.1)
      fb_held-same (ok, b, w) = refl
      fb_held-same (err e, b, w) = refl

  pub destroy_fb-Owns :
      (n : ℕ) (b : Buf) → Owns w r (held_buf r b + n) (change (destroy_fb b)) (λ _. n) Any
  unfolding change
  destroy_fb-Owns n b = record {
    runs = λ m l c q. (let g = destroy_fb-released drm r b m.world in omega arith, tt);
  }

-- A step that only fills in buffers.
abbrev pub Fills : Output → Status × Output → Type 0
Fills out made =
    (made.1.conn ≡ out.conn)
    × (made.1.crtc ≡ out.crtc)
    × (made.1.plane ≡ out.plane)
    × (made.1.self ≡ out.self)
    × (made.1.mode_blob_id ≡ out.mode_blob_id)

abbrev pub held_buffers : Resource → Output → ℕ
held_buffers r out = held_buf r out.buf0 + held_buf r out.buf1

pub held_after-err :
    (f : Output → ℕ) (made : Status × Output) (e : ℕ) → made.0 ≡ err e → held_after f made ≡ 0
held_after-err f (ok, out) e h = absurd (ground arith)
held_after-err f (err x, out) e h = refl

pub held_after-ok :
    (f : Output → ℕ) (made : Status × Output) → made.0 ≡ ok → held_after f made ≡ f made.1
held_after-ok f (ok, out) h = refl
held_after-ok f (err x, out) h = absurd (ground arith)

module _ (card : Card) (w : Bool) (r : Resource) (n : ℕ) (m : ModeInfo) where
  same_buf-err : (made : Status × Buf) (e : ℕ) → made.0 ≡ err e → same_buf r made ≡ 0
  same_buf-err (ok, b) e h = absurd (ground arith)
  same_buf-err (err x, b) e h = refl

  same_buf-ok : (made : Status × Buf) → made.0 ≡ ok → same_buf r made ≡ held_buf r made.1
  same_buf-ok (ok, b) h = refl
  same_buf-ok (err x, b) h = absurd (ground arith)

  second_framebuffer-Owns :
      (out : Output)
      → Owns w r
          (held_buf r out.buf0 + n)
          (second_framebuffer card m out)
          (λ made. held_after (held_buffers r) made + n)
          (Fills out)
  unfolding second_framebuffer
  second_framebuffer-Owns out =
      Owns-bind w r (create_fb-Owns card.drm w r _ (sized m out.buf1)) (λ made _.
        Owns-status w r _ made.0
          (λ e h.
            Owns-next w r
              (Owns-same w r (omega (arith, same_buf-err made e h)) (λ _ _. (refl, tt))
                (destroy_fb-Owns card.drm w r n out.buf0))
              (Owns-pure w r _ (omega arith) (refl, refl, refl, refl, refl)))
          (λ h. Owns-pure w r _ (omega (arith, same_buf-ok made h)) (refl, refl, refl, refl, refl)))

  pub setup_framebuffers-Owns :
      (out : Output)
      → Owns w r n
          (setup_framebuffers card m out)
          (λ made. held_after (held_buffers r) made + n)
          (Fills out)
  unfolding setup_framebuffers
  setup_framebuffers-Owns out =
      Owns-bind w r (create_fb-Owns card.drm w r n (sized m out.buf0)) (λ made _.
        Owns-status w r _ made.0
          (λ e h.
            Owns-pure w r _ (omega (arith, same_buf-err made e h)) (refl, refl, refl, refl, refl))
          (λ h.
            Owns-same w r (omega (arith, same_buf-ok made h)) (λ _ f. (refl, f))
              (second_framebuffer-Owns (record out { buf0 = made.1 }))))
