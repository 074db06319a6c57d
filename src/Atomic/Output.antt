-- ===== src/Atomic/Output.antt =====
-- `struct modeset_output`, `modeset_open`, and the functions of
-- perftools/X/drm-howto/modeset-atomic.c that create and destroy outputs. `modeset_create_fb` and
-- `modeset_destroy_fb` are those of modeset-double-buffered.c, the first with `drmModeAddFB2`.
pub mod Objects
pub mod Balance
pub mod Open
pub mod Prepare
use Prim.Native.String.{String}
use debian_config_files.Base.{
  ℕ, Bool, false, ◌&&◌, Option, none, some, List, [], ◌∷◌, if◌then◌else◌,
}
use debian_config_files.Modeset.Kernel.{
  ModeInfo, Connector, Resources, Reply, done, fail, descriptor, resources, connector, device, blob,
  refuse, eopnotsupp,
}
use debian_config_files.Modeset.Setup.{Status, ok, err}
use debian_config_files.Modeset.Draw.{Buf, Shade}
use debian_config_files.Double.Setup.{blank_buf, create_fb, destroy_fb}
use debian_config_files.Atomic.Program.{
  is_null, on_status, connector_type, crtc_type, plane_type, universal_planes, atomic, Card,
  Program, pure, ◌>>=◌, ◌>>◌, look, change, emit, get, give, fetch, lift, enomem,
}
use debian_config_files.Atomic.Objects.{DrmObject, get_object_properties, drm_object_fini}
use debian_config_files.Atomic.Choice.{Route, find_crtc, find_plane}

-- `self` is the address that `malloc` gave; the list link is the list's, and `front` is `front_buf`.
-- (`calls` of the shade is not a field; the count of calls of `rand()` is the machine's.)
pub record Output : Type 0 where
  pub self : ℕ
  pub front : Bool
  pub buf0 : Buf
  pub buf1 : Buf
  pub conn : DrmObject
  pub crtc : DrmObject
  pub plane : DrmObject
  pub mode : ModeInfo
  pub mode_blob_id : ℕ
  pub crtc_index : ℕ
  pub pending : Bool
  pub cleanup : Bool
  pub shade : Shade

abbrev pub crtcs_of : List Output → List ℕ
crtcs_of [] = []
crtcs_of (out ∷ outs) = out.crtc.id ∷ crtcs_of outs

-- `pflip_pending` of the first output.
abbrev pub first_pending : List Output → Bool
first_pending [] = false
first_pending (out ∷ outs) = out.pending

abbrev pub blank_object : ℕ → DrmObject
blank_object id = record { id = id; props = none; info_at = 0; info = [] }

-- `memset(out, 0, sizeof(*out))` and `out->connector.id = …`.
abbrev pub blank : ℕ → ℕ → Output
blank self id = record {
  self = self;
  front = false;
  buf0 = blank_buf 0 0;
  buf1 = blank_buf 0 0;
  conn = blank_object id;
  crtc = blank_object 0;
  plane = blank_object 0;
  mode = record { hdisplay = 0; vdisplay = 0; timings = 0 };
  mode_blob_id = 0;
  crtc_index = 0;
  pending = false;
  cleanup = false;
  shade = record { r = 0; g = 0; b = 0; r_up = false; g_up = false; b_up = false; calls = 0 };
}

abbrev pub route_of : Output → Route
route_of out = record { crtc = out.crtc.id; crtc_index = out.crtc_index; plane = out.plane.id }

abbrev pub with_route : Output → Route → Output
with_route out route = record out {
  crtc = record out.crtc { id = route.crtc };
  crtc_index = route.crtc_index;
  plane = record out.plane { id = route.plane };
}

-- The first buffer, of a mode's size.
abbrev pub sized : ModeInfo → Buf → Buf
sized m b = record b { width = m.hdisplay; height = m.vdisplay }

pub destroy_objects : Output → Program (Unit {0})
destroy_objects out =
    drm_object_fini out.conn >> drm_object_fini out.crtc >> drm_object_fini out.plane

pub output_destroy : Output → Program (Unit {0})
output_destroy out = do
  destroy_objects out
  change (destroy_fb out.buf0)
  change (destroy_fb out.buf1)
  give (blob out.mode_blob_id)
  give (device out.self)

-- What the loop of `modeset_prepare` does with an output.
pub link : Option Output → List Output → List Output
link none outs = outs
link (some out) outs = out ∷ outs

-- What it does after the loop.
pub finish_prepare : List Output → Program (Status × List Output)
finish_prepare [] = pure (err 1, [])
finish_prepare (out ∷ outs) = give resources >> pure (ok, out ∷ outs)

module _ (card : Card) where
  -- From the first `drmGetCap` on.
  pub check_caps : ℕ → Program (Reply ℕ)
  check_caps fd =
      if card.drm.has_dumb fd && card.has_crtc_events fd
      then pure (done fd)
      else (give (descriptor fd) >> pure (fail eopnotsupp))

  -- `modeset_open`; `done fd` is `*out = fd; return 0`.
  pub open_from : Reply ℕ → Program (Reply ℕ)
  open_from (fail e) = emit refuse >> pure (fail e)
  open_from (done fd) =
      get (descriptor fd)
      >> on_status (card.set_cap fd universal_planes) (λ e. pure (fail e))
          (on_status (card.set_cap fd atomic) (λ e. pure (fail e)) (check_caps fd))

  pub open_card : String → Program (Reply ℕ)
  open_card node = look (λ log. card.drm.open_node log node) >>= open_from

  -- From the properties of the plane on: they, and the way back.
  pub setup_plane : Output → Program (Status × Output)
  setup_plane out = get_object_properties card plane_type out.plane >>= λ plane.
      if is_null plane.props
      then (do
        drm_object_fini out.crtc
        drm_object_fini out.conn
        pure (err enomem, record out { plane = plane }))
      else pure (ok, record out { plane = plane })

  pub setup_crtc : Output → Program (Status × Output)
  setup_crtc out = get_object_properties card crtc_type out.crtc >>= λ crtc.
      if is_null crtc.props
      then (drm_object_fini out.conn >> pure (err enomem, record out { crtc = crtc }))
      else setup_plane (record out { crtc = crtc })

  pub setup_objects : Output → Program (Status × Output)
  setup_objects out = get_object_properties card connector_type out.conn >>= λ conn.
      if is_null conn.props
      then pure (err enomem, record out { conn = conn })
      else setup_crtc (record out { conn = conn })

  -- The second round of the loop over the two buffers.
  pub second_framebuffer : ModeInfo → Output → Program (Status × Output)
  second_framebuffer m out = lift (create_fb card.drm (sized m out.buf1)) >>= λ made.
      on_status made.0
        (λ e. change (destroy_fb out.buf0) >> pure (err e, record out { buf1 = made.1 }))
        (pure (ok, record out { buf1 = made.1 }))

  -- `m` is the connector's first mode.
  pub setup_framebuffers : ModeInfo → Output → Program (Status × Output)
  setup_framebuffers m out = lift (create_fb card.drm (sized m out.buf0)) >>= λ made.
      on_status made.0 (λ e. pure (err e, record out { buf0 = made.1 }))
        (second_framebuffer m (record out { buf0 = made.1 }))

  -- The labels `out_error`, `out_blob` and `out_obj`.
  pub out_error : Output → Program (Option Output)
  out_error out = give (device out.self) >> pure none

  pub out_blob : Output → Program (Option Output)
  out_blob out = give (blob out.mode_blob_id) >> out_error out

  pub out_obj : Output → Program (Option Output)
  out_obj out = destroy_objects out >> out_blob out

  -- From the step named on to the end of `modeset_output_create`.
  pub with_objects : ModeInfo → Output → Program (Option Output)
  with_objects m out = setup_framebuffers m out >>= λ made.
      on_status made.0 (λ e. out_obj made.1) (pure (some made.1))

  pub with_plane : ModeInfo → Output → Program (Option Output)
  with_plane m out =
      setup_objects out >>= λ made. on_status made.0 (λ e. out_blob made.1) (with_objects m made.1)

  pub with_crtc : ModeInfo → Output → Program (Option Output)
  with_crtc m out = find_plane card (route_of out) >>= λ made.
      on_status made.0 (λ e. out_blob (with_route out made.1))
        (with_plane m (with_route out made.1))

  pub with_blob : List ℕ → Resources → Connector → ModeInfo → Output → Program (Option Output)
  with_blob used res c m out = find_crtc card used res c (route_of out) >>= λ made.
      on_status made.0 (λ e. out_blob (with_route out made.1)) (with_crtc m (with_route out made.1))

  pub with_mode : List ℕ → Resources → Connector → ModeInfo → Output → Program (Option Output)
  with_mode used res c m out = look (λ log. card.create_blob log m) >>= λ made.
      fetch blob made >>= λ answer. elim answer [
        | none ↦ out_error out
        | some id ↦ with_blob used res c m (record out { mode_blob_id = id })
      ]

  pub first_mode : List ℕ → Resources → Connector → List ModeInfo → Output → Program (Option Output)
  first_mode used res c [] out = out_error out
  first_mode used res c (m ∷ _) out = with_mode used res c m (record out { mode = m })

  -- `none` is a null pointer.
  pub output_create : List ℕ → Resources → Connector → Program (Option Output)
  output_create used res c = do
    self ← look card.drm.malloc
    get (device self)
    (if c.connected
        then first_mode used res c c.modes (blank self c.connector_id)
        else out_error (blank self c.connector_id))

  -- The body of the loop of `modeset_prepare`; it gives the list of outputs.
  pub prepare_connector : Resources → ℕ → List Output → Program (List Output)
  prepare_connector res id outs =
      fetch (λ c. connector c.connector_id) (card.drm.get_connector id) >>= λ answer. elim answer [
        | none ↦ pure outs
        | some c ↦ do
          made ← output_create (crtcs_of outs) res c
          give (connector c.connector_id)
          pure (link made outs)
      ]

  pub prepare_connectors : Resources → List ℕ → List Output → Program (List Output)
  prepare_connectors res [] outs = pure outs
  prepare_connectors res (id ∷ ids) outs =
      prepare_connector res id outs >>= prepare_connectors res ids

  -- `modeset_prepare` from the answer of `drmModeGetResources` on.
  pub prepare_from : Reply Resources → Program (Status × List Output)
  prepare_from (fail e) = emit refuse >> pure (err e, [])
  prepare_from (done res) = do
    get resources
    outs ← prepare_connectors res res.connectors []
    finish_prepare outs

  pub prepare : Program (Status × List Output)
  prepare = look card.drm.get_resources >>= prepare_from
