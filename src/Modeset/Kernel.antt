-- ===== src/Modeset/Kernel.antt =====
-- What the modeset programs of perftools/X/drm-howto ask of libdrm and the kernel, with the answers
-- to modeset.c as parameters, and the record of a run: the calls made so far and the memory.
pub mod Balance
use debian_config_files.Base.{
  ℕ, Bool, Option, List, ◌&&◌, ◌+◌, ◌<◌, leb, ltb, if◌then◌else◌, ◌≡◌, refl, ◌⊎◌, inl, inr,
}
use Prim.Native.String.{String}

-- The fields of libdrm's structures that the program reads. `timings` stands for the rest of a
-- `drmModeModeInfo`, which is only copied.
pub record ModeInfo : Type 0 where
  pub hdisplay : ℕ
  pub vdisplay : ℕ
  pub timings : ℕ

pub record Encoder : Type 0 where
  pub crtc_id : ℕ
  pub possible_crtcs : ℕ

pub record Connector : Type 0 where
  pub connector_id : ℕ
  pub connected : Bool
  pub modes : List ModeInfo
  pub encoder_id : ℕ
  pub encoders : List ℕ

pub record Resources : Type 0 where
  pub connectors : List ℕ
  pub crtcs : List ℕ

pub record SavedCrtc : Type 0 where
  pub crtc_id : ℕ
  pub buffer_id : ℕ
  pub x : ℕ
  pub y : ℕ
  pub mode : ModeInfo

-- The answer to `DRM_IOCTL_MODE_CREATE_DUMB`. `size` has 64 bits.
pub record Dumb : Type 0 where
  pub handle : ℕ
  pub pitch : ℕ
  pub size : ℕ

-- What a call returns: its value, or the `errno` of its failure.
pub data Reply {ℓ} (A : Type ℓ) : Type ℓ where
  done : A → Reply A
  fail : ℕ → Reply A

-- What the program must give back after it has got it.
pub data Resource : Type 0 where
  descriptor : ℕ → Resource
  resources : Resource
  connector : ℕ → Resource
  device : ℕ → Resource
  encoder : ℕ → Resource
  dumb_buffer : ℕ → Resource
  framebuffer : ℕ → Resource
  mapping : ℕ → Resource
  saved_crtc : ℕ → Resource
  plane_list : Resource
  plane : ℕ → Resource
  properties : ℕ → Resource
  property : ℕ → Resource
  array : ℕ → Resource
  blob : ℕ → Resource
  request : ℕ → Resource

-- The arguments of `drmModeSetCrtc` after the descriptor; there is always one connector.
pub record CrtcSetting : Type 0 where
  pub crtc : ℕ
  pub buffer : ℕ
  pub x : ℕ
  pub y : ℕ
  pub conn : ℕ
  pub mode : ModeInfo

-- One entry of an atomic request: a property of an object is to have a value.
pub record Setting : Type 0 where
  pub object : ℕ
  pub prop : ℕ
  pub value : ℕ

-- The flags of `drmModeAtomicCommit`.
pub record CommitFlags : Type 0 where
  pub test_only : Bool
  pub allow_modeset : Bool
  pub flip_event : Bool
  pub nonblock : Bool

-- A call that was made: a resource got, a resource given back, a refusal, a CRTC set, a page flip
-- of a CRTC to a framebuffer scheduled, an atomic request committed.
pub data Event : Type 0 where
  acquire : Resource → Event
  release : Resource → Event
  refuse : Event
  set_crtc : CrtcSetting → Event
  page_flip : ℕ → ℕ → Event
  commit : CommitFlags → List Setting → Event

-- The newest call first.
abbrev pub Log : Type 0
Log = List Event

pub record World : Type 0 where
  pub log : Log
  pub memory : ℕ → ℕ

-- Calls that may change the kernel's state are answered from the calls before them; the queries
-- of one encoder, connector or CRTC are answered alike as long as the program runs.
pub record Drm : Type 0 where
  pub open_node : Log → String → Reply ℕ
  -- `drmGetCap` succeeds and reports dumb buffers.
  pub has_dumb : ℕ → Bool
  pub get_resources : Log → Reply Resources
  pub get_connector : ℕ → Option Connector
  pub get_encoder : ℕ → Option Encoder
  pub get_crtc : ℕ → Option SavedCrtc
  -- `malloc`, which the program takes to succeed.
  pub malloc : Log → ℕ
  pub create_dumb : Log → ℕ → ℕ → Reply Dumb
  pub add_fb : Log → ℕ → ℕ → ℕ → ℕ → Reply ℕ
  pub map_dumb : Log → ℕ → Reply ℕ
  pub mmap : Log → ℕ → ℕ → Reply ℕ
  -- The `n`-th result of `rand()`.
  pub rand : ℕ → ℕ

-- `memset(p, 0, n)` at the address `a`.
abbrev pub clear : (ℕ → ℕ) → ℕ → ℕ → ℕ → ℕ
clear memory a n p = if leb a p && ltb p (a + n) then 0 else memory p

-- The `errno` values that the program returns by name.
abbrev pub enoent : ℕ
enoent = 2

abbrev pub efault : ℕ
efault = 14

abbrev pub eopnotsupp : ℕ
eopnotsupp = 95

pub Reply-cases {ℓ} :
    {A : Type ℓ} (r : Reply A) → ((a : A) × (r ≡ done a)) ⊎ ((e : ℕ) × (r ≡ fail e))
Reply-cases (done a) = inl (a, refl)
Reply-cases (fail e) = inr (e, refl)
