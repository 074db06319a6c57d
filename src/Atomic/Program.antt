-- ===== src/Atomic/Program.antt =====
-- The state that perftools/X/drm-howto/modeset-atomic.c runs in, what it asks of libdrm beside the
-- calls of modeset.c, and its programs: what they do in a state.
pub mod Owns
use Prim.Native.String.{String}
use debian_config_files.Base.{ℕ, ◌+◌, Bool, true, false, Option, none, some, List, [], ◌∷◌}
use debian_config_files.Modeset.Kernel.{
  ModeInfo, Encoder, Resource, Setting, CommitFlags, Event, acquire, release, refuse, Log, World,
  Drm,
}
use debian_config_files.Modeset.Setup.{Status, ok, err, note}

-- The fields of a plane and of a property that the program reads.
pub record Plane : Type 0 where
  pub possible_crtcs : ℕ

pub record PropertyInfo : Type 0 where
  pub prop_id : ℕ
  pub name : String

-- The properties of an object, each with its value.
abbrev pub Properties : Type 0
Properties = List (ℕ × ℕ)

pub data ObjectType : Type 0 where
  connector_type : ObjectType
  crtc_type : ObjectType
  plane_type : ObjectType

pub data ClientCap : Type 0 where
  universal_planes : ClientCap
  atomic : ClientCap

-- The calls that only this program makes; those of the other programs are in `drm`. A `Status` is
-- what the call returns. `primary_plane` is `DRM_PLANE_TYPE_PRIMARY`.
pub record Card : Type 0 where
  pub drm : Drm
  pub set_cap : ℕ → ClientCap → Status
  -- `drmGetCap` succeeds and reports that events name their CRTC.
  pub has_crtc_events : ℕ → Bool
  pub get_property : ℕ → Option PropertyInfo
  pub object_properties : ObjectType → ℕ → Option Properties
  pub get_planes : Log → Option (List ℕ)
  pub get_plane : ℕ → Option Plane
  pub primary_plane : ℕ
  pub create_blob : Log → ModeInfo → Option ℕ
  -- `drmModeAtomicAlloc` and `calloc`, which the program takes to succeed.
  pub alloc_request : Log → ℕ
  pub calloc : Log → ℕ
  pub add_property : Log → Setting → Status
  pub try_commit : Log → CommitFlags → List Setting → Status

-- `rands` counts the calls of `rand()`.
pub record Machine : Type 0 where
  pub world : World
  pub rands : ℕ

-- How a part of a run ends. `faulted` is a read through a null pointer, and `waiting` waits for an
-- event that does not come.
pub data Ending {ℓ} (A : Type ℓ) : Type ℓ where
  returned : A → Machine → Ending A
  faulted : Ending A
  waiting : Ending A

abbrev pub Program {ℓ} : Type ℓ → Type ℓ
Program A = Machine → Ending A

unfoldable pub pure {ℓ} : {A : Type ℓ} → A → Program A
pure a m = returned a m

unfoldable pub fault {ℓ} : {A : Type ℓ} → Program A
fault m = faulted

unfoldable pub wait {ℓ} : {A : Type ℓ} → Program A
wait m = waiting

module _ {ℓ κ} {A : Type ℓ} {B : Type κ} where
  abbrev pub and_then : Ending A → (A → Program B) → Ending B
  and_then (returned a m) f = f a m
  and_then faulted f = faulted
  and_then waiting f = waiting

  infixl 5 ◌>>=◌ ◌>>◌
  unfoldable pub ◌>>=◌ : Program A → (A → Program B) → Program B
  ◌>>=◌ p f m = and_then (p m) f

  abbrev pub ◌>>◌ : Program A → Program B → Program B
  p >> q = p >>= λ _. q

-- What depends on the calls made so far.
unfoldable pub look {ℓ} : {A : Type ℓ} → (Log → A) → Program A
look f m = returned (f m.world.log) m

unfoldable pub change : (World → World) → Program (Unit {0})
change f m = returned tt (record m { world = f m.world })

unfoldable pub emit : Event → Program (Unit {0})
emit e = change (note e)

unfoldable pub get : Resource → Program (Unit {0})
get r = emit (acquire r)

unfoldable pub give : Resource → Program (Unit {0})
give r = emit (release r)

-- A call whose answer is a pointer to what `r` names.
unfoldable pub fetch {ℓ} : {A : Type ℓ} → (A → Resource) → Option A → Program (Option A)
fetch r none = emit refuse >> pure none
fetch r (some a) = get (r a) >> pure (some a)

-- `!p` of a pointer.
abbrev pub is_null {ℓ} : {A : Type ℓ} → Option A → Bool
is_null none = true
is_null (some a) = false

-- The two cases of what a call returned.
abbrev pub on_status {ℓ} : {A : Type ℓ} → Status → (ℕ → A) → A → A
on_status (err e) f a = f e
on_status ok f a = a

-- Code of another program that works on the world.
unfoldable pub lift {ℓ κ} : {A : Type ℓ} {B : Type κ} → (World → A × B × World) → Program (A × B)
lift f m = let (a, b, w) = f m.world in returned (a, b) (record m { world = w })

abbrev pub enomem : ℕ
enomem = 12

abbrev pub einval : ℕ
einval = 22
