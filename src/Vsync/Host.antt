-- ===== src/Vsync/Host.antt =====
-- The state of perftools/X/drm-howto/modeset-vsync.c, and of the part of the kernel that it waits
-- for: page flips that are pending, and the framebuffer that each CRTC scans out.
use debian_config_files.Base.{ℕ, Bool, Option, List, ◌==◌, if◌then◌else◌}
use debian_config_files.Modeset.Kernel.{World}
use debian_config_files.Modeset.Draw.{Shade}
use debian_config_files.Double.Setup as Double

-- `struct modeset_dev`: that of modeset-double-buffered.c and six colour fields and two flags.
-- (`calls` of the shade is not a field; the count of calls of `rand()` is the host's.)
pub record Dev : Type 0 where
  pub dev : Double.Dev
  pub pending : Bool
  pub cleanup : Bool
  pub shade : Shade

-- A page flip that waits for the vertical blank: the framebuffer, and the pointer that comes back
-- with the event.
pub record Flip : Type 0 where
  pub fb : ℕ
  pub user : ℕ

-- For each CRTC the flip that is pending, of which the kernel allows one, and what is scanned out.
pub record Kernel : Type 0 where
  pub flip : ℕ → Option Flip
  pub scan : ℕ → ℕ

-- What there is beside the devices; `rands` counts the calls of `rand()`.
pub record Host : Type 0 where
  pub world : World
  pub rands : ℕ
  pub kernel : Kernel

abbrev pub set_at {ℓ} : {A : Type ℓ} → ℕ → A → (ℕ → A) → ℕ → A
set_at i a f j = if j == i then a else f j

-- How a part of a run ends. `blocked` waits for an event that does not come, `crashed` reads freed
-- memory or a null pointer, and `undocumented` is an event of a flip that was not pending.
pub data Outcome {ℓ} (A : Type ℓ) : Type ℓ where
  ended : A → Outcome A
  blocked : Outcome A
  crashed : Outcome A
  undocumented : Outcome A

-- What one `drmHandleEvent` finds: an error, or events of flips, each named by its CRTC. A flip is
-- taken to happen just before its event is handled.
pub data Answer : Type 0 where
  failed : Answer
  events : List ℕ → Answer

-- One round of the loop of `modeset_draw`: the time, and what `select` reports: an error, input, a
-- readable DRM descriptor with the events that are handled then (none, if that fails), or nothing.
pub data Select : Type 0 where
  error : Select
  input : Select
  ready : List ℕ → Select
  timeout : Select

pub record Round : Type 0 where
  pub now : ℕ
  pub select : Select
