-- ===== src/Modeset/Tests.antt =====
-- The theorems on perftools/X/drm-howto/modeset.c at work on a card with one connected screen of
-- 4 by 2 pixels and one connector without a screen.
use debian_config_files.Base.{
  ℕ, ◌≡◌, ◌≢◌, refl, true, false, none, some, [], ◌∷◌, ◌==◌, if◌then◌else◌, arith,
}
use debian_config_files.Modeset.Kernel.{
  ModeInfo, Connector, Resources, SavedCrtc, done, framebuffer, World, Drm,
}
use debian_config_files.Modeset.Crtc.{Dev, find_crtc}
use debian_config_files.Modeset.Crtc.Choice.{Candidate, Picks, find_crtc-Candidate}
use debian_config_files.Modeset.Setup.{State, blank, prepare}
use debian_config_files.Modeset.Setup.Devices.{AllPlaced, Distinct, prepare-AllPlaced}
use debian_config_files.Modeset.Setup.Balance.{Owes}
use debian_config_files.Modeset.Draw.{buf_of, draw}
use debian_config_files.Modeset.Draw.Pixels.{Covers}
use debian_config_files.Modeset.Draw.Frames.{draw_bounds}
use debian_config_files.Modeset.Main.{cleanup, cleanup_device, main}
use debian_config_files.Modeset.Main.Run.{EndsBalanced, main-IsBalanced}

abbrev pub small : ModeInfo
small = record { hdisplay = 4; vdisplay = 2; timings = 7 }

abbrev pub screen : Connector
screen = record {
  connector_id = 30;
  connected = true;
  modes = small ∷ [];
  encoder_id = 20;
  encoders = 20 ∷ [];
}

abbrev no_screen : Connector
no_screen = record {
  connector_id = 31;
  connected = false;
  modes = [];
  encoder_id = 0;
  encoders = 20 ∷ [];
}

abbrev card_resources : Resources
card_resources = record { connectors = 30 ∷ 31 ∷ []; crtcs = 10 ∷ 11 ∷ [] }

abbrev pub crtc_of : ℕ → SavedCrtc
crtc_of c = record { crtc_id = c; buffer_id = 1; x = 0; y = 0; mode = small }

abbrev pub card : Drm
card = record {
  open_node = λ log node. done 3;
  has_dumb = λ fd. true;
  get_resources = λ log. done card_resources;
  get_connector = λ id. if id == 30 then some screen else some no_screen;
  get_encoder = λ id. some (record { crtc_id = 10; possible_crtcs = 3 });
  get_crtc = λ c. some (crtc_of c);
  malloc = λ log. 5000;
  create_dumb = λ log w h. done (record { handle = 9; pitch = 16; size = 32 });
  add_fb = λ log w h stride handle. done 40;
  map_dumb = λ log handle. done 0;
  mmap = λ log size offset. done 8192;
  rand = λ n. n;
}

abbrev pub dark : ℕ → ℕ
dark p = 0

abbrev pub start : World
start = record { log = []; memory = dark }

abbrev nothing_yet : State
nothing_yet = record { devs = []; world = start }

-- The device that is set up for the screen, its CRTC saved.
abbrev device_up : Dev
device_up = record (blank 5000 30) {
  width = 4;
  height = 2;
  stride = 16;
  size = 32;
  handle = 9;
  map = 8192;
  mode = small;
  fb = 40;
  crtc = 10;
  saved = some (crtc_of 10);
}

device_up-Covers : Covers (buf_of device_up)
device_up-Covers = record { row = omega arith; rows = omega arith; bits = omega arith }

pub card-known : (c : ℕ) → card.get_crtc c ≢ none
card-known c h = cc

main-IsBalanced_example : EndsBalanced card (main card [] start)
main-IsBalanced_example = main-IsBalanced card card-known [] dark

find_crtc-Candidate_example :
    Picks card
      (10 ∷ [])
      (Candidate card (10 ∷ []) card_resources screen)
      (find_crtc card (10 ∷ []) card_resources screen []).0
find_crtc-Candidate_example = find_crtc-Candidate card (10 ∷ []) card_resources screen []

prepare-AllPlaced_example :
    AllPlaced card card_resources (prepare card nothing_yet).1.devs
    × Distinct (prepare card nothing_yet).1.devs
prepare-AllPlaced_example = prepare-AllPlaced card nothing_yet card_resources refl refl

nothing_yet-Owes : Owes card (framebuffer 40) [] nothing_yet
nothing_yet-Owes = omega arith

abbrev put_back : World
put_back = cleanup_device device_up (crtc_of 10) start

cleanup-put_back : cleanup (device_up ∷ []) start ≡ some put_back
unfolding cleanup
cleanup-put_back = refl

draw_bounds_example : draw card (device_up ∷ []) dark 8224 ≡ 0
draw_bounds_example =
    draw_bounds card (device_up ∷ []) dark 8224 (device_up-Covers, tt) (omega arith, tt)
