-- ===== src/Atomic/Tests.antt =====
-- The theorems on perftools/X/drm-howto/modeset-atomic.c at work on a card with one connected screen
-- of 4 by 2 pixels and one primary plane.
use Prim.Native.String.{String}
use debian_config_files.Base.{
  ℕ, ◌-◌, ◌≡◌, ◌≢◌, refl, ◌==◌, if◌then◌else◌, false, true, Option, none, some, List, [], ◌∷◌, All,
  inl, inr, arith,
}
use debian_config_files.Modeset.Kernel.{
  Setting, Log, acquire, descriptor, property, properties, array, dumb_buffer, framebuffer, mapping,
  blob, device,
}
use debian_config_files.Modeset.Kernel.Balance.{Gains}
use debian_config_files.Modeset.Setup.{Status, ok}
use debian_config_files.Modeset.Draw.{Shade}
use debian_config_files.Modeset.Tests.{small, dark}
use debian_config_files.Modeset.Tests as Modeset
use debian_config_files.Double.Draw.{paint}
use debian_config_files.Double.Tests.{buf_at}
use debian_config_files.Vsync.Host.{events, ready, timeout}
use debian_config_files.Vsync.Main.{Script}
use debian_config_files.Atomic.Program.{
  PropertyInfo, Properties, ObjectType, connector_type, crtc_type, plane_type, Card, Machine,
  returned,
}
use debian_config_files.Atomic.Program.Owns.{Meets}
use debian_config_files.Atomic.Objects.{DrmObject, Request, same_name}
use debian_config_files.Atomic.Objects.Balance.{Known, IsLoaded}
use debian_config_files.Atomic.Choice.{Route, find_plane}
use debian_config_files.Atomic.Choice.Plane.{PicksPlane, find_plane-PicksPlane}
use debian_config_files.Atomic.Output.{Output, prepare}
use debian_config_files.Atomic.Output.Objects.{IsReady}
use debian_config_files.Atomic.Output.Prepare.{Prepared, AreSetUp, prepare-Prepared}
use debian_config_files.Atomic.Draw.{
  back_of, modeset_flags, flip_flags, prepare_commit, perform_modeset, page_flip_event, draw_out,
}
use debian_config_files.Atomic.Draw.Table.{table, settings_of, Commits, prepare_commit-Commits}
use debian_config_files.Atomic.Draw.Flip.{draw_out-Shows}
use debian_config_files.Atomic.Draw.FirstFlip.{last_commit, first_flip-Tears, front_of}
use debian_config_files.Atomic.Main.{run_prepared, main}
use debian_config_files.Atomic.Main.Run.{
  IsSpared, start_machine, GivesBack, atomic-GivesBack, run_prepared-Returns,
}

-- The kernel's properties by their numbers.
abbrev name_from : ℕ → List String → String
name_from n [] = ""
name_from n (name ∷ names) = if n == 0 then name else name_from (n - 1) names

abbrev name_of : ℕ → String
name_of id = name_from id (
    "" ∷ "CRTC_ID" ∷ "MODE_ID" ∷ "ACTIVE" ∷ "FB_ID" ∷ "SRC_X" ∷ "SRC_Y" ∷ "SRC_W" ∷ "SRC_H"
    ∷ "CRTC_X" ∷ "CRTC_Y" ∷ "CRTC_W" ∷ "CRTC_H" ∷ "type" ∷ [])

abbrev plane_props : Properties
plane_props =
    (1, 0)
    ∷ (4, 0)
    ∷ (5, 0)
    ∷ (6, 0)
    ∷ (7, 0)
    ∷ (8, 0)
    ∷ (9, 0)
    ∷ (10, 0)
    ∷ (11, 0)
    ∷ (12, 0)
    ∷ (13, 1)
    ∷ []

abbrev props_of : ObjectType → Properties
props_of connector_type = (1, 10) ∷ []
props_of crtc_type = (2, 0) ∷ (3, 0) ∷ []
props_of plane_type = plane_props

abbrev info_of : ℕ → PropertyInfo
info_of id = record { prop_id = id; name = name_of id }

abbrev card : Card
card = record {
  drm = Modeset.card;
  set_cap = λ fd cap. ok;
  has_crtc_events = λ fd. true;
  get_property = λ id. some (info_of id);
  object_properties = λ type id. some (props_of type);
  get_planes = λ log. some (50 ∷ 51 ∷ []);
  get_plane = λ id. some (record { possible_crtcs = 3 });
  primary_plane = 1;
  create_blob = λ log m. some 60;
  alloc_request = λ log. 70;
  calloc = λ log. 80;
  add_property = λ log s. ok;
  try_commit = λ log flags s. ok;
}

all_described : (props : Properties) → All (λ p. some (info_of p.0) ≢ none) props
all_described [] = tt
all_described (p ∷ props) = ((λ e. cc), all_described props)

card-Known : Known card
card-Known = record { listed = λ type id props e. all_described props; plane = λ id p e. (λ q. cc) }

abbrev first_route : Route
first_route = record { crtc = 10; crtc_index = 0; plane = 0 }

abbrev infos_of : Properties → List (Option PropertyInfo)
infos_of [] = []
infos_of (p ∷ props) = some (info_of p.0) ∷ infos_of props

abbrev object : ℕ → ObjectType → DrmObject
object id type = record {
  id = id;
  props = some (props_of type);
  info_at = 80;
  info = infos_of (props_of type);
}

abbrev screen_out : Output
screen_out = record {
  self = 5000;
  front = false;
  buf0 = buf_at 8192 40;
  buf1 = buf_at 8224 41;
  conn = object 30 connector_type;
  crtc = object 10 crtc_type;
  plane = object 50 plane_type;
  mode = small;
  mode_blob_id = 60;
  crtc_index = 0;
  pending = false;
  cleanup = false;
  shade = record { r = 0; g = 0; b = 0; r_up = false; g_up = false; b_up = false; calls = 0 };
}

infos_there : (props : Properties) → All (λ i. i ≢ none) (infos_of props)
infos_there [] = tt
infos_there (p ∷ props) = ((λ e. cc), infos_there props)

object-Loaded : (id : ℕ) (type : ObjectType) → IsLoaded (object id type)
object-Loaded id type = record { props = λ e. cc; info = infos_there (props_of type) }

screen_out-Ready : IsReady screen_out
screen_out-Ready = record {
  conn = object-Loaded 30 connector_type;
  crtc = object-Loaded 10 crtc_type;
  plane = object-Loaded 50 plane_type;
}

abbrev set : ℕ → ℕ → ℕ → Setting
set object prop value = record { object = object; prop = prop; value = value }

abbrev screen_settings : List Setting
screen_settings =
    set 30 1 10
    ∷ set 10 2 60
    ∷ set 10 3 1
    ∷ set 50 4 41
    ∷ set 50 1 10
    ∷ set 50 5 0
    ∷ set 50 6 0
    ∷ set 50 7 262144
    ∷ set 50 8 131072
    ∷ set 50 9 0
    ∷ set 50 10 0
    ∷ set 50 11 4
    ∷ set 50 12 2
    ∷ []

screen_settings-table : settings_of (table screen_out) ≡ some screen_settings
unfolding same_name
screen_settings-table = refl

-- An event of the CRTC, the end of the five seconds, and an event again.
abbrev short_script : Script
short_script = record {
  start = 0;
  rounds = record { now = 1; select = ready (10 ∷ []) } ∷ record { now = 9; select = timeout } ∷ [];
  answers = events (10 ∷ []) ∷ [];
}

framebuffer-Spared : IsSpared (framebuffer 40)
framebuffer-Spared = record { requests = λ at e. cc; list = λ e. cc }

atomic-GivesBack_example :
    Meets true (GivesBack (framebuffer 40)) (main card short_script [] (start_machine dark))
atomic-GivesBack_example =
    atomic-GivesBack card card-Known (λ fd cap. refl) (framebuffer 40) framebuffer-Spared
      short_script [] dark

find_plane-PicksPlane_example :
    Meets false
      (λ made _. PicksPlane card first_route (some (50 ∷ 51 ∷ [])) made)
      (find_plane card first_route (start_machine dark))
find_plane-PicksPlane_example =
    find_plane-PicksPlane card card-Known first_route (start_machine dark)

prepare-Prepared_example : Meets false (λ out _. Prepared out) (prepare card (start_machine dark))
prepare-Prepared_example = prepare-Prepared card card-Known (start_machine dark)

prepare_commit-Commits_example :
    (p : Status × Request) × (prepare_commit card screen_out
        (record { at = 70; settings = [] })
        (start_machine dark)
      ≡ returned p (start_machine dark))
    × Commits (settings_of (table screen_out)) (record { at = 70; settings = [] }) p
prepare_commit-Commits_example =
    prepare_commit-Commits card (λ log s. refl) screen_out (record { at = 70; settings = [] })
      (start_machine dark) screen_out-Ready

first_flip-Tears_example :
    (shade : Shade) × (m' : Machine) × (perform_modeset card (screen_out ∷ []) (start_machine dark)
      ≡ returned (ok, record screen_out { shade = shade } ∷ []) m')
    × (last_commit m'.world.log ≡ some (modeset_flags, screen_settings))
    × (color : ℕ) × Meets false
        (λ _ m''. m''.world.memory ≡ paint (back_of screen_out) color m'.world.memory)
        (page_flip_event card screen_out.crtc.id (record screen_out { shade = shade } ∷ []) m')
first_flip-Tears_example =
    first_flip-Tears card (λ log flags s. refl) (λ log s. refl) screen_out screen_settings
      (start_machine dark) screen_out-Ready refl screen_settings-table

draw_out-Shows_example :
    (out' : Output) × (m' : Machine) × (draw_out card screen_out (start_machine dark)
      ≡ returned out' m')
    × (out'.pending ≡ true)
    × (back_of out' ≡ front_of screen_out)
    × (last_commit m'.world.log ≡ some (flip_flags, screen_settings))
    × (color : ℕ) × (m'.world.memory ≡ paint (back_of screen_out) color dark)
draw_out-Shows_example =
    draw_out-Shows card (λ log flags s. refl) (λ log s. refl) screen_out screen_settings
      (start_machine dark) screen_out-Ready screen_settings-table

-- A machine that holds what the output holds, and the descriptor.
abbrev held_log : Log
held_log =
    acquire (descriptor 3)
    ∷ acquire (property 1)
    ∷ acquire (property 2)
    ∷ acquire (property 3)
    ∷ acquire (property 1)
    ∷ acquire (property 4)
    ∷ acquire (property 5)
    ∷ acquire (property 6)
    ∷ acquire (property 7)
    ∷ acquire (property 8)
    ∷ acquire (property 9)
    ∷ acquire (property 10)
    ∷ acquire (property 11)
    ∷ acquire (property 12)
    ∷ acquire (property 13)
    ∷ acquire (array 80)
    ∷ acquire (properties 30)
    ∷ acquire (array 80)
    ∷ acquire (properties 10)
    ∷ acquire (array 80)
    ∷ acquire (properties 50)
    ∷ acquire (dumb_buffer 40)
    ∷ acquire (framebuffer 40)
    ∷ acquire (mapping 8192)
    ∷ acquire (dumb_buffer 41)
    ∷ acquire (framebuffer 41)
    ∷ acquire (mapping 8224)
    ∷ acquire (blob 60)
    ∷ acquire (device 5000)
    ∷ []

abbrev held_machine : Machine
held_machine = record { world = record { log = held_log; memory = dark }; rands = 0 }

screen_out-SetUp : AreSetUp (screen_out ∷ [])
screen_out-SetUp = record {
  ready = (screen_out-Ready, tt);
  new = (record { positive = λ e. cc; unused = tt }, tt);
}

run_prepared-Returns_example :
    (s : Status) × (m' : Machine) × (run_prepared card short_script 3
        (ok, screen_out ∷ [])
        held_machine
      ≡ returned s m')
    × Gains (framebuffer 40) [] m'.world.log 0
run_prepared-Returns_example =
    run_prepared-Returns card (framebuffer 40) short_script 3 (screen_out ∷ []) held_machine
      (λ at e. cc) screen_out-SetUp (λ e. cc) (inr (inr (inl (omega arith)))) (inl (inl refl, tt))
      [] (omega arith)
