-- ===== src/Atomic/Main/Run.antt =====
-- What whole runs of perftools/X/drm-howto/modeset-atomic.c leave behind.
use Prim.Native.String.{String}
use debian_config_files.Base.{ℕ, ◌+◌, ◌≡◌, ◌≢◌, refl, true, false, inr, List, [], arith}
use debian_config_files.Modeset.Kernel.{Resource, resources, request, descriptor, Log}
use debian_config_files.Modeset.Kernel.Balance.{same, same-off, acquired, released, Gains}
use debian_config_files.Modeset.Setup.{Status, ok}
use debian_config_files.Vsync.Main.{Script}
use debian_config_files.Atomic.Program.{
  ClientCap, Card, Machine, Ending, returned, faulted, waiting,
}
use debian_config_files.Atomic.Program.Owns.{Meets, Meets-map}
use debian_config_files.Atomic.Objects.Balance.{Known}
use debian_config_files.Atomic.Output.{Output, crtcs_of}
use debian_config_files.Atomic.Output.Balance.{held_outs}
use debian_config_files.Atomic.Output.Prepare.{AreSetUp}
use debian_config_files.Atomic.Draw.Balance.{Stops}
use debian_config_files.Atomic.Main.Wait.{Served}
use debian_config_files.Atomic.Main.{run_prepared, main}
use debian_config_files.Atomic.Main.Balance.{run_prepared-Owns, main-Owns}

-- The two kinds that the program does not always give back.
pub record IsSpared (r : Resource) : Type 0 where
  pub requests : (at : ℕ) → r ≢ request at
  pub list : r ≢ resources

abbrev pub start_machine : (ℕ → ℕ) → Machine
start_machine memory = record { world = record { log = []; memory = memory }; rands = 0 }

-- Nothing has been got that was not given back.
abbrev pub GivesBack : Resource → Status → Machine → Type 0
GivesBack r s m = acquired r m.world.log ≡ released r m.world.log

-- If the kernel describes each property that it lists, lists the properties of each plane and grants
-- the two capabilities, a run of `main` of the atomic program, with any arguments, answers of the
-- kernel and events, reads no null pointer; it may wait for ever, but when it ends, whatever it got
-- it has given back as often, except atomic requests and the list of resources: descriptors,
-- connectors, encoders, planes, properties and their arrays, blobs, outputs, buffers, framebuffers
-- and mappings.
pub atomic-GivesBack :
    (card : Card) (known : Known card)
    (caps : (fd : ℕ) (cap : ClientCap) → card.set_cap fd cap ≡ ok) (r : Resource)
    → IsSpared r
    → (script : Script) (argv : List String) (memory : ℕ → ℕ)
    → Meets true (GivesBack r) (main card script argv (start_machine memory))
atomic-GivesBack card known caps r h script argv memory =
    Meets-map true (main card script argv (start_machine memory)) (λ s m g. omega (arith, g.0))
      ((main-Owns card true r (λ at. same-off r (request at) (h.requests at)) known refl
          (same-off r resources h.list) caps script argv).runs
        (start_machine memory) [] 0 (omega arith))

Returns :
    {A : Type 0} {P : A → Machine → Type 0} (o : Ending A)
    → Meets false P o
    → (a : A) × (m : Machine) × (o ≡ returned a m) × P a m
Returns (returned a m) h = (a, m, refl, h)
Returns faulted h = absurd h
Returns waiting h = absurd (ground arith)

-- Given outputs that are set up, at least one, the program draws, cleans up, closes the card and
-- returns, whatever the events, and reads no null pointer: if in one of the rounds the time is up or
-- `select` fails or reports input, and if in the clean-up the answers of `drmHandleEvent` bring, for
-- each output in turn and with others between them, an event of its CRTC or a failure. If a resource
-- other than an atomic request was held, counted from some log on, as often as the outputs and the
-- descriptor hold it, then it is held no more.
pub run_prepared-Returns :
    (card : Card) (r : Resource) (script : Script) (fd : ℕ) (outs : List Output) (m : Machine)
    → ((at : ℕ) → r ≢ request at)
    → AreSetUp outs
    → outs ≢ []
    → Stops (script.start + 5) script.rounds
    → Served (crtcs_of outs) script.answers
    → (l : Log) → Gains r l m.world.log (held_outs r outs + same r (descriptor fd))
    → (s : Status) × (m' : Machine) × (run_prepared card script fd (ok, outs) m ≡ returned s m')
      × Gains r l m'.world.log 0
run_prepared-Returns card r script fd outs m free h ne stops served l g =
    let (s, m', e, k) = Returns _ (
      (run_prepared-Owns card false r (λ at. same-off r (request at) (free at)) script fd (ok, outs)
          (h, ne) (inr (stops, served))).runs
        m l 0 (omega arith)) in
    (s, m', e, omega (arith, k.0))
