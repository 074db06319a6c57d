-- ===== src/Vsync/Tests.antt =====
-- The theorems on perftools/X/drm-howto/modeset-vsync.c at work on two devices with two buffers
-- each.
use debian_config_files.Base.{
  ℕ, ◌+◌, ◌≡◌, Bool, true, false, Option, none, some, List, [], ◌∷◌, All, arith, inl, inr, refl,
  if◌then◌else◌, ◌==◌, Bool-cases,
}
use debian_config_files.Modeset.Tests.{small, crtc_of, dark, start}
use debian_config_files.Double.Draw.Screen.{bufs_of, Layout}
use debian_config_files.Double.Tests.{lit, buf_at, buf_at-Covers}
use debian_config_files.Vsync.Host.{Dev, Flip, Kernel, Host, crashed, failed, events, ready}
use debian_config_files.Vsync.Draw.{arrived, handle_event, handle_events}
use debian_config_files.Vsync.Draw.Invariant.{ids_of, Uses, Inv}
use debian_config_files.Vsync.Draw.Safety.{Safe, Kept, handle_events-Kept}
use debian_config_files.Vsync.Draw.Untouched.{inner}
use debian_config_files.Vsync.Draw.Tearing.{Steady, handle_event-Steady}
use debian_config_files.Vsync.Cleanup.{cleanup}
use debian_config_files.Vsync.Cleanup.Laws.{Quiet}
use debian_config_files.Vsync.Cleanup.Live.{cleanup-ends}
use debian_config_files.Vsync.Cleanup.Freed.{cleanup-uses_freed}
use debian_config_files.Vsync.Main.{Script, present}
use debian_config_files.Vsync.Main.Laws.{Known, present-Quiet}

-- A device on a CRTC, before its first flip or (`flipped`) while a flip is pending.
abbrev pair_at : Bool → ℕ → ℕ → Dev
pair_at flipped self crtc = record {
  dev = record {
    self = self;
    front = flipped;
    buf0 = buf_at (self + 32) (crtc + 40);
    buf1 = buf_at (self + 64) (crtc + 60);
    mode = small;
    conn = crtc + 20;
    crtc = crtc;
    saved = some (crtc_of crtc);
  };
  pending = flipped;
  cleanup = false;
  shade = record { r = 0; g = 0; b = 0; r_up = true; g_up = true; b_up = true; calls = 0 };
}

abbrev waiting : List Dev
waiting = pair_at true 5000 10 ∷ pair_at true 6000 11 ∷ []

abbrev flips_of : ℕ → Option Flip
flips_of c =
    if c == 10
    then some (record { fb = 70; user = 5000 })
    else if c == 11
    then some (record { fb = 71; user = 6000 })
    else none

abbrev both_pending : Kernel
both_pending = record { flip = flips_of; scan = λ c. c + 40 }

abbrev waiting_host : Host
waiting_host = record { world = start; rands = 0; kernel = both_pending }

waiting-owned : (c : ℕ) (f : Flip) → both_pending.flip c ≡ some f → Uses c (ids_of waiting)
waiting-owned c f e = elim (Bool-cases (c == 10)) [
  | inl h ↦ inl (ground arith)
  | inr h ↦ elim (Bool-cases (c == 11)) [
    | inl g ↦ inr (inl (ground arith))
    | inr g ↦ absurd (ground arith)
  ]
]

waiting-Inv : Inv waiting both_pending
waiting-Inv = record {
  good = (
    record {
      saved = (crtc_of 10, refl, refl);
      fbs = λ e. absurd (omega arith);
      phase = (refl, λ e. absurd (omega arith));
    },
    (
      record {
        saved = (crtc_of 11, refl, refl);
        fbs = λ e. absurd (omega arith);
        phase = (refl, λ e. absurd (omega arith));
      },
      tt,
    ),
  );
  distinct = (((λ e. absurd (omega arith), λ e. absurd (omega arith)), tt), (tt, tt));
  owned = waiting-owned;
}

waiting-Layout : Layout (bufs_of (inner waiting))
waiting-Layout = record {
  covers = (
    buf_at-Covers 5032 50,
    (buf_at-Covers 5064 70, (buf_at-Covers 6032 51, (buf_at-Covers 6064 71, tt))),
  );
  apart = (
    (inl (omega arith), (inl (omega arith), (inl (omega arith), tt))),
    ((inl (omega arith), (inl (omega arith), tt)), ((inl (omega arith), tt), (tt, tt))),
  );
}

handle_events-Kept_example :
    Safe false (Kept waiting) (handle_events lit (11 ∷ 10 ∷ 11 ∷ []) waiting waiting_host)
handle_events-Kept_example =
    handle_events-Kept lit (11 ∷ 10 ∷ 11 ∷ []) waiting waiting_host waiting-Inv

abbrev first_flip : Flip
first_flip = record { fb = 70; user = 5000 }

handle_event-Steady_example :
    Safe false
      (λ out.
        All (Steady (arrived 10 first_flip both_pending).scan dark out.1.world.memory) waiting)
      (handle_event lit 10 waiting waiting_host)
handle_event-Steady_example =
    handle_event-Steady lit 10 first_flip waiting waiting_host refl waiting-Inv waiting-Layout

-- The event of the second device comes while the first waits, and again later.
cleanup-ends_example :
    Safe false Quiet (
      cleanup lit
        (events (11 ∷ []) ∷ events (10 ∷ []) ∷ events (11 ∷ []) ∷ [])
        waiting
        waiting_host)
cleanup-ends_example =
    cleanup-ends lit (events (11 ∷ []) ∷ events (10 ∷ []) ∷ events (11 ∷ []) ∷ []) waiting
      waiting_host tt waiting-Inv (inr (inl (inl refl, inl (inl refl, tt))))

cleanup-uses_freed_example :
    cleanup lit (failed ∷ events (10 ∷ []) ∷ []) waiting waiting_host ≡ crashed
cleanup-uses_freed_example =
    cleanup-uses_freed lit (pair_at true 5000 10) (pair_at true 6000 11) [] waiting_host [] []
      waiting-Inv refl refl

lit-Known : Known lit
lit-Known c = (crtc_of c, refl, refl)

abbrev idle : List Dev
idle = pair_at false 5000 10 ∷ pair_at false 6000 11 ∷ []

abbrev idle_host : Host
idle_host = record { world = start; rands = 0; kernel = record { flip = λ c. none; scan = λ c. 1 } }

abbrev script : Script
script = record {
  start = 100;
  rounds =
      record { now = 101; select = ready (10 ∷ 11 ∷ []) }
      ∷ record { now = 105; select = ready [] }
      ∷ [];
  answers = events (11 ∷ 10 ∷ []) ∷ events (11 ∷ []) ∷ [];
}

present-Quiet_example : Safe true Quiet (present lit script idle idle_host)
present-Quiet_example =
    present-Quiet lit lit-Known script idle idle_host tt
      (((λ e. absurd (omega arith), λ e. absurd (omega arith)), tt), (tt, tt))
      (
        record {
          fbs = λ e. absurd (omega arith);
          pending = refl;
          scan = λ e. absurd (omega arith);
        },
        (
          record {
            fbs = λ e. absurd (omega arith);
            pending = refl;
            scan = λ e. absurd (omega arith);
          },
          tt,
        ),
      )
      (λ c. refl)
