-- ===== src/Smp/Probe/Scan.antt =====
-- What `imps_scan` of perftools/c/x86_asm/smp/smp-imps.c finds.
use debian_config_files.Base.{
  ℕ, zero, suc, ◌+◌, ◌-◌, ◌*◌, ◌/◌, ◌%◌, ◌^◌, ◌<◌, ◌≡◌, refl, Bool, true, false, Option, none, some,
  arith, Bool-cases, inl, inr, ◌==◌,
}
use debian_config_files.Smp.Machine.{Machine, Platform}
use debian_config_files.Smp.Bios.{read_bios}
use debian_config_files.Smp.Probe.{is_fps, scan_loop, scan}

module _ (p : Platform) where
  abbrev answered : Option Machine → Option (Bool × Machine)
  answered none = none
  answered (some m) = some (true, m)

  -- What a scan of `n` blocks of 16 bytes at `start` does: it stops at the first structure and
  -- reads the tables that this one names, or it finds none and changes nothing.
  pub data Scans (start n : ℕ) (m : Machine) (out : Option (Bool × Machine)) : Type 0 where
    found :
        (k : ℕ)
        → k < n
        → is_fps p m.ram (start + 16 * k) ≡ true
        → ((i : ℕ) → i < k → is_fps p m.ram (start + 16 * i) ≡ false)
        → out ≡ answered (read_bios p (p.phys_to_virtual (start + 16 * k)) m)
        → Scans start n m out
    absent :
        ((i : ℕ) → i < n → is_fps p m.ram (start + 16 * i) ≡ false)
        → out ≡ some (false, m)
        → Scans start n m out

  none_before :
      (start k : ℕ) (m : Machine)
      → is_fps p m.ram start ≡ false
      → ((i : ℕ) → i < k → is_fps p m.ram (start + 16 + 16 * i) ≡ false)
      → (i : ℕ) → i < suc k
      → is_fps p m.ram (start + 16 * i) ≡ false
  none_before start k m first rest zero lt =
      let z : start + 16 * 0 ≡ start = omega arith in rw z first
  none_before start k m first rest (suc i) lt =
      let z : start + 16 * suc i ≡ start + 16 + 16 * i = omega arith in rw z (rest i (omega arith))

  Scans-later :
      (start n : ℕ) (m : Machine) (out : Option (Bool × Machine))
      → is_fps p m.ram start ≡ false
      → Scans (start + 16) n m out
      → Scans start (suc n) m out
  Scans-later start n m out first (found k lt h before e) =
      let z : start + 16 * suc k ≡ start + 16 + 16 * k = omega arith in
      found (suc k) (omega arith) (rw z h) (none_before start k m first before) (rw z e)
  Scans-later start n m out first (absent h e) = absent (none_before start n m first h) e

  scan_loop-Scans :
      (fuel start n length : ℕ) (m : Machine)
      → n < fuel
      → length ≡ 16 * n
      → start + 16 * n < 2 ^ 32
      → Scans start n m (scan_loop p fuel start length m)
  unfolding scan_loop
  scan_loop-Scans zero start n length m h e w = absurd (omega arith)
  scan_loop-Scans (suc fuel) start zero length m h e w =
      let z : (length == 0) ≡ true = ground arith in
      rw (z, scan_loop) (absent (λ i lt. absurd (omega arith)) refl)
  scan_loop-Scans (suc fuel) start (suc n) length m h e w =
      let z : (length == 0) ≡ false = ground arith in
      elim (Bool-cases (is_fps p m.ram start)) [
        | inl here ↦
            let o : start + 16 * 0 ≡ start = omega arith in
            rw (z, here, scan_loop)
              (found 0 (omega arith) (rw o here) (λ i lt. absurd (omega arith))
                (rw o (ground arith)))
        | inr not_here ↦
            let next : (start + 16) % 2 ^ 32 ≡ start + 16 = omega arith in
            rw (z, not_here, next, scan_loop)
              (Scans-later start n m _ not_here (
                scan_loop-Scans fuel (start + 16) n ((length + 2 ^ 32 - 16) % 2 ^ 32) m
                  (omega arith) (omega arith) (omega arith)))
      ]

  -- Over a region of whole blocks below 4 GB, `imps_scan` reads the tables of the first floating
  -- pointer structure and reports it, or reports none where there is none.
  pub scan-Scans :
      (start n : ℕ) (m : Machine)
      → start + 16 * n < 2 ^ 32
      → Scans start n m (scan p start (16 * n) m)
  unfolding scan
  scan-Scans start n m w = scan_loop-Scans (16 * n / 16 + 1) start n (16 * n) m (omega arith) refl w
