-- ===== src/Smp/Boot/Laws.antt =====
-- `boot_cpu` of perftools/c/x86_asm/smp/smp-imps.c leaves the exported globals alone, gives the
-- processor its time, and clears the reset vector again.
use debian_config_files.Base.{
  ℕ, zero, suc, ◌+◌, ◌<◌, ◌≡◌, refl, ◌∙◌, Bool, true, false, List, [], ◌∷◌, arith, Bool-cases, inl,
  inr, ltb, leb, lt→ltb,
}
use debian_config_files.Smp.Machine.{
  Machine, Platform, note, delay, store, store_bytes, word_at, globals,
}
use debian_config_files.Smp.Ipi.{send_ipi, wait_sent, poll, request}
use debian_config_files.Smp.Boot.{
  Processor, bootaddr, reset_vector, clear_errors, ipi, start_vector, init_ipis, startup_ipis,
  wait_booted, clear_vector, started, boot_cpu,
}

globals-store_bytes :
    (a : ℕ) (bytes : List ℕ) (m : Machine) → globals (store_bytes a bytes m) ≡ globals m
unfolding store_bytes
globals-store_bytes a [] m = refl
globals-store_bytes a (v ∷ bytes) m = globals-store_bytes (a + 1) bytes (store a v m)

module _ (p : Platform) where
  globals-wait_sent : (fuel to : ℕ) (m : Machine) → globals (wait_sent p fuel to m).1 ≡ globals m
  unfolding wait_sent
  globals-wait_sent zero to m = refl
  globals-wait_sent (suc fuel) to m = ground (arith, globals-wait_sent fuel (to + 1) (poll m))

  globals-ipi : (dst v : ℕ) (m : Machine) → globals (ipi p dst v m) ≡ globals m
  unfolding ipi send_ipi
  globals-ipi dst v m = globals-wait_sent 1001 0 (request dst v m)

  globals-start_vector : (m : Machine) → globals (start_vector p m) ≡ globals m
  unfolding start_vector
  globals-start_vector m = globals-store_bytes bootaddr p.patch_code m

  globals-init_ipis : (id : ℕ) (m : Machine) → globals (init_ipis p id m) ≡ globals m
  unfolding init_ipis clear_errors
  globals-init_ipis id m = globals-ipi id 0x8500 _ ∙ globals-ipi id 0xC500 (clear_errors m)

  globals-startup_ipis : (c : Processor) (m : Machine) → globals (startup_ipis p c m) ≡ globals m
  unfolding startup_ipis
  globals-startup_ipis c m = elim (Bool-cases (leb 0x10 c.apic_ver)) [
    | inl new ↦
        rw (new, startup_ipis) (globals-ipi c.apic_id 0x670 _ ∙ globals-ipi c.apic_id 0x670 m)
    | inr old ↦ rw (old, startup_ipis)
  ]

  globals-wait_booted :
      (fuel to : ℕ) (m : Machine) → globals (wait_booted p fuel to m).1 ≡ globals m
  unfolding wait_booted
  globals-wait_booted zero to m = refl
  globals-wait_booted (suc fuel) to m =
      ground (arith, globals-wait_booted fuel (to + 1) (note (delay 10000) m))

  -- Starting a processor changes none of the exported globals.
  pub globals-boot_cpu : (c : Processor) (m : Machine) → globals (boot_cpu p c m).1 ≡ globals m
  unfolding boot_cpu started clear_vector clear_errors
  globals-boot_cpu c m =
      globals-wait_booted 101 0 _
      ∙ globals-startup_ipis c _
      ∙ globals-init_ipis c.apic_id _
      ∙ globals-start_vector m

  -- Afterwards the reset vector is clear, whether or not the processor came up.
  pub boot_cpu-reset_vector :
      (c : Processor) (m : Machine) → word_at (boot_cpu p c m).1.ram (reset_vector p) ≡ 0
  unfolding boot_cpu clear_vector
  boot_cpu-reset_vector c m = ground arith

  -- The machine after `k` rounds of waiting for the processor.
  abbrev pub waited : ℕ → Machine → Machine
  waited zero m = m
  waited (suc k) m = waited k (note (delay 10000) m)

  abbrev pub is_up : Machine → Bool
  is_up m = p.test_booted m.calls bootaddr

  -- A success is a test that finds the processor up after fewer than 100 delays, a failure 100
  -- tests that do not.
  abbrev pub Boots : ℕ → Machine → Bool → Type 0
  Boots n m true = (k : ℕ) × (k < n) × (is_up (waited k m) ≡ true)
  Boots n m false = (k : ℕ) → k < n → is_up (waited k m) ≡ false

  Boots-later :
      (n : ℕ) (m : Machine) (b : Bool)
      → is_up m ≡ false
      → Boots n (note (delay 10000) m) b
      → Boots (suc n) m b
  Boots-later n m true down (k, lt, up) = (suc k, omega arith, up)
  Boots-later n m false down h = late
    where
      late : (k : ℕ) → k < suc n → is_up (waited k m) ≡ false
      late zero lt = down
      late (suc k) lt = h k (omega arith)

  wait_booted-Boots :
      (fuel to n : ℕ) (m : Machine)
      → to + fuel ≡ 101
      → to + n ≡ 100
      → Boots n m (ltb (wait_booted p fuel to m).0 100)
  unfolding wait_booted
  wait_booted-Boots zero to n m e z = absurd (omega arith)
  wait_booted-Boots (suc fuel) to zero m e z =
      let late : ltb (wait_booted p (suc fuel) to m).0 100 ≡ false = ground arith in
      rw late (λ k lt. absurd (omega arith))
  wait_booted-Boots (suc fuel) to (suc n) m e z = elim (Bool-cases (is_up m)) [
    | inl up ↦ rw (up, wait_booted) (rw (lt→ltb to 100 (omega arith)) (0, omega arith, up))
    | inr down ↦
        rw (down, lt→ltb to 100 (omega arith), wait_booted)
          (Boots-later n m _ down
            (wait_booted-Boots fuel (to + 1) n (note (delay 10000) m) (omega arith) (omega arith)))
  ]

  -- `boot_cpu` ends, and reports success exactly where one of 100 tests, a delay apart, finds the
  -- processor up.
  pub boot_cpu-Boots : (c : Processor) (m : Machine) → Boots 100 (started p c m) (boot_cpu p c m).0
  unfolding boot_cpu
  boot_cpu-Boots c m = wait_booted-Boots 101 0 100 (started p c m) (omega arith) (omega arith)
