-- ===== src/Smp/Probe/Laws.antt =====
-- The results of `imps_force` and `imps_probe` of perftools/c/x86_asm/smp/smp-imps.c.
use debian_config_files.Base.{
  ℕ, zero, suc, ◌+◌, ◌*◌, ◌/◌, ◌^◌, ◌≤◌, ◌<◌, ◌≡◌, ◌≢◌, ◌⊎◌, refl, ap, sym, subst, ◌∙◌, Bool, true,
  false, Option, some, arith, Option-cases, inl, inr,
}
use debian_config_files.Smp.Machine.{Machine, Platform, globals, lapic_value, lapic_read}
use debian_config_files.Smp.Table.{update, add_processor}
use debian_config_files.Smp.Table.Laws.{
  IsMapped, Grows, Grows-refl, Grows-trans, add_processor-Grows, add_processor-some,
}
use debian_config_files.Smp.Bios.{msr_base, enable_lapic, setup_primary}
use debian_config_files.Smp.Bios.Laws.{setup_primary-IsMapped, setup_primary-enabled}
use debian_config_files.Smp.Probe.{
  forced, is_fps, scan, force_loop, force, mem_lower, ebda, first_region, probe, probe_scans,
  probe_result,
}
use debian_config_files.Smp.Probe.Scan.{Scans, found, absent, scan-Scans}

module _ (p : Platform) where
  force_loop-Grows :
      (id i n : ℕ) (m : Machine) {m' : Machine}
      → force_loop p id i n m ≡ some m'
      → Grows (globals m) (globals m')
  unfolding force_loop
  force_loop-Grows id i zero m {m'} e =
      let q : m ≡ m' = ground arith in
      subst (λ n. Grows (globals m) (globals n)) q (Grows-refl (globals m))
  force_loop-Grows id i (suc n) m {m'} e = elim (Option-cases (add_processor p (forced id i) m)) [
    | inl fault ↦ absurd (ground arith)
    | inr (k, h) ↦
        Grows-trans (add_processor-Grows p (forced id i) m h)
          (force_loop-Grows id (i + 1) n k {m' = m'} (ground arith))
  ]

  -- With room in the maps the loop runs to its end.
  force_loop-some :
      (id i n : ℕ) (m : Machine)
      → m.num_cpus + n ≤ 255
      → i + n ≤ 255
      → (m' : Machine) × (force_loop p id i n m ≡ some m') × (m'.num_cpus ≤ m.num_cpus + n)
  unfolding force_loop
  force_loop-some id i zero m room ids = (m, refl, omega arith)
  force_loop-some id i (suc n) m room ids =
      let (k, e, le) = add_processor-some p (forced id i) m (omega arith) (omega arith) in
      let (m', f, le') = force_loop-some id (i + 1) n k (omega arith) (omega arith) in
      (m', rw (e, force_loop) f, omega arith)

  -- The APIC id that `imps_force` reads for the primary processor.
  abbrev pub primary_id : Machine → ℕ
  primary_id m =
      lapic_value p 0x20
        (enable_lapic p (record m { lapic_addr = p.phys_to_virtual (msr_base p m) }))
      / 2 ^ 24

  setup_primary-some :
      (m : Machine)
      → lapic_value p 0x20 (enable_lapic p m) / 2 ^ 24 < 255
      → (m' : Machine) × (setup_primary p m
          ≡ some (lapic_value p 0x20 (enable_lapic p m) / 2 ^ 24, m'))
  unfolding setup_primary
  setup_primary-some m h =
      let id = lapic_value p 0x20 (enable_lapic p m) / 2 ^ 24 in
      let m₂ = lapic_read 0x20 (enable_lapic p m) in
      (
        record m₂ {
          cpu_apic_map = update m₂.cpu_apic_map 0 id;
          apic_cpu_map = update m₂.apic_cpu_map id 0;
        },
        ground arith,
      )

  -- `imps_force`, started with only the primary processor, whose APIC id is not 255, for at most 254
  -- processors, runs to its end without a write outside the two maps. It returns the count of
  -- processors, at least 1 and at most one more than it was called for, and leaves the maps fitting
  -- together.
  pub force-IsMapped :
      (ncpus : ℕ) (m : Machine)
      → m.num_cpus ≡ 1
      → ncpus ≤ 254
      → primary_id m < 255
      → (n : ℕ) × (m' : Machine) × (force p ncpus m ≡ some (n, m'))
        × IsMapped (globals m')
        × (n ≡ m'.num_cpus)
        × (1 ≤ n)
        × (n ≤ ncpus + 1)
  unfolding force
  force-IsMapped ncpus m one few id =
      let m₁ : Machine = record m { lapic_addr = p.phys_to_virtual (msr_base p m) } in
      let (m₂, k) = setup_primary-some m₁ id in
      let start = setup_primary-enabled p m₁ k in
      let (m₃, l, le) = force_loop-some (primary_id m) 0 ncpus m₂ (omega arith) (omega arith) in
      let g = force_loop-Grows (primary_id m) 0 ncpus m₂ l in
      let v = g.mapped (setup_primary-IsMapped p m₁ k one) in
      let more = g.extends.more in
      (m₃.num_cpus, m₃, rw (k, force, l) refl, v, refl, omega arith, omega arith)

  ebda-le : (lower : ℕ) (ram : ℕ → ℕ) → ebda p lower ram ≤ lower
  unfolding ebda
  ebda-le lower ram = ground arith

  -- The physical address of a structure that `imps_probe` may find.
  abbrev pub IsProbed : ℕ → ℕ → ℕ → Type 0
  IsProbed lower area s =
      ((first_region lower area ≤ s) × (s < first_region lower area + 1024))
      ⊎ ((0xF0000 ≤ s) × (s < 0x100000))

  abbrev pub FindsFps : ℕ → ℕ → (ℕ → ℕ) → Type 0
  FindsFps lower area ram = (s : ℕ) × (is_fps p ram s ≡ true) × IsProbed lower area s

  second_scan-FindsFps :
      (lower area : ℕ) (m : Machine) (out : Option (Bool × Machine)) {m' : Machine}
      → Scans p 0xF0000 4096 m out
      → out ≡ some (true, m')
      → FindsFps lower area m.ram
  second_scan-FindsFps lower area m out (found k lt h before e) q =
      (0xF0000 + 16 * k, h, inr (omega arith))
  second_scan-FindsFps lower area m out (absent h e) q = absurd (ground arith)

  probe_scans-FindsFps :
      (lower area : ℕ) (m : Machine) {m' : Machine}
      → first_region lower area + 1024 < 2 ^ 32
      → probe_scans p lower area m ≡ some (true, m')
      → FindsFps lower area m.ram
  unfolding probe_scans
  probe_scans-FindsFps lower area m {m'} w e =
      go (scan p (first_region lower area) 1024 m) refl
        (scan-Scans p (first_region lower area) 64 m w)
    where
      go :
          (out : Option (Bool × Machine))
          → scan p (first_region lower area) 1024 m ≡ out
          → Scans p (first_region lower area) 64 m out
          → FindsFps lower area m.ram
      go out q (found k lt h before z) = (first_region lower area + 16 * k, h, inl (omega arith))
      go out q (absent h z) =
          second_scan-FindsFps lower area m (scan p 0xF0000 0x10000 m) {m' = m'}
            (scan-Scans p 0xF0000 4096 m (omega arith)) (ground arith)

  -- `imps_probe` returns 0, or the count of processors; then MPS support is enabled, the CMOS
  -- reports between 512 and 640 kilobytes, and a floating pointer structure stands in the first
  -- region that was looked at or in the BIOS area from 0xF0000 to 0xFFFFF.
  pub probe-FindsFps :
      (m : Machine) {n : ℕ} {m' : Machine}
      → probe p m ≡ some (n, m')
      → n ≢ 0
      → (n ≡ m'.num_cpus)
        × (m'.enabled ≡ true)
        × (524288 ≤ mem_lower p m)
        × (mem_lower p m ≤ 655360)
        × FindsFps (mem_lower p m) (ebda p (mem_lower p m) m.ram) m.ram
  unfolding probe probe_result
  probe-FindsFps m {n} {m'} e ne =
      let m₁ : Machine = record m { enabled = false; num_cpus = 1 } in
      let lower = mem_lower p m in
      let area = ebda p lower m.ram in
      elim (Option-cases (probe_scans p lower area m₁)) [
        | inl fault ↦ absurd (ground arith)
        | inr ((hit, m₂), k) ↦
            let lo : (524288 ≤ lower) × (lower ≤ 655360) = ground arith in
            let on : (hit ≡ true) × (m₂.enabled ≡ true) × (n ≡ m₂.num_cpus) × (m₂ ≡ m') =
              ground arith in
            let le = ebda-le lower m.ram in
            let k' : probe_scans p lower area m₁ ≡ some (true, m₂) = ground arith in
            (
              on.2 ∙ ap (λ (o : Machine). o.num_cpus) on.3,
              ap (λ (o : Machine). o.enabled) (sym on.3) ∙ on.1,
              lo.0,
              lo.1,
              probe_scans-FindsFps lower area m₁ (ground arith) k',
            )
      ]
