-- ===== src/Smp/Bios/Laws.antt =====
-- What `imps_bad_bios` and `imps_read_bios` of perftools/c/x86_asm/smp/smp-imps.c accept, and what
-- they leave in the exported globals.
use debian_config_files.Base.{
  ℕ, ◌+◌, ◌≤◌, ◌%◌, ◌^◌, ◌≡◌, ◌≢◌, ◌⊎◌, ◌↔◌, ap, sym, ◌∙◌, false, some, arith, Bool-cases,
  Option-cases, inl, inr, ◌==◌,
}
use debian_config_files.Smp.Machine.{Machine, Platform, globals, get_checksum, word_at, store_bytes}
use debian_config_files.Smp.Table.Laws.{IsMapped, Grows, read_config_table-Grows}
use debian_config_files.Smp.Bios.{
  cth_signature, cth_ptr, spec_rev, feature, base_length, entry_count, extended_length, bad_table,
  bad_bios, enable_lapic, setup_primary, default_features, default_flags, default_ioapic,
  ioapic_select, default_config, read_tables,
}

-- A configuration table header at `a` that the specification allows.
pub record IsTable (ram : ℕ → ℕ) (a rev : ℕ) : Type 0 where
  pub signature : word_at ram a ≡ cth_signature
  pub checksum : get_checksum ram a (base_length ram a) ≡ 0
  pub revision : ram (a + 6) ≡ rev
  pub extended :
      (extended_length ram a ≡ 0)
      ⊎ ((get_checksum ram ((a + base_length ram a) % 2 ^ 32) (extended_length ram a)
              + ram (a + 42))
            % 256
          ≡ 0)

-- The tests of a table pass exactly where the specification allows the table.
bad_table-false : (ram : ℕ → ℕ) (a rev : ℕ) → (bad_table ram a rev ≡ false) ↔ IsTable ram a rev
unfolding bad_table
bad_table-false ram a rev = (
  (λ h. record {
    signature = ground arith;
    checksum = ground arith;
    revision = ground arith;
    extended = ground arith;
  }),
  λ t.
      (let s = t.signature in
        let c = t.checksum in let r = t.revision in let e = t.extended in ground arith),
)

-- `imps_bad_bios` passes a floating pointer structure exactly where its configuration type is at
-- most 7 and it has a valid table, or no table and a type other than 0.
pub bad_bios-false :
    (p : Platform) (ram : ℕ → ℕ) (f : ℕ)
    → (bad_bios p ram f ≡ false) ↔ (
        (feature ram f ≤ 7)
        × (((cth_ptr ram f ≡ 0) × (feature ram f ≢ 0))
            ⊎ ((cth_ptr ram f ≢ 0)
                × IsTable ram (p.phys_to_virtual (cth_ptr ram f)) (spec_rev ram f))))
unfolding bad_bios
bad_bios-false p ram f = (there, back)
  where
    table :
        (bad_table ram (p.phys_to_virtual (cth_ptr ram f)) (spec_rev ram f) ≡ false)
        ↔ IsTable ram (p.phys_to_virtual (cth_ptr ram f)) (spec_rev ram f)
    table = bad_table-false ram (p.phys_to_virtual (cth_ptr ram f)) (spec_rev ram f)

    there :
        bad_bios p ram f ≡ false
        → (feature ram f ≤ 7)
          × (((cth_ptr ram f ≡ 0) × (feature ram f ≢ 0))
              ⊎ ((cth_ptr ram f ≢ 0)
                  × IsTable ram (p.phys_to_virtual (cth_ptr ram f)) (spec_rev ram f)))
    there h = elim (Bool-cases (cth_ptr ram f == 0)) [
      | inl z ↦ (ground arith, inl (ground arith, ground arith))
      | inr z ↦ (ground arith, inr (ground arith, table.0 (ground arith)))
    ]

    back :
        (feature ram f ≤ 7)
          × (((cth_ptr ram f ≡ 0) × (feature ram f ≢ 0))
              ⊎ ((cth_ptr ram f ≢ 0)
                  × IsTable ram (p.phys_to_virtual (cth_ptr ram f)) (spec_rev ram f)))
        → bad_bios p ram f ≡ false
    back (le, inl (z, n)) = ground arith
    back (le, inr (z, t)) = let b = table.1 t in ground arith

module _ (p : Platform) where
  pub setup_primary-IsMapped :
      (m : Machine) {id : ℕ} {m' : Machine}
      → setup_primary p m ≡ some (id, m')
      → m.num_cpus ≡ 1
      → IsMapped (globals m')
  unfolding setup_primary enable_lapic
  setup_primary-IsMapped m e h = record {
    room = ground arith;
    back = λ i lt. ground arith;
    same_id = λ i lt. ground arith;
  }

  pub setup_primary-enabled :
      (m : Machine) {id : ℕ} {m' : Machine}
      → setup_primary p m ≡ some (id, m')
      → (m'.enabled ≡ m.enabled) × (m'.ram ≡ m.ram) × (m'.num_cpus ≡ m.num_cpus)
  unfolding setup_primary enable_lapic
  setup_primary-enabled m e = ground arith

  pub setup_primary-second :
      (m : Machine) {id : ℕ} {m' : Machine}
      → setup_primary p m ≡ some (id, m')
      → m'.cpu_apic_map 1 ≡ m.cpu_apic_map 1
  unfolding setup_primary enable_lapic
  setup_primary-second m e = ground arith

  globals-default_features : (f : ℕ) (m : Machine) → globals (default_features p f m) ≡ globals m
  unfolding default_features store_bytes
  globals-default_features f m = ground arith

  default_config-globals :
      (id f : ℕ) (m : Machine) {m' : Machine}
      → default_config p id f m ≡ some m'
      → globals m' ≡ record (globals m) { num_cpus = 2 }
  unfolding default_config default_flags default_ioapic ioapic_select
  default_config-globals id f m {m'} e =
      let two : Machine = record (default_flags p id (default_ioapic p m)) { num_cpus = 2 } in
      let q : default_features p f two ≡ m' = ground arith in
      ap globals (sym q) ∙ globals-default_features f two

  pub read_tables-Grows :
      (f id : ℕ) (m : Machine) {m' : Machine}
      → cth_ptr m.ram f ≢ 0
      → read_tables p f id m ≡ some m'
      → Grows (globals m) (globals m')
  unfolding read_tables
  read_tables-Grows f id m {m'} h e =
      let a = p.phys_to_virtual (cth_ptr m.ram f) in
      read_config_table-Grows p (entry_count m.ram a) ((a + 44) % 2 ^ 32) m {m' = m'} (ground arith)

  pub read_tables-default :
      (f id : ℕ) (m : Machine) {m' : Machine}
      → cth_ptr m.ram f ≡ 0
      → read_tables p f id m ≡ some m'
      → (2 ≤ m'.num_cpus) × (m'.cpu_apic_map 1 ≡ m.cpu_apic_map 1)
  unfolding read_tables
  read_tables-default f id m {m'} h e =
      elim (Option-cases (default_config p id (feature m.ram f) m)) [
        | inl n ↦ absurd (ground arith)
        | inr (n, k) ↦
            let q = default_config-globals id (feature m.ram f) m k in
            let g = read_config_table-Grows p 23 p.defconfig n {m' = m'} (ground arith) in
            let two : n.num_cpus ≡ 2 = ap (λ x. x.num_cpus) q in
            let same : n.cpu_apic_map ≡ m.cpu_apic_map = ap (λ x. x.cpu_apic_map) q in
            (
              (let le = g.extends.more in omega arith),
              g.extends.kept 1 (omega arith) ∙ ap (λ t. t 1) same,
            )
      ]
