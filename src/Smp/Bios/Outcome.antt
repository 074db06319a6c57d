-- ===== src/Smp/Bios/Outcome.antt =====
-- The exported globals after `imps_read_bios` of perftools/c/x86_asm/smp/smp-imps.c.
use debian_config_files.Base.{
  ℕ, ◌≤◌, ◌≡◌, ◌≢◌, ap, sym, subst, ◌∙◌, true, false, some, arith, Option-cases, inl, inr,
}
use debian_config_files.Smp.Machine.{Machine, Platform, globals}
use debian_config_files.Smp.Table.Laws.{IsMapped}
use debian_config_files.Smp.Bios.{
  cth_ptr, setup_primary, read_tables, table_lapic, start_cpus, read_bios, enable,
}
use debian_config_files.Smp.Bios.Laws.{
  setup_primary-IsMapped, setup_primary-enabled, setup_primary-second, read_tables-Grows,
  read_tables-default,
}

module _ (p : Platform) where
  -- How a start of the processors that ends has gone on.
  record Started (f : ℕ) (m m' : Machine) : Type 0 where
    id : ℕ
    primary : Machine
    tables : Machine
    first : setup_primary p m ≡ some (id, primary)
    second : read_tables p f id primary ≡ some tables
    third : m' ≡ enable tables

  start_cpus-Started :
      (f : ℕ) (m : Machine) {m' : Machine} → start_cpus p f m ≡ some m' → Started f m m'
  unfolding start_cpus
  start_cpus-Started f m {m'} e = elim (Option-cases (setup_primary p m)) [
    | inl n ↦ absurd (ground arith)
    | inr ((id, m₁), k) ↦ elim (Option-cases (read_tables p f id m₁)) [
      | inl n ↦ absurd (ground arith)
      | inr (m₂, l) ↦ record {
        id = id;
        primary = m₁;
        tables = m₂;
        first = k;
        second = l;
        third = ground arith;
      }
    ]
  ]

  enable-IsMapped : (m : Machine) → IsMapped (globals m) → IsMapped (globals (enable m))
  enable-IsMapped m v = record { room = v.room; back = v.back; same_id = v.same_id }

  same_table : (f : ℕ) (m m' : Machine) → m'.ram ≡ m.ram → cth_ptr m'.ram f ≡ cth_ptr m.ram f
  same_table f m m' e = ap (λ r. cth_ptr r f) e

  start_cpus-IsMapped :
      (f : ℕ) (m : Machine) {m' : Machine}
      → start_cpus p f m ≡ some m'
      → cth_ptr m.ram f ≢ 0
      → m.num_cpus ≡ 1
      → IsMapped (globals m')
  start_cpus-IsMapped f m {m'} e h one =
      let s = start_cpus-Started f m e in
      let same = setup_primary-enabled p m s.first in
      let v = setup_primary-IsMapped p m s.first one in
      let g =
        read_tables-Grows p f s.id s.primary {m' = s.tables}
          (λ z. h (sym (same_table f m s.primary same.1) ∙ z)) s.second in
      subst (λ n. IsMapped (globals n)) (sym s.third) (enable-IsMapped s.tables (g.mapped v))

  -- If `imps_read_bios` comes to enable MPS support through a configuration table, started with
  -- only the primary processor, the two maps fit together: each running processor's APIC id leads
  -- to a running processor with that id.
  pub read_bios-IsMapped :
      (f : ℕ) (m m' : Machine)
      → read_bios p f m ≡ some m'
      → cth_ptr m.ram f ≢ 0
      → m.num_cpus ≡ 1
      → m.enabled ≡ false
      → m'.enabled ≡ true
      → IsMapped (globals m')
  unfolding read_bios
  read_bios-IsMapped f m m' e h one off on =
      start_cpus-IsMapped f (record m { lapic_addr = p.phys_to_virtual (table_lapic p m.ram f) })
        {m' = m'} (ground arith) h one

  -- In a default configuration, without a table, the count of processors starts at 2, so the
  -- second processor's place in the map from processors to APIC ids is never written.
  pub read_bios-default_gap :
      (f : ℕ) (m m' : Machine)
      → read_bios p f m ≡ some m'
      → cth_ptr m.ram f ≡ 0
      → m.enabled ≡ false
      → m'.enabled ≡ true
      → (2 ≤ m'.num_cpus) × (m'.cpu_apic_map 1 ≡ m.cpu_apic_map 1)
  unfolding read_bios
  read_bios-default_gap f m m' e h off on =
      let m₁ : Machine = record m { lapic_addr = p.phys_to_virtual (table_lapic p m.ram f) } in
      let s = start_cpus-Started f m₁ {m' = m'} (ground arith) in
      let same = setup_primary-enabled p m₁ s.first in
      let d =
        read_tables-default p f s.id s.primary {m' = s.tables}
          (same_table f m₁ s.primary same.1 ∙ h) s.second in
      subst (λ (n : Machine). (2 ≤ n.num_cpus) × (n.cpu_apic_map 1 ≡ m.cpu_apic_map 1))
        (sym s.third) (d.0, d.1 ∙ setup_primary-second p m₁ s.first)
