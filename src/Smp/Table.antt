-- ===== src/Smp/Table.antt =====
-- `add_processor`, `add_bus`, `add_ioapic` and `imps_read_config_table` of
-- perftools/c/x86_asm/smp/smp-imps.c. Buses and I/O APICs are only printed.
pub mod Laws
use debian_config_files.Base.{
  ℕ, zero, suc, ◌+◌, ◌/◌, ◌%◌, ◌^◌, Bool, true, false, ◌&&◌, Option, none, some, ltb, ◌==◌,
  if◌then◌else◌,
}
use debian_config_files.Smp.Machine.{Machine, Platform}
use debian_config_files.Smp.Boot.{Processor, boot_cpu}

-- `IMPS_MAX_CPUS`, the length of the two maps.
abbrev pub max_cpus : ℕ
max_cpus = 255

abbrev pub update : (ℕ → ℕ) → ℕ → ℕ → ℕ → ℕ
update f i v j = if j == i then v else f j

-- The three writes for a processor that was started; `none` is one outside the maps, which the
-- program makes without a test.
unfoldable pub register_cpu : ℕ → Machine → Option Machine
register_cpu id m =
    if ltb m.num_cpus max_cpus && ltb id max_cpus
    then some (record m {
      cpu_apic_map = update m.cpu_apic_map m.num_cpus id;
      apic_cpu_map = update m.apic_cpu_map id m.num_cpus;
      num_cpus = m.num_cpus + 1;
    })
    else none

-- The bits `IMPS_FLAG_ENABLED` and `IMPS_CPUFLAG_BOOT`.
abbrev pub is_enabled : Processor → Bool
is_enabled c = c.flags % 2 == 1

abbrev pub is_boot : Processor → Bool
is_boot c = c.flags / 2 % 2 == 1

-- An `imps_processor` in memory.
abbrev pub processor_at : (ℕ → ℕ) → ℕ → Processor
processor_at ram a = record { apic_id = ram (a + 1); apic_ver = ram (a + 2); flags = ram (a + 3) }

module _ (p : Platform) where
  unfoldable pub add_processor : Processor → Machine → Option Machine
  add_processor c m =
      if is_enabled c
      then if is_boot c
        then some m
        else (let (success, m') = boot_cpu p c m in
            if success then register_cpu c.apic_id m' else some m')
      else some m

  -- The loop over `count` entries: 20 bytes for a processor, 8 for any other.
  unfoldable pub read_config_table : ℕ → ℕ → Machine → Option Machine
  read_config_table zero start m = some m
  read_config_table (suc count) start m = elim (m.ram start == 0) [
    | true ↦ elim (add_processor (processor_at m.ram start) m) [
      | none ↦ none
      | some m' ↦ read_config_table count ((start + 20) % 2 ^ 32) m'
    ]
    | false ↦ read_config_table count ((start + 8) % 2 ^ 32) m
  ]
