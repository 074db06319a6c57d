-- ===== src/Smp/Tests.antt =====
-- The theorems on perftools/c/x86_asm/smp/smp-imps.c at work on a machine of two processors.
use debian_config_files.Base.{
  ℕ, zero, suc, ◌%◌, ◌-◌, ◌*◌, ◌≤◌, ◌≡◌, ◌≢◌, ◌↔◌, ◌⊎◌, refl, true, false, ◌&&◌, Option, none, some,
  List, [], ◌∷◌, ltb, leb, ◌==◌, if◌then◌else◌, arith,
}
use debian_config_files.Smp.Machine.{
  Machine, Platform, globals, store_bytes, checksum_from, get_checksum,
}
use debian_config_files.Smp.Machine.Checksum.{bytes_sum, get_checksum-bytes_sum}
use debian_config_files.Smp.Ipi.{request, poll_status, wait_sent, send_ipi}
use debian_config_files.Smp.Ipi.Laws.{Sends, send_ipi-Sends}
use debian_config_files.Smp.Boot.{
  Processor, clear_errors, ipi, start_vector, init_ipis, startup_ipis, wait_booted, clear_vector,
  started, boot_cpu,
}
use debian_config_files.Smp.Boot.Laws.{Boots, boot_cpu-Boots}
use debian_config_files.Smp.Table.{register_cpu, add_processor, read_config_table}
use debian_config_files.Smp.Table.Laws.{IsMapped}
use debian_config_files.Smp.Bios.{
  cth_ptr, feature, bad_table, bad_bios, msr_base, enable_lapic, setup_primary, ioapic_select,
  ioapic_value, default_ioapic, default_flags, default_features, default_config, read_tables,
  table_lapic, start_cpus, read_bios,
}
use debian_config_files.Smp.Bios.Laws.{IsTable, bad_bios-false}
use debian_config_files.Smp.Bios.Outcome.{read_bios-IsMapped, read_bios-default_gap}
use debian_config_files.Smp.Probe.{
  is_fps, scan_loop, scan, force_loop, force, mem_lower, ebda, probe_result, probe_scans, probe,
}
use debian_config_files.Smp.Probe.Scan.{Scans, scan-Scans}
use debian_config_files.Smp.Probe.Laws.{FindsFps, force-IsMapped, probe-FindsFps}

abbrev byte_at : List ℕ → ℕ → ℕ
byte_at [] i = 0
byte_at (b ∷ bytes) zero = b
byte_at (b ∷ bytes) (suc i) = byte_at bytes i

-- A floating pointer structure that leads to a table at 4096, and one with the default
-- configuration 5.
abbrev fps_table : List ℕ
fps_table = 0x5F ∷ 0x4D ∷ 0x50 ∷ 0x5F ∷ 0 ∷ 16 ∷ 0 ∷ 0 ∷ 1 ∷ 4 ∷ 144 ∷ 0 ∷ []

abbrev fps_default : List ℕ
fps_default = 0x5F ∷ 0x4D ∷ 0x50 ∷ 0x5F ∷ 0 ∷ 0 ∷ 0 ∷ 0 ∷ 1 ∷ 4 ∷ 155 ∷ 5 ∷ []

-- The table: its header, and one processor with the APIC id 1.
abbrev table_start : List ℕ
table_start = 0x50 ∷ 0x43 ∷ 0x4D ∷ 0x50 ∷ 64 ∷ 0 ∷ 4 ∷ 155 ∷ []

abbrev table_end : List ℕ
table_end = 1 ∷ 0 ∷ 0 ∷ 0 ∷ 0xE0 ∷ 0xFE ∷ 0 ∷ 0 ∷ 0 ∷ 0 ∷ 0 ∷ 1 ∷ 0x10 ∷ 1 ∷ []

abbrev memory_of : List ℕ → ℕ → ℕ
memory_of fps a =
    if leb 0xF0000 a && ltb a 0xF0010
    then byte_at fps (a - 0xF0000)
    else if leb 4096 a && ltb a 4104
    then byte_at table_start (a - 4096)
    else if leb 4130 a && ltb a 4160
    then byte_at table_end (a - 4130)
    else 0

abbrev machine : List ℕ → Machine
machine fps = record {
  ram = memory_of fps;
  calls = [];
  lapic_addr = 0xFEE00000;
  num_cpus = 1;
  enabled = false;
  cpu_apic_map = λ i. 0;
  apic_cpu_map = λ i. 0;
}

-- Addresses are mapped to themselves, every processor boots at once, and the CMOS reports 640 KB.
abbrev platform : Platform
platform = record {
  phys_to_virtual = λ a. a;
  test_booted = λ calls a. true;
  msr_apic_base = λ calls. 0xFEE00900;
  cmos_read = λ calls r. if r == 0x16 then 2 else 128;
  register = λ calls a. 0;
  patch_code = 0x90 ∷ [];
  defconfig = 8192;
}

abbrev get_or {ℓ} : {A : Type ℓ} → A → Option A → A
get_or a none = a
get_or a (some b) = b

abbrev second_cpu : Processor
second_cpu = record { apic_id = 1; apic_ver = 0x10; flags = 1 }

send_ipi-Sends_example :
    Sends platform
      (request 1 0x500 (machine fps_table))
      (send_ipi platform 1 0x500 (machine fps_table)).0
send_ipi-Sends_example = send_ipi-Sends platform 1 0x500 (machine fps_table)

boot_cpu-Boots_example :
    Boots platform 100
      (started platform second_cpu (machine fps_table))
      (boot_cpu platform second_cpu (machine fps_table)).0
boot_cpu-Boots_example = boot_cpu-Boots platform second_cpu (machine fps_table)

scan-Scans_example :
    Scans platform 0xEFFF0 2
      (machine fps_table)
      (scan platform 0xEFFF0 (16 * 2) (machine fps_table))
scan-Scans_example = scan-Scans platform 0xEFFF0 2 (machine fps_table) (omega arith)

bad_bios-false_example : (bad_bios platform (memory_of fps_table) 0xF0000 ≡ false) ↔ (
    (feature (memory_of fps_table) 0xF0000 ≤ 7)
    × (((cth_ptr (memory_of fps_table) 0xF0000 ≡ 0) × (feature (memory_of fps_table) 0xF0000 ≢ 0))
        ⊎ ((cth_ptr (memory_of fps_table) 0xF0000 ≢ 0)
            × IsTable (memory_of fps_table) (cth_ptr (memory_of fps_table) 0xF0000) 4)))
bad_bios-false_example = bad_bios-false platform (memory_of fps_table) 0xF0000

get_checksum-bytes_sum_example :
    get_checksum (memory_of fps_table) 0xF0000 16 ≡ bytes_sum (memory_of fps_table) 0xF0000 16 % 256
get_checksum-bytes_sum_example =
    get_checksum-bytes_sum (memory_of fps_table) 0xF0000 16 (omega arith)

-- The machine once the entry of the table is read.
abbrev after_table : Machine
after_table = get_or (machine fps_table) (read_config_table platform 1 4140 (machine fps_table))

after_table-run : read_config_table platform 1 4140 (machine fps_table) ≡ some after_table
unfolding store_bytes checksum_from get_checksum poll_status wait_sent send_ipi clear_errors ipi
    start_vector init_ipis startup_ipis wait_booted clear_vector started boot_cpu register_cpu
    add_processor read_config_table
after_table-run = refl

-- The machine once `imps_read_bios` has run, with the table and with the default configuration.
abbrev after_bios : List ℕ → Machine
after_bios fps = get_or (machine fps) (read_bios platform 0xF0000 (machine fps))

after_bios-table : read_bios platform 0xF0000 (machine fps_table) ≡ some (after_bios fps_table)
unfolding store_bytes checksum_from get_checksum poll_status wait_sent send_ipi clear_errors ipi
    start_vector init_ipis startup_ipis wait_booted clear_vector started boot_cpu register_cpu
    add_processor read_config_table bad_table bad_bios msr_base enable_lapic setup_primary
    ioapic_select ioapic_value default_ioapic default_flags default_features default_config
    read_tables table_lapic start_cpus read_bios
after_bios-table = refl

enabled-table : (after_bios fps_table).enabled ≡ true
unfolding store_bytes checksum_from get_checksum poll_status wait_sent send_ipi clear_errors ipi
    start_vector init_ipis startup_ipis wait_booted clear_vector started boot_cpu register_cpu
    add_processor read_config_table bad_table bad_bios msr_base enable_lapic setup_primary
    ioapic_select ioapic_value default_ioapic default_flags default_features default_config
    read_tables table_lapic start_cpus read_bios
enabled-table = refl

read_bios-IsMapped_example : IsMapped (globals (after_bios fps_table))
read_bios-IsMapped_example =
    read_bios-IsMapped platform 0xF0000 (machine fps_table) (after_bios fps_table) after_bios-table
      (omega arith) refl refl enabled-table

after_bios-default :
    read_bios platform 0xF0000 (machine fps_default) ≡ some (after_bios fps_default)
unfolding store_bytes checksum_from get_checksum poll_status wait_sent send_ipi clear_errors ipi
    start_vector init_ipis startup_ipis wait_booted clear_vector started boot_cpu register_cpu
    add_processor read_config_table bad_table bad_bios msr_base enable_lapic setup_primary
    ioapic_select ioapic_value default_ioapic default_flags default_features default_config
    read_tables table_lapic start_cpus read_bios
after_bios-default = refl

enabled-default : (after_bios fps_default).enabled ≡ true
unfolding store_bytes checksum_from get_checksum poll_status wait_sent send_ipi clear_errors ipi
    start_vector init_ipis startup_ipis wait_booted clear_vector started boot_cpu register_cpu
    add_processor read_config_table bad_table bad_bios msr_base enable_lapic setup_primary
    ioapic_select ioapic_value default_ioapic default_flags default_features default_config
    read_tables table_lapic start_cpus read_bios
enabled-default = refl

read_bios-default_gap_example :
    (2 ≤ (after_bios fps_default).num_cpus) × ((after_bios fps_default).cpu_apic_map 1 ≡ 0)
read_bios-default_gap_example =
    read_bios-default_gap platform 0xF0000 (machine fps_default) (after_bios fps_default)
      after_bios-default refl refl enabled-default

force-IsMapped_example :
    (n : ℕ) × (m' : Machine) × (force platform 2 (machine fps_table) ≡ some (n, m'))
    × IsMapped (globals m')
    × (n ≡ m'.num_cpus)
    × (1 ≤ n)
    × (n ≤ 3)
force-IsMapped_example =
    force-IsMapped platform 2 (machine fps_table) refl (omega arith) (omega arith)

-- What `imps_probe` gives.
abbrev after_probe : ℕ × Machine
after_probe = get_or (0, machine fps_table) (probe platform (machine fps_table))

after_probe-run : probe platform (machine fps_table) ≡ some after_probe
unfolding store_bytes checksum_from get_checksum poll_status wait_sent send_ipi clear_errors ipi
    start_vector init_ipis startup_ipis wait_booted clear_vector started boot_cpu register_cpu
    add_processor read_config_table bad_table bad_bios msr_base enable_lapic setup_primary
    ioapic_select ioapic_value default_ioapic default_flags default_features default_config
    read_tables table_lapic start_cpus read_bios is_fps scan_loop scan force_loop force mem_lower
    ebda probe_result probe_scans probe
after_probe-run = refl

after_probe-count : after_probe.0 ≡ 2
unfolding store_bytes checksum_from get_checksum poll_status wait_sent send_ipi clear_errors ipi
    start_vector init_ipis startup_ipis wait_booted clear_vector started boot_cpu register_cpu
    add_processor read_config_table bad_table bad_bios msr_base enable_lapic setup_primary
    ioapic_select ioapic_value default_ioapic default_flags default_features default_config
    read_tables table_lapic start_cpus read_bios is_fps scan_loop scan force_loop force mem_lower
    ebda probe_result probe_scans probe
after_probe-count = refl

after_probe-≢-zero : ¬ (after_probe.0 ≡ 0)
after_probe-≢-zero e = omega (arith, after_probe-count)

probe-FindsFps_example :
    (after_probe.0 ≡ after_probe.1.num_cpus)
    × (after_probe.1.enabled ≡ true)
    × (524288 ≤ mem_lower platform (machine fps_table))
    × (mem_lower platform (machine fps_table) ≤ 655360)
    × FindsFps platform
        (mem_lower platform (machine fps_table))
        (ebda platform (mem_lower platform (machine fps_table)) (memory_of fps_table))
        (memory_of fps_table)
probe-FindsFps_example =
    probe-FindsFps platform (machine fps_table) after_probe-run after_probe-≢-zero
