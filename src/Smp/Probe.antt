-- ===== src/Smp/Probe.antt =====
-- `imps_scan`, `imps_force` and `imps_probe` of perftools/c/x86_asm/smp/smp-imps.c.
pub mod Scan
pub mod Laws
use debian_config_files.Base.{
  ℕ, zero, suc, ◌+◌, ◌-◌, ◌*◌, ◌/◌, ◌%◌, ◌^◌, Bool, true, false, not, ◌&&◌, ◌||◌, Option, none,
  some, ltb, ◌==◌, if◌then◌else◌,
}
use debian_config_files.Smp.Machine.{Machine, Platform, half_at, word_at, get_checksum}
use debian_config_files.Smp.Boot.{Processor}
use debian_config_files.Smp.Table.{add_processor}
use debian_config_files.Smp.Bios.{msr_base, setup_primary, read_bios}

-- `IMPS_FPS_SIGNATURE`, the bytes `_MP_`.
abbrev pub fps_signature : ℕ
fps_signature = 0x5F504D5F

-- The processor that `imps_force` makes up for the APIC id `i`; `id` is the primary one's.
abbrev pub forced : ℕ → ℕ → Processor
forced id i = record { apic_id = i % 256; apic_ver = 0x10; flags = if id == i then 3 else 1 }

-- Where the first scan looks: in the extended BIOS data area, or in the last kilobyte.
abbrev pub first_region : ℕ → ℕ → ℕ
first_region lower area = if area == 0 then lower - 1024 else area

module _ (p : Platform) where
  -- The tests of `imps_scan` at the physical address `start`: the fields are read at the virtual
  -- address, the checksum is computed at the physical one.
  unfoldable pub is_fps : (ℕ → ℕ) → ℕ → Bool
  is_fps ram start =
      let f = p.phys_to_virtual start in
      (word_at ram f == fps_signature)
      && (ram (f + 8) == 1)
      && ((ram (f + 9) == 1) || (ram (f + 9) == 4))
      && (get_checksum ram start 16 == 0)

  -- The loop, with fuel; `none` is a fault in `imps_read_bios`, or no fuel left.
  unfoldable pub scan_loop : ℕ → ℕ → ℕ → Machine → Option (Bool × Machine)
  scan_loop zero start length m = none
  scan_loop (suc fuel) start length m = elim (length == 0) [
    | true ↦ some (false, m)
    | false ↦ elim (is_fps m.ram start) [
      | true ↦ elim (read_bios p (p.phys_to_virtual start) m) [
        | none ↦ none
        | some m' ↦ some (true, m')
      ]
      | false ↦ scan_loop fuel ((start + 16) % 2 ^ 32) ((length + 2 ^ 32 - 16) % 2 ^ 32) m
    ]
  ]

  -- One round for each 16 bytes and one to stop; every caller passes a multiple of 16.
  unfoldable pub scan : ℕ → ℕ → Machine → Option (Bool × Machine)
  scan start length m = scan_loop (length / 16 + 1) start length m

  -- The loop of `imps_force` from `i` on, with `n` rounds left.
  unfoldable pub force_loop : ℕ → ℕ → ℕ → Machine → Option Machine
  force_loop id i zero m = some m
  force_loop id i (suc n) m = elim (add_processor p (forced id i) m) [
    | none ↦ none
    | some m' ↦ force_loop id (i + 1) n m'
  ]

  -- The result is `imps_num_cpus`.
  unfoldable pub force : ℕ → Machine → Option (ℕ × Machine)
  force ncpus m =
      elim (setup_primary p (record m { lapic_addr = p.phys_to_virtual (msr_base p m) })) [
        | none ↦ none
        | some (id, m') ↦ elim (force_loop id 0 ncpus m') [
          | none ↦ none
          | some m'' ↦ some (m''.num_cpus, m'')
        ]
      ]

  -- The size of lower memory that the CMOS reports, in bytes.
  unfoldable pub mem_lower : Machine → ℕ
  mem_lower m = (p.cmos_read m.calls 0x16 % 256 * 256 + p.cmos_read m.calls 0x15 % 256) * 1024

  -- The address of the extended BIOS data area, or 0 where it makes no sense.
  unfoldable pub ebda : ℕ → (ℕ → ℕ) → ℕ
  ebda lower ram =
      let a = half_at ram (p.phys_to_virtual 0x40E) * 16 in
      if ltb (lower - 1024) a || ltb lower (a + ram (p.phys_to_virtual a) * 1024) then 0 else a

  -- What `imps_probe` returns once its scans are done.
  unfoldable pub probe_result : Bool × Machine → ℕ × Machine
  probe_result (found, m) = ((if found && m.enabled then m.num_cpus else 0), m)

  -- The scans, in the order in which they are tried.
  unfoldable pub probe_scans : ℕ → ℕ → Machine → Option (Bool × Machine)
  probe_scans lower area m = elim (scan (first_region lower area) 1024 m) [
    | none ↦ none
    | some (true, m') ↦ some (true, m')
    | some (false, m') ↦ scan 0xF0000 0x10000 m'
  ]

  -- `IMPS_DEBUG` is defined, so the globals are set first.
  unfoldable pub probe : Machine → Option (ℕ × Machine)
  probe m =
      let m₁ : Machine = record m { enabled = false; num_cpus = 1 } in
      let lower = mem_lower m in
      if ltb lower 524288 || ltb 655360 lower
      then some (0, m₁)
      else elim (probe_scans lower (ebda lower m.ram) m₁) [
        | none ↦ none
        | some out ↦ some (probe_result out)
      ]
