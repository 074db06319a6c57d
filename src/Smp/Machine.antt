-- ===== src/Smp/Machine.antt =====
-- What perftools/c/x86_asm/smp/smp-imps.c runs on: the memory, the hardware registers and the
-- macros that the system must define, and the globals that the program keeps.
pub mod Checksum
use debian_config_files.Base.{
  ℕ, zero, suc, ◌+◌, ◌*◌, ◌/◌, ◌%◌, ◌^◌, Bool, List, [], ◌∷◌, ◌==◌, if◌then◌else◌,
}

-- An access to the hardware.
pub data Access : Type 0 where
  mmio_write : ℕ → ℕ → Access
  mmio_read : ℕ → Access
  cmos_write : ℕ → ℕ → Access
  delay : ℕ → Access

-- `ram` holds a byte for each address that the code uses, `calls` the accesses made, the newest
-- first. The rest are the exported globals of the file.
pub record Machine : Type 0 where
  pub ram : ℕ → ℕ
  pub calls : List Access
  pub lapic_addr : ℕ
  pub num_cpus : ℕ
  pub enabled : Bool
  pub cpu_apic_map : ℕ → ℕ
  pub apic_cpu_map : ℕ → ℕ

-- The macros `PHYS_TO_VIRTUAL`, `TEST_BOOTED`, `READ_MSR_LO(0x1b)` and `CMOS_READ_BYTE`, what a
-- device register reads as, the code between `patch_code_start` and `patch_code_end`, and the
-- address of the static `defconfig`. What may change is answered from the accesses before.
pub record Platform : Type 0 where
  pub phys_to_virtual : ℕ → ℕ
  pub test_booted : List Access → ℕ → Bool
  pub msr_apic_base : List Access → ℕ
  pub cmos_read : List Access → ℕ → ℕ
  pub register : List Access → ℕ → ℕ
  pub patch_code : List ℕ
  pub defconfig : ℕ

abbrev pub note : Access → Machine → Machine
note a m = record m { calls = a ∷ m.calls }

-- `IMPS_LAPIC_WRITE` and `IMPS_LAPIC_READ`.
abbrev pub lapic_write : ℕ → ℕ → Machine → Machine
lapic_write reg v m = note (mmio_write ((m.lapic_addr + reg) % 2 ^ 32) v) m

abbrev pub lapic_value : Platform → ℕ → Machine → ℕ
lapic_value p reg m = p.register m.calls ((m.lapic_addr + reg) % 2 ^ 32) % 2 ^ 32

abbrev pub lapic_read : ℕ → Machine → Machine
lapic_read reg m = note (mmio_read ((m.lapic_addr + reg) % 2 ^ 32)) m

-- Little-endian reads of 2 and 4 bytes.
abbrev pub half_at : (ℕ → ℕ) → ℕ → ℕ
half_at ram a = ram a + ram (a + 1) * 256

abbrev pub word_at : (ℕ → ℕ) → ℕ → ℕ
word_at ram a = half_at ram a + half_at ram (a + 2) * 65536

abbrev pub store : ℕ → ℕ → Machine → Machine
store a v m = record m { ram = λ q. if q == a then v else m.ram q }

-- `memcpy(a, bytes, …)`.
unfoldable pub store_bytes : ℕ → List ℕ → Machine → Machine
store_bytes a [] m = m
store_bytes a (v ∷ bytes) m = store_bytes (a + 1) bytes (store a v m)

abbrev pub store_word : ℕ → ℕ → Machine → Machine
store_word a v m =
    store (a + 3) (v / 16777216 % 256)
      (store (a + 2) (v / 65536 % 256) (store (a + 1) (v / 256 % 256) (store a (v % 256) m)))

-- `get_checksum`: the loop adds in 32 bits, over addresses of 32 bits, and keeps the low byte.
unfoldable pub checksum_from : (ℕ → ℕ) → ℕ → ℕ → ℕ → ℕ
checksum_from ram sum start zero = sum % 256
checksum_from ram sum start (suc n) =
    checksum_from ram ((sum + ram start) % 2 ^ 32) ((start + 1) % 2 ^ 32) n

unfoldable pub get_checksum : (ℕ → ℕ) → ℕ → ℕ → ℕ
get_checksum ram start length = checksum_from ram 0 start length

-- The exported globals.
pub record Globals : Type 0 where
  pub lapic_addr : ℕ
  pub num_cpus : ℕ
  pub enabled : Bool
  pub cpu_apic_map : ℕ → ℕ
  pub apic_cpu_map : ℕ → ℕ

abbrev pub globals : Machine → Globals
globals m = record {
  lapic_addr = m.lapic_addr;
  num_cpus = m.num_cpus;
  enabled = m.enabled;
  cpu_apic_map = m.cpu_apic_map;
  apic_cpu_map = m.apic_cpu_map;
}
