-- ===== src/Smp/Boot.antt =====
-- `boot_cpu` of perftools/c/x86_asm/smp/smp-imps.c.
pub mod Laws
use debian_config_files.Base.{
  ℕ, zero, suc, ◌+◌, ◌%◌, ◌^◌, Bool, true, false, ltb, leb, if◌then◌else◌,
}
use debian_config_files.Smp.Machine.{
  Machine, Platform, note, delay, cmos_write, lapic_write, lapic_read, store_bytes, store_word,
}
use debian_config_files.Smp.Ipi.{send_ipi}

-- An `imps_processor`, less what is not read.
pub record Processor : Type 0 where
  pub apic_id : ℕ
  pub apic_ver : ℕ
  pub flags : ℕ

-- `(512-64)*1024`.
abbrev pub bootaddr : ℕ
bootaddr = 458752

abbrev pub lapic_esr : ℕ
lapic_esr = 0x280

-- `PHYS_TO_VIRTUAL(BIOS_RESET_VECTOR)`.
abbrev pub reset_vector : Platform → ℕ
reset_vector p = p.phys_to_virtual 0x467

-- A write and a read of the APIC error register.
unfoldable pub clear_errors : Machine → Machine
clear_errors m = lapic_read lapic_esr (lapic_write lapic_esr 0 m)

module _ (p : Platform) where
  unfoldable pub ipi : ℕ → ℕ → Machine → Machine
  ipi dst v m = (send_ipi p dst v m).1

  -- The boot code is copied, the reset vector set: `(bootaddr & 0xFF000) << 12`.
  unfoldable pub start_vector : Machine → Machine
  start_vector m =
      store_word (reset_vector p) 0x70000000
        (note (cmos_write 0xF 0xa) (store_bytes bootaddr p.patch_code m))

  -- INIT is asserted and de-asserted.
  unfoldable pub init_ipis : ℕ → Machine → Machine
  init_ipis id m =
      note (delay 10000) (ipi id 0x8500 (note (delay 10000) (ipi id 0xC500 (clear_errors m))))

  -- Two startup interrupts, if the APIC is integrated. The vector is `bootaddr >> 12`.
  unfoldable pub startup_ipis : Processor → Machine → Machine
  startup_ipis c m =
      if leb 0x10 c.apic_ver
      then note (delay 1000) (ipi c.apic_id 0x670 (note (delay 1000) (ipi c.apic_id 0x670 m)))
      else m

  -- The loop `while (!TEST_BOOTED(bootaddr) && to++ < 100)`, with fuel; the result is `to`.
  unfoldable pub wait_booted : ℕ → ℕ → Machine → ℕ × Machine
  wait_booted zero to m = (to, m)
  wait_booted (suc fuel) to m = elim (p.test_booted m.calls bootaddr) [
    | true ↦ (to, m)
    | false ↦ elim (ltb to 100) [
      | true ↦ wait_booted fuel (to + 1) (note (delay 10000) m)
      | false ↦ (to + 1, m)
    ]
  ]

  -- The reset vector is cleared again.
  unfoldable pub clear_vector : Machine → Machine
  clear_vector m = store_word (reset_vector p) 0 (note (cmos_write 0xF 0) (clear_errors m))

  -- `boot_cpu` up to the loop that waits for the processor.
  unfoldable pub started : Processor → Machine → Machine
  started c m = startup_ipis c (init_ipis c.apic_id (start_vector m))

  unfoldable pub boot_cpu : Processor → Machine → Bool × Machine
  boot_cpu c m = let (to, m') = wait_booted 101 0 (started c m) in (ltb to 100, clear_vector m')
