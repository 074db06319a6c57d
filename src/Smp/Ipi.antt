-- ===== src/Smp/Ipi.antt =====
-- `send_ipi` of perftools/c/x86_asm/smp/smp-imps.c.
pub mod Laws
use debian_config_files.Base.{
  ℕ, zero, suc, ◌+◌, ◌*◌, ◌/◌, ◌%◌, ◌^◌, Bool, true, false, ltb, ◌==◌, if◌then◌else◌,
}
use debian_config_files.Smp.Machine.{
  Machine, Platform, note, delay, lapic_write, lapic_value, lapic_read,
}

abbrev pub lapic_icr : ℕ
lapic_icr = 0x300

-- `LAPIC_ICR_STATUS_PEND`, bit 12 of the register.
abbrev pub is_pending : ℕ → Bool
is_pending v = v / 4096 % 2 == 1

-- One round of the loop: a delay and a read of the register.
abbrev pub poll : Machine → Machine
poll m = lapic_read lapic_icr (note (delay 100) m)

unfoldable pub poll_status : Platform → Machine → Bool
poll_status p m = is_pending (lapic_value p lapic_icr (note (delay 100) m))

-- The loop `do … while (send_status && (to++ < 1000))`, with fuel; the result is `to` after it.
unfoldable pub wait_sent : Platform → ℕ → ℕ → Machine → ℕ × Machine
wait_sent p zero to m = (to, m)
wait_sent p (suc fuel) to m = elim (poll_status p m) [
  | false ↦ (to, poll m)
  | true ↦ elim (ltb to 1000) [
    | true ↦ wait_sent p fuel (to + 1) (poll m)
    | false ↦ (to + 1, poll m)
  ]
]

-- The two writes that send the interrupt.
abbrev pub request : ℕ → ℕ → Machine → Machine
request dst v m = lapic_write lapic_icr v (lapic_write (lapic_icr + 0x10) (dst * 2 ^ 24 % 2 ^ 32) m)

-- The loop makes at most 1001 rounds.
unfoldable pub send_ipi : Platform → ℕ → ℕ → Machine → Bool × Machine
send_ipi p dst v m = let (to, m') = wait_sent p 1001 0 (request dst v m) in (ltb to 1000, m')
