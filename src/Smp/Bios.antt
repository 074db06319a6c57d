-- ===== src/Smp/Bios.antt =====
-- `imps_bad_bios` and `imps_read_bios` of perftools/c/x86_asm/smp/smp-imps.c.
pub mod Laws
pub mod Outcome
use Prim.Native.Nat.{bit_or}
use mathlib.Core.Option
use debian_config_files.Base.{
  ℕ, zero, suc, ◌+◌, ◌-◌, ◌*◌, ◌/◌, ◌%◌, ◌^◌, Bool, true, false, not, ◌&&◌, ◌||◌, Option, none,
  some, List, [], ◌∷◌, ltb, ◌==◌, if◌then◌else◌,
}
use debian_config_files.Smp.Machine.{
  Machine, Platform, note, mmio_write, mmio_read, lapic_write, lapic_value, lapic_read, half_at,
  word_at, store, store_bytes, get_checksum,
}
use debian_config_files.Smp.Table.{max_cpus, update, read_config_table}

-- `IMPS_CTH_SIGNATURE`, the bytes `PCMP`.
abbrev pub cth_signature : ℕ
cth_signature = 0x504D4350

-- Fields of an `imps_fps` at the address `f`.
abbrev pub cth_ptr : (ℕ → ℕ) → ℕ → ℕ
cth_ptr ram f = word_at ram (f + 4)

abbrev pub spec_rev : (ℕ → ℕ) → ℕ → ℕ
spec_rev ram f = ram (f + 9)

abbrev pub feature : (ℕ → ℕ) → ℕ → ℕ
feature ram f = ram (f + 11)

-- Fields of an `imps_cth` at the address `a`; the structure has 44 bytes.
abbrev pub base_length : (ℕ → ℕ) → ℕ → ℕ
base_length ram a = half_at ram (a + 4)

abbrev pub entry_count : (ℕ → ℕ) → ℕ → ℕ
entry_count ram a = half_at ram (a + 34)

abbrev pub extended_length : (ℕ → ℕ) → ℕ → ℕ
extended_length ram a = half_at ram (a + 40)

-- The tests of a configuration table header at `a`, from the signature on.
unfoldable pub bad_table : (ℕ → ℕ) → ℕ → ℕ → Bool
bad_table ram a rev =
    let sum = get_checksum ram a (base_length ram a) in
    let extended = get_checksum ram ((a + base_length ram a) % 2 ^ 32) (extended_length ram a) in
    if not (word_at ram a == cth_signature) || not (sum == 0)
    then true
    else if not (ram (a + 6) == rev)
    then true
    else if extended_length ram a == 0
    then false
    else not ((extended + ram (a + 42)) % 256 == 0)

-- `imps_enabled = 1`.
abbrev pub enable : Machine → Machine
enable m = record m { enabled = true }

module _ (p : Platform) where
  unfoldable pub bad_bios : (ℕ → ℕ) → ℕ → Bool
  bad_bios ram f =
      if ltb 7 (feature ram f)
      then true
      else if cth_ptr ram f == 0
      then feature ram f == 0
      else bad_table ram (p.phys_to_virtual (cth_ptr ram f)) (spec_rev ram f)

  -- `READ_MSR_LO(0x1b) & 0xFFFFF000`.
  unfoldable pub msr_base : Machine → ℕ
  msr_base m = p.msr_apic_base m.calls % 2 ^ 32 / 4096 * 4096

  -- `APIC_ID(IMPS_LAPIC_READ(LAPIC_ID))`, after the local APIC was switched on.
  unfoldable pub enable_lapic : Machine → Machine
  enable_lapic m = lapic_write 0xF0 (bit_or (lapic_value p 0xF0 m) 0x100) (lapic_read 0xF0 m)

  -- The lines under "Setup primary CPU": its APIC id, and its place in the maps. `none` is a write
  -- outside them.
  unfoldable pub setup_primary : Machine → Option (ℕ × Machine)
  setup_primary m =
      let m₁ = enable_lapic m in
      let id = lapic_value p 0x20 m₁ / 2 ^ 24 in
      let m₂ = lapic_read 0x20 m₁ in
      if ltb id max_cpus
      then some (
        id,
        record m₂ {
          cpu_apic_map = update m₂.cpu_apic_map 0 id;
          apic_cpu_map = update m₂.apic_cpu_map id 0;
        },
      )
      else none

  -- A register of the I/O APIC: its number is written, its value read.
  unfoldable pub ioapic_select : ℕ → Machine → Machine
  ioapic_select reg m = note (mmio_read 0xFEC00010) (note (mmio_write 0xFEC00000 reg) m)

  unfoldable pub ioapic_value : ℕ → Machine → ℕ
  ioapic_value reg m = p.register (note (mmio_write 0xFEC00000 reg) m).calls 0xFEC00010 % 2 ^ 32

  -- The I/O APIC's id and version go into `defconfig.ioapic`.
  unfoldable pub default_ioapic : Machine → Machine
  default_ioapic m =
      let m₁ = store (p.defconfig + 57) (ioapic_value 0 m / 2 ^ 24) (ioapic_select 0 m) in
      store (p.defconfig + 58) (ioapic_value 1 m₁ % 256) (ioapic_select 1 m₁)

  -- The flags of the two processors of `defconfig`.
  unfoldable pub default_flags : ℕ → Machine → Machine
  default_flags id m =
      store (p.defconfig + 20 * (1 - id) + 3) 1 (store (p.defconfig + 20 * id + 3) 3 m)

  -- The tests on `feature_info[0]`. `ISA   ` and `MCA   ` are written out.
  unfoldable pub default_features : ℕ → Machine → Machine
  default_features f m =
      let m₁ =
        if f == 1 || f == 5
        then store_bytes (p.defconfig + 42) (73 ∷ 83 ∷ 65 ∷ 32 ∷ 32 ∷ 32 ∷ []) m
        else m in
      let m₂ =
        if f == 4 || f == 7
        then store_bytes (p.defconfig + 42) (77 ∷ 67 ∷ 65 ∷ 32 ∷ 32 ∷ 32 ∷ []) m₁
        else m₁ in
      let m₃ =
        if ltb 4 f
        then store (p.defconfig + 48) 1
            (store (p.defconfig + 22) 0x10 (store (p.defconfig + 2) 0x10 m₂))
        else m₂ in
      let m₄ =
        if f == 2 then store (p.defconfig + 168) 255 (store (p.defconfig + 80) 255 m₃) else m₃ in
      if f == 7 then store (p.defconfig + 64) 255 m₄ else m₄

  -- The branch without a configuration table. `none` is a write outside `defconfig.proc`.
  unfoldable pub default_config : ℕ → ℕ → Machine → Option Machine
  default_config id f m =
      if ltb id 2
      then some (default_features f (record (default_flags id (default_ioapic m)) { num_cpus = 2 }))
      else none

  -- From the primary processor on.
  unfoldable pub read_tables : ℕ → ℕ → Machine → Option Machine
  read_tables f id m =
      if cth_ptr m.ram f == 0
      then elim (default_config id (feature m.ram f) m) [
        | none ↦ none
        | some m' ↦ read_config_table p 23 p.defconfig m'
      ]
      else let a = p.phys_to_virtual (cth_ptr m.ram f) in
        read_config_table p (entry_count m.ram a) ((a + 44) % 2 ^ 32) m

  -- The address of the local APIC that the tables give.
  unfoldable pub table_lapic : (ℕ → ℕ) → ℕ → ℕ
  table_lapic ram f =
      if cth_ptr ram f == 0
      then 0xFEE00000
      else word_at ram (p.phys_to_virtual (cth_ptr ram f) + 36)

  -- `imps_read_bios` once the tables are accepted and the local APIC's address is right.
  unfoldable pub start_cpus : ℕ → Machine → Option Machine
  start_cpus f m = elim (setup_primary m) [
    | none ↦ none
    | some (id, m') ↦ Option.map enable (read_tables f id m')
  ]

  unfoldable pub read_bios : ℕ → Machine → Option Machine
  read_bios f m =
      let lapic = table_lapic m.ram f in
      let m' = record m { lapic_addr = lapic } in
      if bad_bios m.ram f
      then some m
      else if lapic == msr_base m'
      then start_cpus f (record m { lapic_addr = p.phys_to_virtual lapic })
      else some m'
