-- ===== src/Smp/Table/Laws.antt =====
-- The two processor maps of perftools/c/x86_asm/smp/smp-imps.c while the table is read.
use debian_config_files.Base.{
  ℕ, zero, suc, ◌+◌, ◌≤◌, ◌<◌, ◌%◌, ◌^◌, ◌≡◌, some_inj, refl, ap, sym, subst, ◌∙◌, Bool, true,
  false, some, arith, Bool-cases, Option-cases, inl, inr, ◌==◌,
}
use debian_config_files.Smp.Machine.{Machine, Platform, Globals, globals}
use debian_config_files.Smp.Boot.{Processor, boot_cpu}
use debian_config_files.Smp.Boot.Laws.{globals-boot_cpu}
use debian_config_files.Smp.Table.{
  max_cpus, update, register_cpu, is_enabled, is_boot, processor_at, add_processor,
  read_config_table,
}

-- The maps fit together: each running processor's APIC id leads to a running processor with that
-- id. (It may be another one, where the table names one APIC id twice.)
pub record IsMapped (m : Globals) : Type 0 where
  pub room : m.num_cpus ≤ max_cpus
  pub back : (i : ℕ) → i < m.num_cpus → m.apic_cpu_map (m.cpu_apic_map i) < m.num_cpus
  pub same_id :
      (i : ℕ)
      → i < m.num_cpus
      → m.cpu_apic_map (m.apic_cpu_map (m.cpu_apic_map i)) ≡ m.cpu_apic_map i

-- From one state to a later one processors are only added, behind those that are there.
pub record Extends (m m' : Globals) : Type 0 where
  pub more : m.num_cpus ≤ m'.num_cpus
  pub kept : (i : ℕ) → i < m.num_cpus → m'.cpu_apic_map i ≡ m.cpu_apic_map i
  pub lapic_addr : m'.lapic_addr ≡ m.lapic_addr
  pub enabled : m'.enabled ≡ m.enabled

register_cpu-IsMapped :
    (id : ℕ) (m : Machine) {m' : Machine}
    → register_cpu id m ≡ some m'
    → IsMapped (globals m)
    → IsMapped (globals m')
unfolding register_cpu
register_cpu-IsMapped id m {m'} e h = record {
  room = ground (arith, h.room);
  back = λ i lt. ground (arith, h.back i);
  same_id = λ i lt. ground (arith, h.back i, h.same_id i);
}

register_cpu-Extends :
    (id : ℕ) (m : Machine) {m' : Machine}
    → register_cpu id m ≡ some m'
    → Extends (globals m) (globals m')
unfolding register_cpu
register_cpu-Extends id m e = record {
  more = ground arith;
  kept = λ i lt. ground arith;
  lapic_addr = ground arith;
  enabled = ground arith;
}

register_cpu-some :
    (id : ℕ) (m : Machine)
    → m.num_cpus < max_cpus
    → id < max_cpus
    → (m' : Machine) × (register_cpu id m ≡ some m') × (m'.num_cpus ≡ m.num_cpus + 1)
unfolding register_cpu
register_cpu-some id m room lt = (
  record m {
    cpu_apic_map = update m.cpu_apic_map m.num_cpus id;
    apic_cpu_map = update m.apic_cpu_map id m.num_cpus;
    num_cpus = m.num_cpus + 1;
  },
  ground arith,
  refl,
)

-- A step that keeps the maps fitting and only adds processors.
pub record Grows (m m' : Globals) : Type 0 where
  pub mapped : IsMapped m → IsMapped m'
  pub extends : Extends m m'

pub Grows-refl : (m : Globals) → Grows m m
Grows-refl m = record {
  mapped = λ h. h;
  extends = record { more = omega arith; kept = λ i lt. refl; lapic_addr = refl; enabled = refl };
}

pub Grows-trans : {m n o : Globals} → Grows m n → Grows n o → Grows m o
Grows-trans {m} {n} {o} g h = record {
  mapped = λ v. h.mapped (g.mapped v);
  extends = record {
    more = let a = g.extends.more in let b = h.extends.more in omega arith;
    kept = λ i lt. let a = g.extends.more in h.extends.kept i (omega arith) ∙ g.extends.kept i lt;
    lapic_addr = h.extends.lapic_addr ∙ g.extends.lapic_addr;
    enabled = h.extends.enabled ∙ g.extends.enabled;
  };
}

module _ (p : Platform) where
  boot_cpu-Grows : (c : Processor) (m : Machine) → Grows (globals m) (globals (boot_cpu p c m).1)
  boot_cpu-Grows c m =
      subst (Grows (globals m)) (sym (globals-boot_cpu p c m)) (Grows-refl (globals m))

  register_cpu-Grows :
      (id : ℕ) (m : Machine) {m' : Machine}
      → register_cpu id m ≡ some m'
      → Grows (globals m) (globals m')
  register_cpu-Grows id m e = record {
    mapped = register_cpu-IsMapped id m e;
    extends = register_cpu-Extends id m e;
  }

  pub add_processor-Grows :
      (c : Processor) (m : Machine) {m' : Machine}
      → add_processor p c m ≡ some m'
      → Grows (globals m) (globals m')
  unfolding add_processor
  add_processor-Grows c m {m'} e = go (is_enabled c) (is_boot c) (boot_cpu p c m).0 refl refl refl
    where
      same : some m ≡ some m' → Grows (globals m) (globals m')
      same q = subst (λ n. Grows (globals m) (globals n)) (some_inj q) (Grows-refl (globals m))

      go :
          (en bo su : Bool)
          → is_enabled c ≡ en
          → is_boot c ≡ bo
          → (boot_cpu p c m).0 ≡ su
          → Grows (globals m) (globals m')
      go false bo su x y z = same (ground arith)
      go true true su x y z = same (ground arith)
      go true false true x y z =
          Grows-trans (boot_cpu-Grows c m)
            (register_cpu-Grows c.apic_id (boot_cpu p c m).1 {m' = m'} (ground arith))
      go true false false x y z =
          let q : (boot_cpu p c m).1 ≡ m' = ground arith in
          subst (λ n. Grows (globals m) (globals n)) q (boot_cpu-Grows c m)

  -- With room in the maps a processor is added or passed over.
  pub add_processor-some :
      (c : Processor) (m : Machine)
      → m.num_cpus < max_cpus
      → c.apic_id < max_cpus
      → (m' : Machine) × (add_processor p c m ≡ some m') × (m'.num_cpus ≤ m.num_cpus + 1)
  unfolding add_processor
  add_processor-some c m room id = go (is_enabled c) (is_boot c) (boot_cpu p c m).0 refl refl refl
    where
      same : (boot_cpu p c m).1.num_cpus ≡ m.num_cpus
      same = ap Globals.num_cpus (globals-boot_cpu p c m)

      go :
          (en bo su : Bool)
          → is_enabled c ≡ en
          → is_boot c ≡ bo
          → (boot_cpu p c m).0 ≡ su
          → (m' : Machine) × (add_processor p c m ≡ some m') × (m'.num_cpus ≤ m.num_cpus + 1)
      go false bo su x y z = (m, ground arith, omega arith)
      go true true su x y z = (m, ground arith, omega arith)
      go true false true x y z =
          let (m', e, q) =
            register_cpu-some c.apic_id (boot_cpu p c m).1 (omega (arith, same)) id in
          (m', ground (arith, e), omega (arith, same, q))
      go true false false x y z = ((boot_cpu p c m).1, ground arith, omega (arith, same))

  -- Reading the configuration table keeps the two maps fitting together, whatever the table holds,
  -- and adds processors behind those that are there. (A write outside the maps is a fault.)
  pub read_config_table-Grows :
      (count start : ℕ) (m : Machine) {m' : Machine}
      → read_config_table p count start m ≡ some m'
      → Grows (globals m) (globals m')
  unfolding read_config_table
  read_config_table-Grows zero start m {m'} e =
      subst (λ n. Grows (globals m) (globals n)) (some_inj e) (Grows-refl (globals m))
  read_config_table-Grows (suc count) start m {m'} e = elim (Bool-cases (m.ram start == 0)) [
    | inr other ↦ read_config_table-Grows count ((start + 8) % 2 ^ 32) m {m' = m'} (ground arith)
    | inl processor ↦ elim (Option-cases (add_processor p (processor_at m.ram start) m)) [
      | inl fault ↦ absurd (ground arith)
      | inr (n, k) ↦
          Grows-trans (add_processor-Grows (processor_at m.ram start) m k)
            (read_config_table-Grows count ((start + 20) % 2 ^ 32) n {m' = m'} (ground arith))
    ]
  ]
