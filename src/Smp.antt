-- ===== src/Smp.antt =====
-- perftools/c/x86_asm/smp/smp-imps.c: Intel MultiProcessor tables, and starting the processors.
pub mod Machine
pub mod Ipi
pub mod Boot
pub mod Table
pub mod Bios
pub mod Probe
mod Tests
