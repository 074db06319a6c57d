-- ===== src/Elf.antt =====
-- perftools/linux/elf/elf.c, the viewer of 32-bit ELF files, and elfdig.c beside it, a library that reads
-- their tables.
pub mod File
pub mod Symbols
pub mod Dynamic
pub mod Liner
pub mod Summary
pub mod Run
pub mod Dig
pub mod Tests
