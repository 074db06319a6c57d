-- ===== src/Dump.antt =====
-- perftools/linux/elf/binary_dump.c: the hexadecimal dumps of the ELF viewer, and its text buffer.
pub mod Hex
pub mod Reader
pub mod Lines
pub mod Comments
pub mod Buffer
mod Tests
