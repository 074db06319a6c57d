-- ===== src/Lib.antt =====
-- Models of nine C programs of the repository and of what makes them correct.
--
-- Modeset: perftools/X/drm-howto/modeset.c, which sets a mode on each connected screen, draws and
-- puts everything back. Kernel holds what libdrm and the kernel answer (a parameter, `Drm`) and the
-- record of a run: the calls made, newest first, and the memory. Crtc is `modeset_find_crtc`, Setup
-- `modeset_open`, `modeset_create_fb`, `modeset_setup_dev` and `modeset_prepare`, Draw `next_color`
-- and `modeset_draw`, Main `modeset_cleanup` and `main`. The global device list is a list argument;
-- a resource got or given back is an event in the record, so that leaks can be counted.
--
-- Modeset13: perftools/X/drm-howto/modeset13.c, the same with a choice of the mode and with nested
-- rectangles for a picture. Setup is `modeset_setup_dev` and `modeset_prepare`, Draw
-- `modeset_draw2`, Main `main`; a mode outside a connector's array is a crash, `none`. What `atoi`
-- gives is a parameter, and the rest of the program is the text of modeset.c, and in Modeset.
--
-- Double: perftools/X/drm-howto/modeset-double-buffered.c, the same with two buffers to a device.
-- `Display` adds to `Drm` whether the kernel accepts a setting or a page flip. What is the same
-- text in the two programs (`modeset_open`, `modeset_find_crtc`, `next_color`, the loops over the
-- pixels) is one definition, in Modeset. View, below Draw, is what a viewer sees of a run: for each
-- screen the buffer that the kernel shows, and a colour.
--
-- Vsync: perftools/X/drm-howto/modeset-vsync.c, the same with page flips at the vertical blank.
-- Host adds the part of the kernel that the program waits for: the flip that is pending on each
-- CRTC, and the framebuffer that it scans out. Draw is `modeset_draw_dev`, the handler of page-flip
-- events and `modeset_draw`, Cleanup `modeset_cleanup`, Main `main`. What `time`, `select` and
-- `drmHandleEvent` report is a script, one entry for each call, events named by their CRTC; the
-- pointer that comes back with an event is looked up among the devices that are allocated. A run
-- that waits longer than its script is `blocked`, one that uses freed memory or a null pointer is
-- `crashed`, and an event of a flip that was not pending is `undocumented`.
--
-- Atomic: perftools/X/drm-howto/modeset-atomic.c, the same with atomic commits. Program is the
-- state of a run, the monad in which the functions are written and the parameter `Card`, which adds
-- to `Drm` the answers about planes, properties, blobs and atomic requests. Objects is `struct
-- drm_object` with `get_property_value`, `modeset_get_object_properties`, `modeset_drm_object_fini`
-- and `set_drm_object_property`; Choice `modeset_find_crtc` and `modeset_find_plane`; Output
-- `modeset_open`, what creates and destroys an output, and `modeset_prepare`; Draw
-- `modeset_atomic_prepare_commit`, `modeset_draw_out`, `modeset_page_flip_event`,
-- `modeset_perform_modeset` and `modeset_draw`; Main `modeset_cleanup` and `main`. A null pointer
-- that is read ends a run as `faulted`, and a script that is too short as `waiting`. An event names
-- its CRTC and may come at any time. `modeset_create_fb` and `modeset_destroy_fb` are Double's,
-- with `drmModeAddFB2` in the place of `drmModeAddFB`. Allocations (`malloc`, `calloc`,
-- `drmModeAtomicAlloc`) are taken to succeed.
--
-- Smp: perftools/c/x86_asm/smp/smp-imps.c, which finds and starts the processors of an x86 machine.
-- Machine holds the memory, the accesses to the hardware, newest first, and the globals of the
-- file; `Platform` is what the system must supply. Ipi is `send_ipi`, Boot `boot_cpu`, Table
-- `add_processor` and `imps_read_config_table`, Bios `imps_bad_bios` and `imps_read_bios`, Probe
-- `imps_scan`, `imps_force` and `imps_probe`. A write outside the 255 places of the maps is a
-- fault, `none`.
--
-- Dump: perftools/linux/elf/binary_dump.c, the hexadecimal dumps. Output is a list of pieces, one
-- for each call of `fprintf`. Hex, Lines and Comments are the dump functions, Buffer the text
-- buffer.
--
-- Elf: perftools/linux/elf/elf.c, the viewer of ELF files, which prints through Dump. File reads
-- the file and finds sections, Symbols dumps symbol tables, Dynamic the dynamic section, Summary is
-- the list at the end, Liner the dump of a whole file and Run the dump of its parts. The layout
-- of the structures of <elf.h> is a parameter. Dig is perftools/linux/elf/elfdig.c, a library that
-- keeps a file's tables in one object, from whether `open` and `fstat` succeed; a field of the
-- object that was never written is told from a null pointer.
--
-- Base holds the names that all share. The modules below a component prove what it does; a module
-- named Tests runs the theorems on concrete inputs.
--
-- Numbers are natural numbers, and a wrap-around is written out. Four loops have fuel: the wait in
-- `send_ipi` makes at most 1001 rounds and the one in `boot_cpu` at most 101, which is their fuel,
-- and `imps_scan` has one round for each 16 bytes and one to stop. The clean-ups of modeset-vsync.c
-- and modeset-atomic.c have one round for each device. The lines that follow a dump have the length
-- of the text as fuel, and each takes a character. All other loops run over a list or a count.
-- Sizes in dumps are taken to be below 2 ^ 31, where the `int` counters do not overflow.
--
-- Reads past a buffer of an ELF file are undefined in C. Here a string that begins outside its
-- table is empty, one that no 0 ends is cut at the end of the table, and an entry that reaches past
-- its buffer has fewer bytes; the theorems on finding a section, on symbols, on `elf_liner_dump` and on
-- `elf_init` say in their conditions that the names lie in their tables. `elf_init_read` stores a
-- null pointer for a section header or for names that it cannot read, and goes past its table where
-- there are more than 100 section headers; a model run ends there with `none`, before the later
-- function that would read through the pointer. In the same way a run of smp-imps.c ends where it
-- would write outside the two maps, which the program does not test. In the viewer,
-- `elf_data_dump`, `elf_bss_dump` and `elf_text_dump` are modelled although nothing calls them.
--
-- Not modelled: messages, pauses and what only prints; `add_bus` and `add_ioapic`; in elf.c `main`,
-- `elf_ph_dump`, `elf_rodata_dump`, `elf_strtab_dump` and `_elf_shstrtab_dump`; in elfdig.c
-- `elf_fini` and the functions that print one entry; the other variants of modeset.c (those that
-- list modes or draw with cairo); and the rest of the repository, which is configuration, scripts,
-- copies of other projects and small demonstrations of library calls.
pub mod Base
pub mod Modeset
pub mod Modeset13
pub mod Double
pub mod Vsync
pub mod Atomic
pub mod Smp
pub mod Dump
pub mod Elf
