-- ===== src/Elf/Tests/Runs.antt =====
-- The theorems on whole runs of perftools/linux/elf/elf.c at work on a file of a few bytes.
use debian_config_files.Base.{
  ◌+◌, ◌*◌, ◌<◌, ◌≡◌, refl, true, false, some, [], ◌∷◌, arith, length, drop,
}
use debian_config_files.Dump.Buffer.{concat, max_screen}
use debian_config_files.Elf.File.{
  Ehdr, Image, file_read, string_at, c_string, find_shstrtab, find_from, same_string,
}
use debian_config_files.Elf.Symbols.{dump_symtab, symtab_loop, Outcome, printed, exited, crashed}
use debian_config_files.Elf.Liner.{
  Fields, Phdr, Prints, Switches, type_text, machine_text, header_texts, phdr_texts, header_part,
  liner_dump,
}
use debian_config_files.Elf.Liner.Laws.{
  header_shown, phdrs_in_file, section_dumps, liner_dump-sections,
}
use debian_config_files.Elf.Run.{
  Dumps, System, Shown, find_section, symtab_part, wanted, dynamic_part, sections_part, heads_part,
  symbols_part, file_dump,
}
use debian_config_files.Elf.Run.Laws.{Needs, file_dump-Needs}
use debian_config_files.Elf.Tests.{
  byte_at, tiny, tiny_file, tiny_image, init_read-tiny, names_head, two_bytes, short_format,
  any_screen,
}

-- Conversions that print each value as one character, and one program header of 3 bytes.
abbrev short_prints : Prints
short_prints = record {
  fields = λ b. record {
    e_type = 2;
    e_machine = 3;
    e_entry = 0;
    e_phoff = 4;
    e_phentsize = 3;
    e_phnum = 1;
  };
  phdr_size = 3;
  phdr = λ b. record { p_type = byte_at b 0; p_vaddr = byte_at b 1; p_paddr = byte_at b 2 };
  pt_num = 8;
  chars = λ s. 83 ∷ [];
  hex = λ n. n ∷ [];
  hex8 = λ n. n ∷ [];
  hex6 = λ n. n ∷ [];
}

short_header :
    (h : Ehdr) (f : Fields)
    → length (concat (type_text short_prints f.e_type ∷ header_texts short_prints h f)) < max_screen
unfolding type_text machine_text header_texts
short_header h f = ground arith

short_phdr : (p : Phdr) → length (concat (phdr_texts short_prints p)) < max_screen
unfolding phdr_texts
short_phdr p = omega arith

one_phdr : file_read tiny_file 4 (3 * 1) ≡ some (0 ∷ 10 ∷ 3 ∷ [])
unfolding file_read
one_phdr = refl

abbrev both_parts : Switches
both_parts = record { dump_header = true; dump_pheader = true }

short_names : length (string_at (0 ∷ 65 ∷ 0 ∷ []) 1) + 1 < max_screen
unfolding string_at c_string
short_names = omega arith

liner_dump-sections_example :
    liner_dump short_prints tiny tiny_file both_parts any_screen
    ≡ some (
      header_shown short_prints (4 ∷ 3 ∷ 2 ∷ 0 ∷ []) tiny_image.header,
      phdrs_in_file short_prints tiny tiny_file 4 0 1,
      section_dumps short_prints tiny tiny_file tiny_image.shstrtab (drop 1 tiny_image.heads),
    )
liner_dump-sections_example =
    liner_dump-sections short_prints tiny tiny_file both_parts tiny_image (0 ∷ 10 ∷ 3 ∷ [])
      any_screen init_read-tiny one_phdr refl short_header short_phdr ((65 ∷ [], ([], refl)), tt)
      (short_names, tt)

-- A file whose two tables are the only sections with a name.
abbrev tables_image : Image
tables_image = record tiny_image {
  shstrtab =
      0 ∷ b'.' ∷ b's' ∷ b't' ∷ b'r' ∷ b't' ∷ b'a' ∷ b'b' ∷ 0 ∷ b'.' ∷ b's' ∷ b'y' ∷ b'm' ∷ b't'
      ∷ b'a' ∷ b'b' ∷ 0 ∷ [];
  heads =
      names_head
      ∷ record { sh_name = 1; sh_offset = 10; sh_size = 3; sh_entsize = 1 }
      ∷ record { sh_name = 9; sh_offset = 12; sh_size = 4; sh_entsize = 2 }
      ∷ [];
}

abbrev system : System
system = record {
  prints = short_prints;
  format = short_format;
  shdr_size = 3;
  sh_addr = λ b. byte_at b 2;
  sym_size = 2;
  sym = two_bytes;
  wide = λ n. n ∷ [];
}

abbrev only_tables : Dumps
only_tables = record {
  flags = record {
    dump_strtab = true;
    dump_symtab = true;
    dump_comment = false;
    dump_rodata = false;
    dump_data = false;
    dump_bss = false;
    dump_text = false;
  };
  dump_header = false;
  dump_section_header = false;
  dump_dyn = false;
}

abbrev shown_or : Shown → Outcome Shown → Shown
shown_or d (printed shown) = shown
shown_or d exited = d
shown_or d crashed = d

abbrev nothing : Shown
nothing = record {
  header = [];
  section_heads = [];
  tables = record { strtab_index = 0; strtab = []; symtab_index = 0; symtab = [] };
  sections = [];
  dynamic = [];
}

abbrev tables_run : Outcome Shown
tables_run = file_dump system tiny tiny_file tables_image only_tables any_screen

tables_run-printed : tables_run ≡ printed (shown_or nothing tables_run)
unfolding file_dump header_part heads_part symbols_part wanted dynamic_part sections_part
    symtab_part find_section find_shstrtab find_from string_at c_string same_string file_read
    dump_symtab symtab_loop
tables_run-printed = refl

file_dump-Needs_example : Needs system tiny tiny_file tables_image only_tables
file_dump-Needs_example =
    file_dump-Needs system tiny tiny_file tables_image only_tables any_screen
      (shown_or nothing tables_run) tables_run-printed
