-- ===== src/Elf/Tests.antt =====
-- The theorems on perftools/linux/elf/elf.c at work on a file of a few bytes.
mod Runs
mod Digs
use debian_config_files.Base.{
  ℕ, zero, suc, ◌+◌, ◌/◌, ◌≤◌, ◌<◌, ◌^◌, ◌≡◌, refl, true, false, none, some, List, [], ◌∷◌, arith,
  length, get_elem?, All,
}
use debian_config_files.Dump.Hex.{Piece}
use debian_config_files.Dump.Reader.{read_back, located}
use debian_config_files.Dump.Buffer.{Screen, concat, max_screen}
use debian_config_files.Elf.File.{
  Shdr, Layout, Image, file_read, c_string, string_at, find_from, same_string, find_shstrtab,
  read_heads, init_read, section_dump_by_name,
}
use debian_config_files.Elf.File.Laws.{Finds, IsNamed, find_shstrtab-Finds}
use debian_config_files.Elf.File.Names.{HasString, Locates, find_shstrtab-Locates}
use debian_config_files.Elf.File.Read.{
  AreRead, IsReadable, section_dump_by_name-located, section_dump_by_name-missing,
  init_read-AreRead,
}
use debian_config_files.Elf.Symbols.{
  Sym, Entry, Line, printed, symbol_at, dump_symtab, data_dump, text_dump, bss_dump,
}
use debian_config_files.Elf.Symbols.Laws.{
  Shows, InMemory, members, drift, raw_symbol, data_dump-Shows, dump_symtab-drift,
}
use debian_config_files.Elf.Dynamic.{Dyn, Format, title_tail, entry_texts, dynamic_dump}
use debian_config_files.Elf.Dynamic.Laws.{entries, dynamic_dump-entries}
use debian_config_files.Elf.Summary.{Flags, dump_summary}
use debian_config_files.Elf.Summary.Laws.{dot_text, dump_summary-text}

-- A layout with a file header of 4 bytes and section headers of 3.
abbrev pub byte_at : List ℕ → ℕ → ℕ
byte_at [] i = 0
byte_at (b ∷ bytes) zero = b
byte_at (b ∷ bytes) (suc i) = byte_at bytes i

abbrev pub tiny : Layout
tiny = record {
  ehdr_size = 4;
  ehdr = λ b. record {
    e_shoff = byte_at b 0;
    e_shentsize = byte_at b 1;
    e_shnum = byte_at b 2;
    e_shstrndx = byte_at b 3;
  };
  shdr = λ b. record {
    sh_name = byte_at b 0;
    sh_offset = byte_at b 1;
    sh_size = byte_at b 2;
    sh_entsize = 1;
  };
}

-- The header, the two section headers, the names "" and "A", and three bytes of contents.
abbrev pub tiny_file : List ℕ
tiny_file = 4 ∷ 3 ∷ 2 ∷ 0 ∷ 0 ∷ 10 ∷ 3 ∷ 1 ∷ 13 ∷ 3 ∷ 0 ∷ 65 ∷ 0 ∷ 7 ∷ 8 ∷ 9 ∷ []

abbrev pub names_head : Shdr
names_head = record { sh_name = 0; sh_offset = 10; sh_size = 3; sh_entsize = 1 }

abbrev pub section_a : Shdr
section_a = record { sh_name = 1; sh_offset = 13; sh_size = 3; sh_entsize = 1 }

abbrev pub tiny_image : Image
tiny_image = record {
  header = record { e_shoff = 4; e_shentsize = 3; e_shnum = 2; e_shstrndx = 0 };
  shstrtab = 0 ∷ 65 ∷ 0 ∷ [];
  heads = names_head ∷ section_a ∷ [];
}

pub init_read-tiny : init_read tiny tiny_file ≡ some tiny_image
unfolding init_read read_heads file_read
init_read-tiny = refl

find_shstrtab-tiny : find_shstrtab tiny_image.heads tiny_image.shstrtab (65 ∷ []) ≡ some 1
unfolding find_shstrtab find_from string_at c_string same_string
find_shstrtab-tiny = refl

find_shstrtab-Locates_example :
    Locates tiny_image.heads tiny_image.shstrtab
      (65 ∷ [])
      (find_shstrtab tiny_image.heads tiny_image.shstrtab (65 ∷ []))
find_shstrtab-Locates_example =
    find_shstrtab-Locates tiny_image.heads tiny_image.shstrtab (65 ∷ []) ((λ e. cc), tt)
      (([], (65 ∷ 0 ∷ [], refl)), ((65 ∷ [], ([], refl)), tt))

section_dump_by_name-located_example :
    (out : List Piece) × (section_dump_by_name tiny tiny_file tiny_image (65 ∷ []) ≡ some out)
    × (read_back 0 0 out ≡ some (located 13 (7 ∷ 8 ∷ 9 ∷ [])))
section_dump_by_name-located_example =
    section_dump_by_name-located tiny tiny_file tiny_image (65 ∷ []) 1 section_a find_shstrtab-tiny
      refl (omega arith) (omega arith) (omega arith)

tiny_file-IsReadable :
    IsReadable tiny tiny_file (4 ∷ 3 ∷ 2 ∷ 0 ∷ []) (0 ∷ 10 ∷ 3 ∷ []) (0 ∷ 65 ∷ 0 ∷ [])
unfolding file_read
tiny_file-IsReadable = record {
  header = refl;
  names_header = refl;
  names = refl;
  few = omega arith;
  below = omega arith;
  held = omega arith;
}

init_read-AreRead_example :
    (heads : List Shdr) × (init_read tiny tiny_file
      ≡ some (record { header = tiny_image.header; shstrtab = 0 ∷ 65 ∷ 0 ∷ []; heads = heads }))
    × AreRead tiny tiny_file 4 3 2 heads
init_read-AreRead_example =
    init_read-AreRead tiny tiny_file (4 ∷ 3 ∷ 2 ∷ 0 ∷ []) (0 ∷ 10 ∷ 3 ∷ []) (0 ∷ 65 ∷ 0 ∷ [])
      tiny_file-IsReadable

-- Symbols of 2 bytes: a section and a value.
abbrev pub two_bytes : List ℕ → Sym
two_bytes b = record {
  st_name = 0;
  st_value = byte_at b 1;
  st_size = 1;
  st_info = 0x12;
  st_shndx = byte_at b 0;
}

abbrev symbols_head : Shdr
symbols_head = record { sh_name = 0; sh_offset = 100; sh_size = 6; sh_entsize = 2 }

abbrev symbol_bytes : List ℕ
symbol_bytes = 1 ∷ 50 ∷ 2 ∷ 60 ∷ 1 ∷ 70 ∷ []

in_memory : InMemory 2 two_bytes section_a (7 ∷ 8 ∷ 9 ∷ []) symbols_head symbol_bytes
in_memory = record {
  entries = refl;
  size = refl;
  sym_size = refl;
  size_int = omega arith;
  sym_size_int = omega arith;
  end = omega arith;
}

no_names : All (λ s. HasString (0 ∷ []) s.st_name) (members 2 two_bytes 1 symbol_bytes 0 3)
unfolding members symbol_at
no_names = (([], ([], refl)), (([], ([], refl)), tt))

data_dump-Shows_example :
    (out : List Line × List Piece) × (data_dump 2 two_bytes 1 section_a
        (7 ∷ 8 ∷ 9 ∷ [])
        symbols_head
        symbol_bytes
        (0 ∷ [])
      ≡ printed out)
    × (text_dump 2 two_bytes 1 section_a (7 ∷ 8 ∷ 9 ∷ []) symbols_head symbol_bytes (0 ∷ [])
        ≡ printed out)
    × (bss_dump 2 two_bytes 1 symbols_head symbol_bytes (0 ∷ []) ≡ printed out.0)
    × Shows 2 two_bytes 1 section_a (7 ∷ 8 ∷ 9 ∷ []) symbols_head symbol_bytes (0 ∷ []) out
data_dump-Shows_example =
    data_dump-Shows 2 two_bytes 1 section_a (7 ∷ 8 ∷ 9 ∷ []) symbols_head symbol_bytes (0 ∷ [])
      in_memory no_names

-- Conversions that print each value as one character.
abbrev pub short_format : Format
short_format = record {
  dyn_size = 2;
  dyn = λ b. record { d_tag = byte_at b 0; d_val = byte_at b 1 };
  dt_num = 38;
  decimal = λ n. n ∷ [];
  chars = λ s. 83 ∷ [];
  hex8 = λ n. n ∷ [];
}

abbrev pub any_screen : Screen
any_screen = record { chars = 120 ∷ []; index = 1 }

short_texts :
    (k : ℕ) (d : Dyn)
    → length (b'D' ∷ title_tail short_format k) + length (concat (entry_texts short_format d))
      < max_screen
unfolding title_tail entry_texts
short_texts k d = omega arith

dynamic_dump-entries_example :
    dynamic_dump short_format symbols_head symbol_bytes any_screen
    ≡ some (entries short_format 100 symbol_bytes 0 (6 / 2))
dynamic_dump-entries_example =
    dynamic_dump-entries short_format symbols_head symbol_bytes any_screen short_texts

abbrev all_but_text : Flags
all_but_text = record {
  dump_strtab = true;
  dump_symtab = true;
  dump_comment = true;
  dump_rodata = true;
  dump_data = true;
  dump_bss = true;
  dump_text = false;
}

abbrev text_names : List ℕ
text_names = 0 ∷ 46 ∷ 116 ∷ 101 ∷ 120 ∷ 116 ∷ 0 ∷ []

string_at-text_names : string_at text_names 1 ≡ dot_text
unfolding string_at c_string
string_at-text_names = refl
