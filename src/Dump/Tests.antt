-- ===== src/Dump/Tests.antt =====
-- The theorems on perftools/linux/elf/binary_dump.c at work on a few bytes.
use debian_config_files.Base.{ℕ, ◌≡◌, some, List, [], ◌∷◌, arith}
use debian_config_files.Dump.Hex.{binary_dump}
use debian_config_files.Dump.Reader.{read_back, located, binary_dump-located}
use debian_config_files.Dump.Lines.{binary_dump_with_string}
use debian_config_files.Dump.Lines.Laws.{lines, texts, texts-binary_dump_with_string}
use debian_config_files.Dump.Buffer.{Screen}

-- Bytes that cross the end of a row.
abbrev some_bytes : List ℕ
some_bytes = 1 ∷ 2 ∷ 3 ∷ 4 ∷ 5 ∷ []

binary_dump-located_example :
    read_back 0 0 (binary_dump 13 (some some_bytes)) ≡ some (located 13 some_bytes)
binary_dump-located_example = binary_dump-located 13 some_bytes (omega arith)

-- "a\nb\nc"
abbrev three_lines : List ℕ
three_lines = 97 ∷ 10 ∷ 98 ∷ 10 ∷ 99 ∷ []

texts-binary_dump_with_string_example :
    texts (binary_dump_with_string 13 (some (1 ∷ 2 ∷ 3 ∷ 4 ∷ [])) three_lines) ≡ lines three_lines
texts-binary_dump_with_string_example =
    texts-binary_dump_with_string 13 1 (2 ∷ 3 ∷ 4 ∷ []) three_lines

abbrev used : Screen
used = record { chars = 120 ∷ 121 ∷ []; index = 2 }
