-- ===== src/Elf/Liner/Laws.antt =====
-- What `elf_liner_dump` of perftools/linux/elf/elf.c shows.
use debian_config_files.Base.{
  ℕ, zero, suc, ◌+◌, ◌*◌, ◌%◌, ◌^◌, ◌≤◌, ◌<◌, ◌≡◌, ◌≢◌, refl, ap, Bool, true, false, Option, some,
  List, [], ◌∷◌, ◌++◌, All, if◌then◌else◌, length, length-append, ◌∙◌, take, drop, take-drop-take,
  drop-drop, arith,
}
use mathlib.Core.List.{append-nil}
use native.Mathlib.Nat.{mul-le-mul_left}
use debian_config_files.Dump.Hex.{Piece}
use debian_config_files.Dump.Lines.{binary_dump_with_string}
use debian_config_files.Dump.Buffer.{Screen, concat, max_screen, bin_buffer_reset-print_all}
use debian_config_files.Elf.File.{Ehdr, Shdr, Layout, Image, file_read, string_at, init_read}
use debian_config_files.Elf.File.Names.{HasString}
use debian_config_files.Elf.Liner.{
  Fields, Phdr, Prints, Switches, dump_texts, type_text, header_texts, header_dump, phdr_at,
  phdr_bytes, phdr_texts, phdr_loop, ph_dump2, section_loop, header_part, phdr_part, liner_dump,
}

-- Texts that fit the buffer are shown as they are, whatever was in it.
dump_texts-concat :
    (offset : ℕ) (raw : Option (List ℕ)) (t : List ℕ) (texts : List (List ℕ)) (s : Screen)
    → t ≢ []
    → length (concat (t ∷ texts)) < max_screen
    → (s' : Screen) × (dump_texts offset raw (t ∷ texts) s
        ≡ some (binary_dump_with_string offset raw (concat (t ∷ texts)), s'))
unfolding dump_texts
dump_texts-concat offset raw t texts s n w =
    let (s', e, h) = bin_buffer_reset-print_all s t texts n w in (s', rw (e, dump_texts, h) refl)

ended_line : (t : List ℕ) → t ++ (10 ∷ []) ≢ []
ended_line [] e = absurd (ground arith)
ended_line (c ∷ t) e = absurd (ground arith)

dump_texts-name :
    (offset : ℕ) (raw : Option (List ℕ)) (name : List ℕ) (s : Screen)
    → length name + 1 < max_screen
    → (s' : Screen) × (dump_texts offset raw ((name ++ (10 ∷ [])) ∷ []) s
        ≡ some (binary_dump_with_string offset raw (name ++ (10 ∷ [])), s'))
dump_texts-name offset raw name s w =
    let same : concat ((name ++ (10 ∷ [])) ∷ []) ≡ name ++ (10 ∷ []) =
      append-nil (name ++ (10 ∷ [])) in
    let (s', e) =
      dump_texts-concat offset raw (name ++ (10 ∷ [])) [] s (ended_line name)
        (rw same (omega (arith, length-append {0} name (10 ∷ [])))) in
    (s', e ∙ ap (λ t. some (binary_dump_with_string offset raw t, s')) same)

module _ (prints : Prints) where
  -- The dumps that the loop makes of `n` program headers from `i` on.
  abbrev pub phdr_dumps : List ℕ → ℕ → ℕ → ℕ → ℕ → List (List Piece)
  phdr_dumps buf offset size i zero = []
  phdr_dumps buf offset size i (suc n) =
      binary_dump_with_string ((offset + size * i) % 2 ^ 32) (some (phdr_bytes prints buf size i))
        (concat (phdr_texts prints (phdr_at prints buf i)))
      ∷ phdr_dumps buf offset size (i + 1) n

  abbrev pub phdr_table : List ℕ → Fields → List (List Piece)
  phdr_table buf f = phdr_dumps buf f.e_phoff f.e_phentsize 0 f.e_phnum

  phdr_dump-texts :
      (offset : ℕ) (raw : Option (List ℕ)) (p : Phdr) (s : Screen)
      → length (concat (phdr_texts prints p)) < max_screen
      → (s' : Screen) × (dump_texts offset raw (phdr_texts prints p) s
          ≡ some (binary_dump_with_string offset raw (concat (phdr_texts prints p)), s'))
  unfolding phdr_texts
  phdr_dump-texts offset raw p s w = dump_texts-concat offset raw _ _ s (ended_line _) w

  phdr_loop-dumps :
      (buf : List ℕ) (offset size i n : ℕ) (s : Screen)
      → ((p : Phdr) → length (concat (phdr_texts prints p)) < max_screen)
      → (s' : Screen) × (phdr_loop prints buf offset size i n s
          ≡ some (phdr_dumps buf offset size i n, s'))
  unfolding phdr_loop
  phdr_loop-dumps buf offset size i zero s short = (s, refl)
  phdr_loop-dumps buf offset size i (suc n) s short =
      let (s₁, e₁) =
        phdr_dump-texts ((offset + size * i) % 2 ^ 32) (some (phdr_bytes prints buf size i))
          (phdr_at prints buf i) s (short (phdr_at prints buf i)) in
      let (s₂, e₂) = phdr_loop-dumps buf offset size (i + 1) n s₁ short in
      (s₂, rw (e₁, phdr_loop, e₂) refl)

  type_text-some : (n : ℕ) → type_text prints n ≢ []
  unfolding type_text
  type_text-some n e = absurd (ground arith)

  -- What the dump of the header shows.
  abbrev pub header_shown : List ℕ → Ehdr → List Piece
  header_shown raw h =
      let f = prints.fields raw in
      binary_dump_with_string 0 (some raw)
        (concat (type_text prints f.e_type ∷ header_texts prints h f))

  module _ (layout : Layout) (file : List ℕ) where
    -- The dumps of sections, each at its place in the file and with its name.
    abbrev pub section_dumps : List ℕ → List Shdr → List (List Piece)
    section_dumps shstrtab [] = []
    section_dumps shstrtab (h ∷ heads) =
        binary_dump_with_string h.sh_offset (file_read file h.sh_offset h.sh_size)
          (string_at shstrtab h.sh_name ++ (10 ∷ []))
        ∷ section_dumps shstrtab heads

    section_loop-dumps :
        (shstrtab : List ℕ) (heads : List Shdr) (s : Screen)
        → All (λ h. length (string_at shstrtab h.sh_name) + 1 < max_screen) heads
        → (s' : Screen) × (section_loop prints layout file shstrtab heads s
            ≡ some (section_dumps shstrtab heads, s'))
    unfolding section_loop
    section_loop-dumps shstrtab [] s short = (s, refl)
    section_loop-dumps shstrtab (h ∷ heads) s short =
        let name = string_at shstrtab h.sh_name in
        let (s₁, e₁) =
          dump_texts-name h.sh_offset (file_read file h.sh_offset h.sh_size) name s short.0 in
        let (s₂, e₂) = section_loop-dumps shstrtab heads s₁ short.1 in
        (s₂, rw (e₁, section_loop, e₂) refl)

    header_part-shown :
        (dumped : Bool) (image : Image) (s : Screen)
        → ((h : Ehdr) (f : Fields)
            → length (concat (type_text prints f.e_type ∷ header_texts prints h f)) < max_screen)
        → (s' : Screen) × (header_part prints layout file dumped image s
            ≡ some (
              (if dumped then header_shown (take layout.ehdr_size file) image.header else []),
              s',
            ))
    unfolding header_part header_dump
    header_part-shown true image s short =
        let f = prints.fields (take layout.ehdr_size file) in
        dump_texts-concat 0 (some (take layout.ehdr_size file)) (type_text prints f.e_type)
          (header_texts prints image.header f) s (type_text-some f.e_type) (short image.header f)
    header_part-shown false image s short = (s, refl)

    phdr_part-dumps :
        (dumped : Bool) (buf : List ℕ) (s : Screen)
        → file_read file (prints.fields (take layout.ehdr_size file)).e_phoff (
            (prints.fields (take layout.ehdr_size file)).e_phentsize
            * (prints.fields (take layout.ehdr_size file)).e_phnum)
          ≡ some buf
        → ((p : Phdr) → length (concat (phdr_texts prints p)) < max_screen)
        → (s' : Screen) × (phdr_part prints layout file dumped s
            ≡ some (
              (if dumped then phdr_table buf (prints.fields (take layout.ehdr_size file)) else []),
              s',
            ))
    unfolding phdr_part ph_dump2
    phdr_part-dumps true buf s e short =
        let f = prints.fields (take layout.ehdr_size file) in
        let (s', q) = phdr_loop-dumps buf f.e_phoff f.e_phentsize 0 f.e_phnum s short in
        (s', ap (λ b. ph_dump2 prints b f s) e ∙ q)
    phdr_part-dumps false buf s e short = (s, refl)

    -- The bytes of the file at a place, and their dump beside their place and texts.
    abbrev pub part : ℕ → ℕ → List ℕ
    part a size = take size (drop a file)

    -- The program headers from the `i`-th on, `n` of them, each with its bytes in the file at its
    -- place in the file, and with its texts.
    abbrev pub phdrs_in_file : ℕ → ℕ → ℕ → List (List Piece)
    phdrs_in_file offset i zero = []
    phdrs_in_file offset i (suc n) =
        let here = part (offset + i * prints.phdr_size) prints.phdr_size in
        binary_dump_with_string (offset + i * prints.phdr_size) (some here)
          (concat (phdr_texts prints (prints.phdr here)))
        ∷ phdrs_in_file offset (i + 1) n

    phdr_dumps-in_file :
        (offset num : ℕ) (buf : List ℕ)
        → buf ≡ part offset (prints.phdr_size * num)
        → offset + prints.phdr_size * num < 2 ^ 32
        → (i n : ℕ) → i + n ≤ num
        → phdr_dumps buf offset prints.phdr_size i n ≡ phdrs_in_file offset i n
    unfolding phdr_bytes phdr_at
    phdr_dumps-in_file offset num buf e w i zero le = refl
    phdr_dumps-in_file offset num buf e w i (suc n) le =
        let s = prints.phdr_size in
        let before = mul-le-mul_left {m = suc i} {n = num} s (omega arith) in
        let place : (offset + s * i) % 2 ^ 32 ≡ offset + i * s = omega arith in
        let here : take s (drop (i * s) buf) ≡ part (offset + i * s) s =
          ap (λ b. take s (drop (i * s) b)) e
          ∙ take-drop-take s (i * s) (s * num) (drop offset file) (omega arith)
          ∙ ap (take s) (drop-drop offset (i * s) file) in
        rw
          (
            place,
            phdr_bytes,
            phdr_at,
            here,
            phdr_dumps-in_file offset num buf e w (i + 1) n (omega arith),
          )
          refl

    file_read-part :
        (offset size : ℕ) {buf : List ℕ}
        → file_read file offset size ≡ some buf
        → (buf ≡ part offset size) × (offset + size < 2 ^ 32)
    unfolding file_read
    file_read-part offset size {buf} e = ground arith

    -- If the texts fit the buffer, the names of the sections stand in their table, the program headers
    -- can be read and their size in the file is that of the structure, `elf_liner_dump` shows, as its switches say, the header with its texts and
    -- each program header, in order, its bytes in the file beside their place in the file and its
    -- texts; and then, whatever the buffer held, each section but the first, in order, its bytes
    -- beside their place in the file and its name, or nothing where a section is empty or cannot be
    -- read.
    pub liner_dump-sections :
        (switches : Switches) (image : Image) (buf : List ℕ) (s : Screen)
        → init_read layout file ≡ some image
        → file_read file (prints.fields (take layout.ehdr_size file)).e_phoff (
            (prints.fields (take layout.ehdr_size file)).e_phentsize
            * (prints.fields (take layout.ehdr_size file)).e_phnum)
          ≡ some buf
        → (prints.fields (take layout.ehdr_size file)).e_phentsize ≡ prints.phdr_size
        → ((h : Ehdr) (f : Fields)
            → length (concat (type_text prints f.e_type ∷ header_texts prints h f)) < max_screen)
        → ((p : Phdr) → length (concat (phdr_texts prints p)) < max_screen)
        → All (λ h. HasString image.shstrtab h.sh_name) (drop 1 image.heads)
        → All
            (λ h. length (string_at image.shstrtab h.sh_name) + 1 < max_screen)
            (drop 1 image.heads)
        → liner_dump prints layout file switches s
          ≡ some (
            (if switches.dump_header
                then header_shown (take layout.ehdr_size file) image.header
                else []),
            (if switches.dump_pheader
                then phdrs_in_file
                    (prints.fields (take layout.ehdr_size file)).e_phoff
                    0
                    (prints.fields (take layout.ehdr_size file)).e_phnum
                else []),
            section_dumps image.shstrtab (drop 1 image.heads),
          )
    unfolding liner_dump
    liner_dump-sections switches image buf s i e z short_header short_phdr in_table short_names =
        let f = prints.fields (take layout.ehdr_size file) in
        let (s₁, h) = header_part-shown switches.dump_header image s short_header in
        let (s₂, p) = phdr_part-dumps switches.dump_pheader buf s₁ e short_phdr in
        let (s₃, q) = section_loop-dumps image.shstrtab (drop 1 image.heads) s₂ short_names in
        let (b, w) = file_read-part f.e_phoff (prints.phdr_size * f.e_phnum) (rw z at e) in
        let table : phdr_table buf f ≡ phdrs_in_file f.e_phoff 0 f.e_phnum =
          ap (λ x. phdr_dumps buf f.e_phoff x 0 f.e_phnum) z
          ∙ phdr_dumps-in_file f.e_phoff f.e_phnum buf b w 0 f.e_phnum (omega arith) in
        rw (i, liner_dump, h, p, q, table) refl
