-- ===== src/Elf/Symbols/Laws.antt =====
-- What the symbol dumps of perftools/linux/elf/elf.c show.
use debian_config_files.Base.{
  ℕ, zero, suc, ◌+◌, ◌*◌, ◌/◌, ◌%◌, ◌^◌, ◌<◌, ◌≡◌, ◌≢◌, refl, ap, sym, true, false, some, some_inj,
  List, [], ◌∷◌, All, ◌∙◌, take-all, ◌==◌, if◌then◌else◌, length, get_elem?, take, drop, arith,
  Bool-cases, inl, inr,
}
use debian_config_files.Dump.Hex.{Piece, binary_dump}
use debian_config_files.Dump.Reader.{read_back, located, binary_dump-located}
use debian_config_files.Elf.File.{Shdr}
use debian_config_files.Elf.File.Names.{Stands, HasString, string_at-Stands}
use debian_config_files.Elf.Symbols.{
  Sym, sym_bind_of, sym_type_of, sym_bind, sym_type, printed, Entry, Line, symbol_at, symtab_loop,
  dump_symtab, lines_loop, bss_dump, data_dump, text_dump,
}

module _ (sizeof_sym : ℕ) (decode : List ℕ → Sym) where
  -- The bytes of the symbol `i`.
  abbrev pub raw_symbol : List ℕ → ℕ → List ℕ
  raw_symbol buf i = take sizeof_sym (drop (i * sizeof_sym) buf)

  -- The lines for a section from `i` on, described without the loop's counters: the symbols of
  -- the section, in their order.
  unfoldable pub members : ℕ → List ℕ → ℕ → ℕ → List Sym
  members section buf i zero = []
  members section buf i (suc n) =
      let rest = members section buf (i + 1) n in
      if (symbol_at sizeof_sym decode buf i).st_shndx == section
      then symbol_at sizeof_sym decode buf i ∷ rest
      else rest

  -- A line as it should be for a symbol: its number, the symbol, the words for the low and the high
  -- half of `st_info`, and the string that stands at `st_name`.
  pub record IsLine (strtab : List ℕ) (j : ℕ) (s : Sym) (l : Line) : Type 0 where
    pub number : l.number ≡ j
    pub symbol : l.symbol ≡ s
    pub type_name : l.type_name ≡ sym_type (s.st_info % 16)
    pub bind_name : l.bind_name ≡ sym_bind (s.st_info / 16 % 16)
    pub name : Stands strtab s.st_name l.name

  -- A line for each symbol, numbered from `j` on.
  abbrev pub AreLines : List ℕ → ℕ → List Sym → List Line → Type 0
  AreLines strtab j [] [] = Unit
  AreLines strtab j [] (l ∷ lines) = ⊥
  AreLines strtab j (s ∷ syms) [] = ⊥
  AreLines strtab j (s ∷ syms) (l ∷ lines) =
      IsLine strtab j s l × AreLines strtab (j + 1) syms lines

  lines_loop-AreLines :
      (section : ℕ) (buf strtab : List ℕ) (j i n : ℕ)
      → All (λ s. HasString strtab s.st_name) (members section buf i n)
      → AreLines strtab j
          (members section buf i n)
          (lines_loop sizeof_sym decode section buf strtab j i n)
  unfolding lines_loop members sym_type_of sym_bind_of
  lines_loop-AreLines section buf strtab j i zero z = tt
  lines_loop-AreLines section buf strtab j i (suc n) z =
      let s = symbol_at sizeof_sym decode buf i in
      elim (Bool-cases (s.st_shndx == section)) [
        | inl it ↦
            let z' : All (λ s. HasString strtab s.st_name) (s ∷ members section buf (i + 1) n) =
              rw it at z in
            let bind : s.st_info % 256 / 16 ≡ s.st_info / 16 % 16 = omega arith in
            rw it (
              record {
                number = refl;
                symbol = refl;
                type_name = refl;
                bind_name = ap sym_bind bind;
                name = string_at-Stands strtab s.st_name z'.0;
              },
              lines_loop-AreLines section buf strtab (j + 1) (i + 1) n z'.1,
            )
        | inr other ↦ rw other (lines_loop-AreLines section buf strtab j (i + 1) n (rw other at z))
      ]

  -- What `elf_data_dump` and `elf_text_dump` show: a line for each symbol of the section, numbered
  -- from 0, and each byte of the section at its address.
  pub record Shows (section : ℕ) (head : Shdr) (content : List ℕ) (sym_head : Shdr)
      (buf strtab : List ℕ) (out : List Line × List Piece) : Type 0 where
    pub symbols : AreLines strtab 0 (members section buf 0 (sym_head.sh_size / sizeof_sym)) out.0
    pub bytes : read_back 0 0 out.1 ≡ some (located head.sh_offset content)

  -- The bytes of the two sections are in memory, and their sizes are those of `int`.
  pub record InMemory (head : Shdr) (content : List ℕ) (sym_head : Shdr) (buf : List ℕ)
      : Type 0 where
    pub entries : sym_head.sh_entsize ≡ sizeof_sym
    pub size : length content ≡ head.sh_size
    pub sym_size : length buf ≡ sym_head.sh_size
    pub size_int : head.sh_size < 2 ^ 31
    pub sym_size_int : sym_head.sh_size < 2 ^ 31
    pub end : head.sh_offset + head.sh_size < 2 ^ 32

  -- With symbols of the right size, both sections in memory and smaller than 2 GB, a section that
  -- ends below 4 GB, and names that stand in the table of names, `elf_data_dump` and `elf_text_dump`
  -- show a line for each symbol of the section, in order and numbered from 0, with the words for its
  -- type and binding and with its name, and each byte of the section at its address; `elf_bss_dump`
  -- shows the same lines.
  pub data_dump-Shows :
      (section : ℕ) (head : Shdr) (content : List ℕ) (sym_head : Shdr) (buf strtab : List ℕ)
      → InMemory head content sym_head buf
      → All
          (λ s. HasString strtab s.st_name)
          (members section buf 0 (sym_head.sh_size / sizeof_sym))
      → (out : List Line × List Piece) × (data_dump sizeof_sym decode section head content sym_head
            buf strtab
          ≡ printed out)
        × (text_dump sizeof_sym decode section head content sym_head buf strtab ≡ printed out)
        × (bss_dump sizeof_sym decode section sym_head buf strtab ≡ printed out.0)
        × Shows section head content sym_head buf strtab out
  unfolding data_dump text_dump bss_dump
  data_dump-Shows section head content sym_head buf strtab m z =
      let e = m.entries in
      let whole : take head.sh_size content ≡ content = take-all head.sh_size content m.size in
      let end : head.sh_offset + length (take head.sh_size content) < 2 ^ 32 =
        rw whole (omega (arith, m.end, m.size)) in
      (
        (
          lines_loop sizeof_sym decode section buf strtab 0 0 (sym_head.sh_size / sizeof_sym),
          binary_dump head.sh_offset (some (take head.sh_size content)),
        ),
        ground arith,
        ground arith,
        ground arith,
        record {
          symbols = lines_loop-AreLines section buf strtab 0 0 (sym_head.sh_size / sizeof_sym) z;
          bytes =
              binary_dump-located head.sh_offset _ end
              ∙ ap (λ b. some (located head.sh_offset b)) whole;
        },
      )

  -- What `elf_dump_symtab` adds to its offset from the symbol `i` to the one `k` further on.
  abbrev pub drift : ℕ → ℕ → ℕ
  drift i zero = i * sizeof_sym
  drift i (suc k) = i * sizeof_sym + drift (i + 1) k

  symtab_loop-drift :
      (buf strtab : List ℕ) (k : ℕ) (offset i n : ℕ) (e : Entry)
      → get_elem? (symtab_loop sizeof_sym decode buf strtab offset i n) k ≡ some e
      → offset + drift i k + length (raw_symbol buf (i + k)) < 2 ^ 32
      → (e.symbol ≡ symbol_at sizeof_sym decode buf (i + k))
        × (read_back 0 0 e.raw ≡ some (located (offset + drift i k) (raw_symbol buf (i + k))))
  unfolding symtab_loop
  symtab_loop-drift buf strtab k offset i zero e g w = absurd (ground arith)
  symtab_loop-drift buf strtab zero offset i (suc n) e g w =
      let z : i + 0 ≡ i = omega arith in
      let m : (offset + i * sizeof_sym) % 2 ^ 32 ≡ offset + i * sizeof_sym = omega arith in
      let x = ap Entry.symbol (sym (some_inj g)) in
      let y = ap Entry.raw (sym (some_inj g)) in
      rw (z, x, y, m) (refl, binary_dump-located _ _ (rw z at w))
  symtab_loop-drift buf strtab (suc k) offset i (suc n) e g w =
      let z : i + suc k ≡ i + 1 + k = omega arith in
      let m : (offset + i * sizeof_sym) % 2 ^ 32 ≡ offset + i * sizeof_sym = omega arith in
      let r =
        symtab_loop-drift buf strtab k (offset + i * sizeof_sym) (i + 1) n e (rw m at g)
          (omega (arith, rw z at w)) in
      let o : offset + drift i (suc k) ≡ offset + i * sizeof_sym + drift (i + 1) k = omega arith in
      rw (z, o) r

  -- A symbol table of symbols of the right size and without a rest is shown, and in it the symbol
  -- `k` with its own bytes; but the addresses beside them start `0 + 1 + … + k` symbols behind the
  -- start of the table, and not `k`, if that is below 4 GB.
  pub dump_symtab-drift :
      (head : Shdr) (buf strtab : List ℕ)
      → head.sh_entsize ≡ sizeof_sym
      → sizeof_sym ≢ 0
      → head.sh_size % head.sh_entsize ≡ 0
      → (out : List Entry) × (dump_symtab sizeof_sym decode head buf strtab ≡ printed out)
        × ((k : ℕ) (e : Entry)
            → get_elem? out k ≡ some e
            → head.sh_offset + drift 0 k + length (raw_symbol buf k) < 2 ^ 32
            → (e.symbol ≡ symbol_at sizeof_sym decode buf k)
              × (read_back 0 0 e.raw
                  ≡ some (located (head.sh_offset + drift 0 k) (raw_symbol buf k))))
  unfolding dump_symtab
  dump_symtab-drift head buf strtab e nz whole =
      let fst : head.sh_entsize == 0 ≡ false = ground arith in
      let snd : head.sh_entsize == sizeof_sym ≡ true = ground arith in
      let thd : head.sh_size % head.sh_entsize == 0 ≡ true = ground arith in
      (
        symtab_loop sizeof_sym decode buf strtab head.sh_offset 0 (head.sh_size / head.sh_entsize),
        rw (fst, snd, thd) refl,
        λ k.
            let z : 0 + k ≡ k = omega arith in
            rw z at
              (symtab_loop-drift buf strtab k head.sh_offset 0 (head.sh_size / head.sh_entsize)),
      )
