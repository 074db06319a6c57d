-- ===== src/Elf/File/Read.antt =====
-- The bytes that perftools/linux/elf/elf.c reads and dumps.
use debian_config_files.Base.{
  ℕ, zero, suc, ◌+◌, ◌*◌, ◌%◌, ◌≤◌, ◌<◌, ◌^◌, ltb, false, ◌≡◌, refl, some_inj, ap, sym, ◌∙◌, subst,
  Option, none, some, List, [], ◌∷◌, length, get_elem?, take, drop, length-take, length-drop, arith,
  Option-cases, inl, inr,
}
use debian_config_files.Dump.Hex.{Piece, binary_dump}
use debian_config_files.Dump.Reader.{read_back, located, binary_dump-located}
use debian_config_files.Elf.File.{
  Shdr, Layout, file_read, find_shstrtab, Image, read_heads, init_read, section_dump_by_name,
}
use debian_config_files.Elf.File.Laws.{IsNamed, Finds, found, missing, find_shstrtab-Finds}

length-take-drop :
    (size offset : ℕ) (file : List ℕ)
    → offset + size ≤ length file
    → length (take size (drop offset file)) ≡ size
length-take-drop size offset file h =
    length-take size (drop offset file) (omega (arith, length-drop offset file))

module _ (layout : Layout) (file : List ℕ) where
  -- A section that is there, and that the file holds, is shown with each of its bytes at its
  -- address in the file.
  pub section_dump_by_name-located :
      (image : Image) (name : List ℕ) (i : ℕ) (h : Shdr)
      → find_shstrtab image.heads image.shstrtab name ≡ some i
      → get_elem? image.heads i ≡ some h
      → h.sh_offset < 2 ^ 31
      → h.sh_size < 2 ^ 31
      → h.sh_offset + h.sh_size ≤ length file
      → (out : List Piece) × (section_dump_by_name layout file image name ≡ some out)
        × (read_back 0 0 out ≡ some (located h.sh_offset (take h.sh_size (drop h.sh_offset file))))
  unfolding section_dump_by_name file_read
  section_dump_by_name-located image name i h f g lo ls fits =
      let bytes : List ℕ = take h.sh_size (drop h.sh_offset file) in
      let n = length-take-drop h.sh_size h.sh_offset file fits in
      (
        binary_dump h.sh_offset (some bytes),
        ground arith,
        binary_dump-located h.sh_offset bytes (omega arith),
      )

  -- Without a section of that name, the header at index -1 is read.
  pub section_dump_by_name-missing :
      (image : Image) (name : List ℕ)
      → ((j : ℕ) → ¬ IsNamed image.heads image.shstrtab name j)
      → section_dump_by_name layout file image name ≡ none
  unfolding section_dump_by_name
  section_dump_by_name-missing image name no_one =
      go (find_shstrtab image.heads image.shstrtab name) refl
        (find_shstrtab-Finds image.heads image.shstrtab name)
    where
      go :
          (out : Option ℕ)
          → find_shstrtab image.heads image.shstrtab name ≡ out
          → Finds image.heads image.shstrtab name 0 out
          → section_dump_by_name layout file image name ≡ none
      go out e (found k is before z) = absurd (no_one k is)
      go out e (missing never z) = ground arith

  -- The section header `i` of a table is decoded from the bytes at its place in the file.
  abbrev pub IsReadAt : ℕ → ℕ → ℕ → Shdr → Type 0
  IsReadAt offset size i h =
      (b : List ℕ) × (file_read file (offset + i * size) size ≡ some b) × (h ≡ layout.shdr b)

  abbrev pub AreRead : ℕ → ℕ → ℕ → List Shdr → Type 0
  AreRead offset size n heads =
      (length heads ≡ n)
      × ((i : ℕ) (h : Shdr) → get_elem? heads i ≡ some h → IsReadAt offset size i h)

  AreRead-nil : (offset size : ℕ) → AreRead offset size 0 []
  AreRead-nil offset size = (refl, λ i h g. absurd (ground arith))

  AreRead-cons :
      (offset size n : ℕ) (b : List ℕ) (heads : List Shdr)
      → file_read file offset size ≡ some b
      → AreRead (offset + size) size n heads
      → AreRead offset size (suc n) (layout.shdr b ∷ heads)
  AreRead-cons offset size n b heads k rest = (ap suc rest.0, each)
    where
      each :
          (i : ℕ) (h : Shdr)
          → get_elem? (layout.shdr b ∷ heads) i ≡ some h
          → IsReadAt offset size i h
      each zero h g =
          let z : offset + 0 * size ≡ offset = omega arith in (b, rw z k, sym (some_inj g))
      each (suc i) h g =
          let z : offset + suc i * size ≡ offset + size + i * size = omega arith in
          let (b', f, q) = rest.1 i h g in (b', rw z f, q)

  read_heads-AreRead :
      (n offset size : ℕ) {heads : List Shdr}
      → offset + n * size < 2 ^ 32
      → read_heads layout file n offset size ≡ some heads
      → AreRead offset size n heads
  unfolding read_heads
  read_heads-AreRead zero offset size {heads} w e =
      subst (AreRead offset size 0) (some_inj e) (AreRead-nil offset size)
  read_heads-AreRead (suc n) offset size {heads} w e =
      elim (Option-cases (file_read file offset size)) [
        | inl fault ↦ absurd (ground arith)
        | inr (b, k) ↦
            let next : (offset + size) % 2 ^ 32 ≡ offset + size = omega arith in
            elim (Option-cases (read_heads layout file n ((offset + size) % 2 ^ 32) size)) [
              | inl fault ↦ absurd (ground arith)
              | inr (tail, l) ↦
                  let z : layout.shdr b ∷ tail ≡ heads = ground arith in
                  let rest =
                    read_heads-AreRead n (offset + size) size (omega arith) (rw next at l) in
                  subst (AreRead offset size (suc n)) z (AreRead-cons offset size n b tail k rest)
            ]
      ]

  -- A table that the file holds is read.
  read_heads-some :
      (n offset size : ℕ)
      → offset + n * size < 2 ^ 31
      → offset + n * size ≤ length file
      → (heads : List Shdr) × (read_heads layout file n offset size ≡ some heads)
  unfolding read_heads file_read
  read_heads-some zero offset size w fits = ([], refl)
  read_heads-some (suc n) offset size w fits =
      let next : (offset + size) % 2 ^ 32 ≡ offset + size = omega arith in
      let (heads, e) = read_heads-some n (offset + size) size (omega arith) (omega arith) in
      let k : file_read file offset size ≡ some (take size (drop offset file)) = ground arith in
      let e' : read_heads layout file n ((offset + size) % 2 ^ 32) size ≡ some heads =
        ap (λ a. read_heads layout file n a size) next ∙ e in
      (layout.shdr (take size (drop offset file)) ∷ heads, rw (k, read_heads, e') refl)

  -- What `elf_init_read` can read: the file header in `b`, the header of the section of names in `s`,
  -- and the names; and a table of at most 100 section headers that the file holds, below 2 GB.
  pub record IsReadable (b s strtab : List ℕ) : Type 0 where
    pub header : file_read file 0 layout.ehdr_size ≡ some b
    pub names_header :
        file_read file
          (((layout.ehdr b).e_shoff + (layout.ehdr b).e_shstrndx * (layout.ehdr b).e_shentsize)
            % 2 ^ 32)
          (layout.ehdr b).e_shentsize
        ≡ some s
    pub names : file_read file (layout.shdr s).sh_offset (layout.shdr s).sh_size ≡ some strtab
    pub few : (layout.ehdr b).e_shnum ≤ 100
    pub below :
        (layout.ehdr b).e_shoff + (layout.ehdr b).e_shnum * (layout.ehdr b).e_shentsize < 2 ^ 31
    pub held :
        (layout.ehdr b).e_shoff + (layout.ehdr b).e_shnum * (layout.ehdr b).e_shentsize
        ≤ length file

  -- Where the header, the names and a table of at most 100 section headers can be read,
  -- `elf_init_read` reads no null pointer and writes in its table. It leaves the file header, the
  -- names and as many section headers as the file header says, each from its place in the file.
  pub init_read-AreRead :
      (b s strtab : List ℕ)
      → IsReadable b s strtab
      → (heads : List Shdr) × (init_read layout file
          ≡ some (record { header = layout.ehdr b; shstrtab = strtab; heads = heads }))
        × AreRead (layout.ehdr b).e_shoff (layout.ehdr b).e_shentsize (layout.ehdr b).e_shnum heads
  unfolding init_read
  init_read-AreRead b s strtab r =
      let h = layout.ehdr b in
      let (heads, e) = read_heads-some h.e_shnum h.e_shoff h.e_shentsize r.below r.held in
      let few : ltb 100 h.e_shnum ≡ false = ground (arith, r.few) in
      (
        heads,
        rw (r.header, init_read, r.names_header, r.names, few, e) refl,
        read_heads-AreRead h.e_shnum h.e_shoff h.e_shentsize (omega (arith, r.below)) e,
      )
