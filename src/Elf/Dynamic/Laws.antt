-- ===== src/Elf/Dynamic/Laws.antt =====
-- What `elf_dynamic_dump` of perftools/linux/elf/elf.c shows.
use debian_config_files.Base.{
  ℕ, zero, suc, ◌+◌, ◌*◌, ◌/◌, ◌%◌, ◌^◌, ◌<◌, ◌≡◌, refl, some, List, [], ◌∷◌, ◌++◌, length,
}
use debian_config_files.Dump.Hex.{Piece}
use debian_config_files.Dump.Lines.{binary_dump_with_string}
use debian_config_files.Dump.Buffer.{Screen, bin_buffer, concat, max_screen, bin_buffer-print_all}
use debian_config_files.Elf.File.{Shdr}
use debian_config_files.Elf.Dynamic.{
  Dyn, Format, raw_entry, title_tail, entry_texts, print_entry, dynamic_loop, dynamic_dump,
}

module _ (format : Format) where
  -- The text of an entry, described without the buffer.
  abbrev pub entry_text : ℕ → Dyn → List ℕ
  entry_text i d = (b'D' ∷ title_tail format i) ++ concat (entry_texts format d)

  -- The dumps of `n` entries from `i` on, each at its own place in the file and with its own text.
  abbrev pub entries : ℕ → List ℕ → ℕ → ℕ → List (List Piece)
  entries sh_offset buf i zero = []
  entries sh_offset buf i (suc n) =
      binary_dump_with_string ((sh_offset + i * format.dyn_size) % 2 ^ 32)
        (some (raw_entry format buf i)) (entry_text i (format.dyn (raw_entry format buf i)))
      ∷ entries sh_offset buf (i + 1) n

  print_entry-bin_buffer :
      (i : ℕ) (d : Dyn) (s : Screen)
      → length (b'D' ∷ title_tail format i) + length (concat (entry_texts format d)) < max_screen
      → (s' : Screen) × (print_entry format i d s ≡ some s') × (bin_buffer s' ≡ entry_text i d)
  unfolding print_entry
  print_entry-bin_buffer i d s w =
      let (s₁, s₂, e₁, e₂, h) =
        bin_buffer-print_all s b'D' (title_tail format i) (entry_texts format d) w in
      (s₂, rw (e₁, print_entry) e₂, h)

  dynamic_loop-entries :
      (sh_offset : ℕ) (buf : List ℕ) (i n : ℕ) (s : Screen)
      → ((k : ℕ) (d : Dyn)
          → length (b'D' ∷ title_tail format k) + length (concat (entry_texts format d))
            < max_screen)
      → dynamic_loop format sh_offset buf i n s ≡ some (entries sh_offset buf i n)
  unfolding dynamic_loop
  dynamic_loop-entries sh_offset buf i zero s short = refl
  dynamic_loop-entries sh_offset buf i (suc n) s short =
      let d : Dyn = format.dyn (raw_entry format buf i) in
      let (s', e, h) = print_entry-bin_buffer i d s (short i d) in
      let r = dynamic_loop-entries sh_offset buf (i + 1) n s' short in
      rw (e, dynamic_loop, r, h) refl

  -- If the texts of an entry, as `vsprintf` gives them, are always shorter than the buffer, then
  -- `elf_dynamic_dump` shows each of the section's entries at its own offset in the file and with
  -- its own three texts, whatever the buffer held before.
  pub dynamic_dump-entries :
      (header : Shdr) (buf : List ℕ) (s : Screen)
      → ((k : ℕ) (d : Dyn)
          → length (b'D' ∷ title_tail format k) + length (concat (entry_texts format d))
            < max_screen)
      → dynamic_dump format header buf s
        ≡ some (entries header.sh_offset buf 0 (header.sh_size / format.dyn_size))
  unfolding dynamic_dump
  dynamic_dump-entries header buf s short = dynamic_loop-entries header.sh_offset buf 0 _ s short
