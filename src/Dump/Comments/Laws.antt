-- ===== src/Dump/Comments/Laws.antt =====
-- The comments that `binary_dump_with_comment` of perftools/linux/elf/binary_dump.c shows.
use debian_config_files.Base.{ℕ, zero, suc, ◌+◌, ◌≤◌, ◌≡◌, refl, false, List, ◌==◌, arith}
use debian_config_files.Dump.Hex.{gaps}
use debian_config_files.Dump.Comments.{comment_gap}

-- The loop named "post gap" starts at the column that its test looks for behind it, so it never
-- shows a bar or a comment: it fills the row with spaces and leaves every comment for later lines.
pub comment_gap-gaps :
    (filled k n : ℕ) (argv : List (List ℕ))
    → filled ≤ k
    → comment_gap filled k n argv ≡ (gaps n, argv)
unfolding comment_gap gaps
comment_gap-gaps filled k zero argv h = refl
comment_gap-gaps filled k (suc n) argv h =
    let r = comment_gap-gaps filled (k + 1) n argv (omega arith) in
    let ne : k + 1 == filled ≡ false = ground arith in rw (ne, r) refl
