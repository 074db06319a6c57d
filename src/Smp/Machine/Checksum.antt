-- ===== src/Smp/Machine/Checksum.antt =====
-- What `get_checksum` of perftools/c/x86_asm/smp/smp-imps.c computes.
use debian_config_files.Base.{ℕ, zero, suc, ◌+◌, ◌%◌, ◌^◌, ◌<◌, ◌≡◌, ap, ◌∙◌, arith}
use debian_config_files.Smp.Machine.{checksum_from, get_checksum}

-- The sum of `n` bytes, as a number without bounds.
abbrev pub bytes_sum : (ℕ → ℕ) → ℕ → ℕ → ℕ
bytes_sum ram start zero = 0
bytes_sum ram start (suc n) = ram start + bytes_sum ram (start + 1) n

checksum_from-bytes_sum :
    (ram : ℕ → ℕ) (sum start n : ℕ)
    → start + n < 2 ^ 32
    → checksum_from ram sum start n ≡ (sum + bytes_sum ram start n) % 256
unfolding checksum_from
checksum_from-bytes_sum ram sum start zero w = omega arith
checksum_from-bytes_sum ram sum start (suc n) w =
    let next : (start + 1) % 2 ^ 32 ≡ start + 1 = omega arith in
    let r = checksum_from-bytes_sum ram ((sum + ram start) % 2 ^ 32) (start + 1) n (omega arith) in
    rw next (omega (arith, r))

-- For bytes that end below 4 GB, `get_checksum` gives their sum modulo 256: the wrap-around of its
-- 32-bit sum does not show.
pub get_checksum-bytes_sum :
    (ram : ℕ → ℕ) (start n : ℕ)
    → start + n < 2 ^ 32
    → get_checksum ram start n ≡ bytes_sum ram start n % 256
unfolding get_checksum
get_checksum-bytes_sum ram start n w =
    let z : 0 + bytes_sum ram start n ≡ bytes_sum ram start n = omega arith in
    checksum_from-bytes_sum ram 0 start n w ∙ ap (λ s. s % 256) z
