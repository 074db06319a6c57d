-- ===== src/Smp/Ipi/Laws.antt =====
-- When `send_ipi` of perftools/c/x86_asm/smp/smp-imps.c reports success.
use debian_config_files.Base.{
  ℕ, zero, suc, ◌+◌, ◌≤◌, ◌<◌, ◌≡◌, inl, inr, Bool, true, false, arith, Bool-cases, ltb, lt→ltb,
}
use native.Mathlib.Decide.{dec_lt}
use debian_config_files.Smp.Machine.{Machine, Platform}
use debian_config_files.Smp.Ipi.{poll, poll_status, wait_sent, request, send_ipi}

-- The machine after `k` rounds of the loop.
abbrev pub polled : ℕ → Machine → Machine
polled zero m = m
polled (suc k) m = polled k (poll m)

module _ (p : Platform) where
  -- The loop ends at the first idle poll, or after the last one that it may make.
  data Waits (m : Machine) (to : ℕ) (out : ℕ × Machine) : Type 0 where
    sent :
        (k : ℕ)
        → to + k ≤ 1000
        → ((i : ℕ) → i < k → poll_status p (polled i m) ≡ true)
        → poll_status p (polled k m) ≡ false
        → out ≡ (to + k, polled (suc k) m)
        → Waits m to out
    gave_up :
        ((i : ℕ) → to + i ≤ 1000 → poll_status p (polled i m) ≡ true)
        → out.0 ≡ 1001
        → Waits m to out

  busy_later :
      (k : ℕ) (m : Machine)
      → poll_status p m ≡ true
      → ((i : ℕ) → i < k → poll_status p (polled i (poll m)) ≡ true)
      → (i : ℕ) → i < suc k
      → poll_status p (polled i m) ≡ true
  busy_later k m busy h zero lt = busy
  busy_later k m busy h (suc i) lt = h i (omega arith)

  only_first :
      (m : Machine) (to : ℕ)
      → poll_status p m ≡ true
      → ¬ (to < 1000)
      → (i : ℕ) → to + i ≤ 1000
      → poll_status p (polled i m) ≡ true
  only_first m to busy last zero le = busy
  only_first m to busy last (suc i) le = absurd (omega arith)

  Waits-later :
      (to : ℕ) (m : Machine) (out : ℕ × Machine)
      → poll_status p m ≡ true
      → Waits (poll m) (to + 1) out
      → Waits m to out
  Waits-later to m out busy (sent k le h idle e) =
      sent (suc k) (omega arith) (busy_later k m busy h) idle
        (let z : to + suc k ≡ to + 1 + k = omega arith in rw z e)
  Waits-later to m out busy (gave_up h e) = gave_up late e
    where
      late : (i : ℕ) → to + i ≤ 1000 → poll_status p (polled i m) ≡ true
      late zero le = busy
      late (suc i) le = h i (omega arith)

  wait_sent-Waits :
      (fuel to : ℕ) (m : Machine) → to + fuel ≡ 1001 → 0 < fuel → Waits m to (wait_sent p fuel to m)
  unfolding wait_sent
  wait_sent-Waits zero to m e h = absurd (omega arith)
  wait_sent-Waits (suc fuel) to m e h = elim (Bool-cases (poll_status p m)) [
    | inr idle ↦ sent 0 (omega arith) (λ i lt. absurd (omega arith)) idle (ground arith)
    | inl busy ↦ elim (dec_lt to 1000) [
      | yes more ↦
          rw (busy, lt→ltb to 1000 more, wait_sent)
            (Waits-later to m (wait_sent p fuel (to + 1) (poll m)) busy
              (wait_sent-Waits fuel (to + 1) (poll m) (omega arith) (omega arith)))
      | no last ↦ gave_up (only_first m to busy last) (ground arith)
    ]
  ]

  -- A success is an idle poll, after busy ones, among the first thousand; a failure is a thousand
  -- busy polls.
  abbrev pub Sends : Machine → Bool → Type 0
  Sends m true =
      (k : ℕ) × (k < 1000)
      × (poll_status p (polled k m) ≡ false)
      × ((i : ℕ) → i < k → poll_status p (polled i m) ≡ true)
  Sends m false = (i : ℕ) → i < 1000 → poll_status p (polled i m) ≡ true

  -- `send_ipi` ends, and reports success exactly where one of the first 1000 polls after its two
  -- writes finds the interrupt sent.
  pub send_ipi-Sends : (dst v : ℕ) (m : Machine) → Sends (request dst v m) (send_ipi p dst v m).0
  unfolding send_ipi
  send_ipi-Sends dst v m =
      go (wait_sent p 1001 0 (request dst v m))
        (wait_sent-Waits 1001 0 (request dst v m) (omega arith) (omega arith))
    where
      go :
          (out : ℕ × Machine)
          → Waits (request dst v m) 0 out
          → Sends (request dst v m) (ltb out.0 1000)
      go out (sent k le h idle e) = elim (dec_lt k 1000) [
        | yes lt ↦ let z : ltb out.0 1000 ≡ true = ground arith in rw z (k, lt, idle, h)
        | no ge ↦ let z : ltb out.0 1000 ≡ false = ground arith in rw z (λ i lt. h i (omega arith))
      ]
      go out (gave_up h e) =
          let z : ltb out.0 1000 ≡ false = ground arith in rw z (λ i lt. h i (omega arith))
