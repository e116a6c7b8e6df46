-- ===== src/Driver/Wait.antt =====
-- How long `busy_wait` waits.
use elephant_os.Base.{
  ℕ, zero, suc, ◌+◌, ◌<◌, ◌≤◌, ◌≡◌, refl, inl, inr, true, false, arith, ◌==◌, Bool-cases,
}
use elephant_os.Driver.{is_busy, has_data, wait_loop, busy_wait}

wait_loop-found :
    (time : ℕ) (status : ℕ → ℕ) (n k : ℕ)
    → n ≤ k
    → k + 1 < n + time
    → ((j : ℕ) → n ≤ j → j < k → is_busy (status j) ≡ true)
    → is_busy (status k) ≡ false
    → wait_loop time status n ≡ has_data (status (k + 1))
unfolding wait_loop
wait_loop-found zero status n k le lt busy free = absurd (omega arith)
wait_loop-found (suc time) status n k le lt busy free =
    let more : (time == 0) ≡ false = ground arith in
    elim (Bool-cases (n == k)) [
      | inl here ↦ let at : n ≡ k = ground arith in rw (more, at, free) refl
      | inr later ↦
          rw (more, busy n (omega arith) (ground arith))
            (wait_loop-found time status (n + 1) k (ground arith) (omega arith)
              (λ j lo hi. busy j (omega arith) hi) free)
    ]

wait_loop-never :
    (time : ℕ) (status : ℕ → ℕ) (n : ℕ)
    → ((j : ℕ) → n ≤ j → j + 1 < n + time → is_busy (status j) ≡ true)
    → wait_loop time status n ≡ false
unfolding wait_loop
wait_loop-never zero status n busy = refl
wait_loop-never (suc time) status n busy = elim (Bool-cases (time == 0)) [
  | inl over ↦ rw over refl
  | inr more ↦
      rw (more, busy n (omega arith) (ground arith))
        (wait_loop-never time status (n + 1) (λ j lo hi. busy j (omega arith) (omega arith)))
]

-- If the status has the busy bit in its first `k` reads and not in the next one, and `k` is below
-- 29999, `busy_wait` returns whether the read after that has the data bit.
pub busy_wait_lem :
    (status : ℕ → ℕ) (k : ℕ)
    → k < 29999
    → ((j : ℕ) → j < k → is_busy (status j) ≡ true)
    → is_busy (status k) ≡ false
    → busy_wait status ≡ has_data (status (k + 1))
unfolding busy_wait
busy_wait_lem status k lt busy free =
    wait_loop-found 30000 status 0 k (omega arith) (omega arith) (λ j lo hi. busy j hi) free

-- If 29999 reads in a row have the busy bit, `busy_wait` gives up; each but the last read is
-- followed by a pause of 10 milliseconds.
busy_wait_never :
    (status : ℕ → ℕ) → ((j : ℕ) → j < 29999 → is_busy (status j) ≡ true) → busy_wait status ≡ false
unfolding busy_wait
busy_wait_never status busy = wait_loop-never 30000 status 0 (λ j lo hi. busy j (omega arith))
