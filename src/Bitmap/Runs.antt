-- ===== src/Bitmap/Runs.antt =====
-- The loops of `bitmap_scan`: the first byte with a clear bit, its first clear bit, and the runs of
-- clear bits behind it.
use elephant_os.Base.{
  ℕ, zero, suc, ◌+◌, ◌-◌, ◌^◌, ◌<◌, ◌≤◌, ◌≡◌, refl, ◌≢◌, inl, inr, Bool, true, false, ◌&&◌, ◌||◌,
  not, some, arith, ltb, leb, ◌==◌, Mem, Bool-cases, sym, ◌∙◌,
}
use elephant_os.Base.Bits.{all_below, all_below_sound, bit_set}
use elephant_os.Bitmap.{Bitmap, bitmap_scan_test, skip_full, first_zero, find_run}

pub skip_full_lem :
    (fuel : ℕ) (bits : Mem) (len i : ℕ)
    → i + fuel ≡ len
    → (i ≤ skip_full fuel bits len i)
      × (skip_full fuel bits len i ≤ len)
      × (skip_full fuel bits len i < len → bits (skip_full fuel bits len i) ≢ 0xff)
unfolding skip_full
skip_full_lem zero bits len i e = (omega arith, omega arith, λ h. absurd (omega arith))
skip_full_lem (suc fuel) bits len i e = ground (arith, skip_full_lem fuel bits len (i + 1))

-- everything before the byte where the loop stops is full
pub skip_full_below :
    (fuel : ℕ) (bits : Mem) (len i j : ℕ) → i ≤ j → j < skip_full fuel bits len i → bits j ≡ 0xff
unfolding skip_full
skip_full_below zero bits len i j h k = absurd (omega arith)
skip_full_below (suc fuel) bits len i j h k = elim (Bool-cases (i == j)) [
  | inl e ↦ ground arith
  | inr e ↦ ground (arith, skip_full_below fuel bits len (i + 1) j)
]

-- The table of the loop over the bits of a byte that is not full.
zero_row : ℕ → Bool
zero_row b =
    ltb (first_zero 8 b 0) 8
    && not (bit_set b (first_zero 8 b 0))
    && all_below 8 (λ j. leb (first_zero 8 b 0) j || bit_set b j)

zero_table : all_below 255 zero_row ≡ true
unfolding zero_row all_below bit_set first_zero
zero_table = refl

pub first_zero_lem :
    (b : ℕ) → b < 255 → (first_zero 8 b 0 < 8) × (bit_set b (first_zero 8 b 0) ≡ false)
unfolding zero_row
first_zero_lem b h = ground (arith, all_below_sound 255 zero_row b zero_table h)

pub first_zero_below : (b j : ℕ) → b < 255 → j < first_zero 8 b 0 → bit_set b j ≡ true
unfolding zero_row
first_zero_below b j h k =
    let row = all_below_sound 255 zero_row b zero_table h in
    ground (
      arith,
      first_zero_lem b h,
      all_below_sound 8 (λ j. leb (first_zero 8 b 0) j || bit_set b j) j,
    )

-- A run of `cnt` clear bits from `s`.
abbrev pub FreeRun : Bitmap → ℕ → ℕ → Type 0
FreeRun b s cnt = (j : ℕ) → s ≤ j → j < s + cnt → bitmap_scan_test b j ≡ false

module _ (b : Bitmap) (cnt : ℕ) where
  module _ (left next count : ℕ) (fit : next + suc left < 2 ^ 32) (short : count < cnt)
      (le : count ≤ next) where
    find_run_busy :
        bitmap_scan_test b next ≡ true
        → find_run b cnt (suc left) next count ≡ find_run b cnt left (next + 1) 0
    unfolding find_run
    find_run_busy busy = ground arith

    pub find_run_hit :
        bitmap_scan_test b next ≡ false
        → count + 1 ≡ cnt
        → find_run b cnt (suc left) next count ≡ some (next - count)
    unfolding find_run
    find_run_hit free e = ground arith

    find_run_free :
        bitmap_scan_test b next ≡ false
        → count + 1 ≢ cnt
        → find_run b cnt (suc left) next count ≡ find_run b cnt left (next + 1) (count + 1)
    unfolding find_run
    find_run_free free ne = ground arith

    FreeRun-suc :
        bitmap_scan_test b next ≡ false
        → FreeRun b (next - count) count
        → FreeRun b (next + 1 - (count + 1)) (count + 1)
    FreeRun-suc free run j lo hi = elim (Bool-cases (j == next)) [
      | inl e ↦ ground arith
      | inr e ↦ run j (omega arith) (ground arith)
    ]

  -- With the last `count` bits clear, what the loop returns is a run of clear bits.
  pub find_run-FreeRun :
      (left next count : ℕ) {r : ℕ}
      → next + left < 2 ^ 32
      → count < cnt
      → count ≤ next
      → FreeRun b (next - count) count
      → find_run b cnt left next count ≡ some r
      → FreeRun b r cnt × (r + cnt ≤ next + left)
  unfolding find_run
  find_run-FreeRun zero next count {r} fit short le run e = cc
  find_run-FreeRun (suc left) next count {r} fit short le run e =
      elim (Bool-cases (bitmap_scan_test b next)) [
        | inl busy ↦
            let (run', room) =
              find_run-FreeRun left (next + 1) 0 (omega arith) (omega arith) (omega arith)
                (λ j lo hi. absurd (omega arith))
                (sym (find_run_busy left next count fit short le busy) ∙ e) in
            (run', omega arith)
        | inr free ↦ elim (Bool-cases (count + 1 == cnt)) [
          | inl hit ↦
              let at : next - count ≡ r =
                ground (arith, find_run_hit left next count fit short le free) in
              (
                λ j lo hi.
                    FreeRun-suc left next count fit short le free run j (omega arith)
                      (ground arith),
                ground arith,
              )
          | inr more ↦
              let (run', room) =
                find_run-FreeRun left (next + 1) (count + 1) (omega arith) (ground arith)
                  (omega arith) (FreeRun-suc left next count fit short le free run)
                  (sym (find_run_free left next count fit short le free (ground arith)) ∙ e) in
              (run', omega arith)
        ]
      ]

  -- A run of clear bits that starts no earlier than the one being counted is not passed over.
  pub find_run_first :
      (left next count s : ℕ)
      → next + left < 2 ^ 32
      → count < cnt
      → count ≤ next
      → next ≤ s + count
      → s + cnt ≤ next + left
      → FreeRun b s cnt
      → (r : ℕ) × (find_run b cnt left next count ≡ some r) × (r ≤ s)
  find_run_first zero next count s fit short le start room run = absurd (omega arith)
  find_run_first (suc left) next count s fit short le start room run =
      elim (Bool-cases (bitmap_scan_test b next)) [
        | inl busy ↦
            let after : next < s = ground (arith, run next) in
            let (r, e, l) =
              find_run_first left (next + 1) 0 s (omega arith) (omega arith) (omega arith)
                (omega arith) (omega arith) run in
            (r, find_run_busy left next count fit short le busy ∙ e, l)
        | inr free ↦ elim (Bool-cases (count + 1 == cnt)) [
          | inl hit ↦ (
            next - count,
            find_run_hit left next count fit short le free (ground arith),
            omega arith,
          )
          | inr more ↦
              let (r, e, l) =
                find_run_first left (next + 1) (count + 1) s (omega arith) (ground arith)
                  (omega arith) (omega arith) (omega arith) run in
              (r, find_run_free left next count fit short le free (ground arith) ∙ e, l)
        ]
      ]
