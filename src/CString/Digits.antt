-- ===== src/CString/Digits.antt =====
-- What `itoa` writes.
use elephant_os.Base.{
  ℕ, zero, suc, ◌+◌, ◌-◌, ◌*◌, ◌/◌, ◌%◌, ◌^◌, ◌<◌, ◌≤◌, ◌≡◌, ◌⊎◌, inl, inr, refl, false, some, ◌==◌,
  ltb, if◌then◌else◌, update, Mem, arith, Bool-cases, ==_self,
}
use elephant_os.CString.{itoa}

-- the value of a digit's character
abbrev pub digit : ℕ → ℕ
digit c = if ltb c 65 then c - 48 else c - 65 + 10

-- the number that the `n` digits at `a` stand for
abbrev pub number : Mem → ℕ → ℕ → ℕ → ℕ
number m base a zero = 0
number m base a (suc n) = number m base a n * base + digit (m (a + n))

number-agree :
    (m m' : Mem) (base a n : ℕ)
    → ((b : ℕ) → b < a + n → m' b ≡ m b)
    → number m' base a n ≡ number m base a n
number-agree m m' base a zero agree = refl
number-agree m m' base a (suc n) agree =
    rw (number-agree m m' base a n (λ b lt. agree b (omega arith)), agree (a + n) (omega arith))
      refl

digit_char : (r : ℕ) → digit (if ltb r 10 then r + 48 else r - 10 + 65) ≡ r
digit_char r = ground arith

-- `itoa` with the bases that `vsprintf` uses
module _ (base : ℕ) (which : (base ≡ 10) ⊎ (base ≡ 16)) where
  shrinks : (fuel value : ℕ) → value < 2 ^ suc fuel → value / base < 2 ^ fuel
  shrinks fuel value lt =
      let twice : 2 ^ suc fuel ≡ 2 * 2 ^ fuel = omega arith in
      elim which [ inl e ↦ rw e omega arith | inr e ↦ rw e omega arith ]

  splits : (value : ℕ) → value / base * base + value % base ≡ value
  splits value = elim which [ inl e ↦ rw e omega arith | inr e ↦ rw e omega arith ]

  fuel_left : (fuel value : ℕ) → value < 2 ^ suc fuel → (value / base == 0) ≡ false → 0 < fuel
  fuel_left zero value lt big =
      let none_left : value / base < 2 ^ 0 = shrinks zero value lt in absurd (ground arith)
  fuel_left (suc fuel) value lt big = omega arith

  -- In base 10 or 16, with fuel for the number of bits of the value, `itoa` writes at least one
  -- digit at the pointer and moves it behind the last one; read in that base the digits give the
  -- value, and no other byte is changed.
  itoa-number :
      (fuel value p : ℕ) (m : Mem)
      → value < 2 ^ fuel
      → 0 < fuel
      → (m' : Mem) × (n : ℕ) × (itoa fuel value m p base ≡ some (m', p + n))
        × (0 < n)
        × (number m' base p n ≡ value)
        × ((a : ℕ) → (a < p) ⊎ (p + n ≤ a) → m' a ≡ m a)
  unfolding itoa
  itoa-number zero value p m lt pos = absurd (omega arith)
  itoa-number (suc fuel) value p m lt pos =
      let r = value % base in
      let c = if ltb r 10 then r + 48 else r - 10 + 65 in
      elim (Bool-cases (value / base == 0)) [
        | inl small ↦
            let whole : 0 * base + r ≡ value = ground (arith, splits value) in
            let last : p + 0 ≡ p = omega arith in
            (
              update m p c,
              1,
              rw small refl,
              omega arith,
              rw (last, ==_self, digit_char r) whole,
              λ a out. elim out [ inl lo ↦ ground arith | inr hi ↦ ground arith ],
            )
        | inr big ↦
            let (m1, n, run, some_digits, value1, kept) =
              itoa-number fuel (value / base) p m (shrinks fuel value lt)
                (fuel_left fuel value lt big) in
            let next : p + suc n ≡ p + n + 1 = omega arith in
            let same = number-agree m1 (update m1 (p + n) c) base p n (λ b lo. ground arith) in
            (
              update m1 (p + n) c,
              suc n,
              rw (big, run, next) refl,
              omega arith,
              rw (same, value1, ==_self, digit_char r) (splits value),
              λ a out. elim out [
                | inl lo ↦ ground (arith, kept a (inl (omega arith)))
                | inr hi ↦ ground (arith, kept a (inr (omega arith)))
              ],
            )
      ]
