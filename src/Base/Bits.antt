-- ===== src/Base/Bits.antt =====
-- Bits of a byte under the masks `1 << i` that the source uses, by evaluation over all bytes.
use Prim.Native.Nat.{ℕ, zero, suc, ◌-◌, ◌^◌, ◌<◌, bit_and, bit_or}
use mathlib.Core.Path.{◌≡◌, refl}
use mathlib.Core.Bool.{Bool, true, false, ◌&&◌, ◌||◌, not}
use native.Mathlib.Omega.{arith}
use mathlib.Core.Logic.{inl, inr}
use elephant_os.Base.Tests.{◌==◌, ltb, if◌then◌else◌, Bool-cases}

-- the test is true of every number below the limit, counted down from it
unfoldable pub all_below : (limit : ℕ) → (test : ℕ → Bool) → Bool
all_below (suc top) test = if test top then all_below top test else false
all_below zero test = true

pub all_below_sound :
    (limit : ℕ) (test : ℕ → Bool) (i : ℕ) (all : all_below limit test ≡ true) (below : i < limit)
    → test i ≡ true
unfolding all_below
all_below_sound (suc top) test i all below = elim (Bool-cases (i == top)) [
  | inl e ↦ ground arith
  | inr e ↦ ground (arith, all_below_sound top test i)
]
all_below_sound zero test i all below = absurd (omega arith)

-- A table over a byte and two bit numbers.
all_bits : (ℕ → ℕ → ℕ → Bool) → Bool
all_bits p = all_below 256 (λ b. all_below 8 (λ i. all_below 8 (λ j. p b i j)))

all_bits_sound :
    (p : ℕ → ℕ → ℕ → Bool) (b i j : ℕ)
    → all_bits p ≡ true
    → b < 256
    → i < 8
    → j < 8
    → p b i j ≡ true
unfolding all_bits
all_bits_sound p b i j h hb hi hj =
    all_below_sound 8 (p b i) j
      (all_below_sound 8 (λ i. all_below 8 (λ j. p b i j)) i
        (all_below_sound 256 (λ b. all_below 8 (λ i. all_below 8 (λ j. p b i j))) b h hb) hi)
      hj

-- `byte & (1 << i)`, as a truth value
unfoldable pub bit_set : ℕ → ℕ → Bool
bit_set b i = not (bit_and b (2 ^ i) == 0)

-- `~(1 << i)`, on 32 bits
abbrev pub clear_mask : ℕ → ℕ
clear_mask i = 2 ^ 32 - 1 - 2 ^ i

abbrev pub eqb : Bool → Bool → Bool
eqb true b = b
eqb false b = not b

pub eqb_sound : (a b : Bool) → eqb a b ≡ true → a ≡ b
eqb_sound true b h = ground arith
eqb_sound false b h = ground arith

or_table : all_bits (λ b i j. eqb (bit_set (bit_or b (2 ^ i)) j) ((i == j) || bit_set b j)) ≡ true
unfolding all_bits all_below bit_set
or_table = refl

and_table :
    all_bits (λ b i j. eqb (bit_set (bit_and b (clear_mask i)) j) (not (i == j) && bit_set b j))
    ≡ true
unfolding all_bits all_below bit_set
and_table = refl

range_table :
    all_bits (λ b i j. ltb (bit_or b (2 ^ i)) 256 && ltb (bit_and b (clear_mask i)) 256) ≡ true
unfolding all_bits all_below
range_table = refl

ends_table : all_bits (λ b i j. not (bit_set 0 i) && bit_set 255 i) ≡ true
unfolding all_bits all_below bit_set
ends_table = refl

module _ (b i j : ℕ) (hb : b < 256) (hi : i < 8) (hj : j < 8) where
  pub bit_set-bit_or : bit_set (bit_or b (2 ^ i)) j ≡ ((i == j) || bit_set b j)
  bit_set-bit_or = eqb_sound _ _ (
      all_bits_sound (λ b i j. eqb (bit_set (bit_or b (2 ^ i)) j) ((i == j) || bit_set b j)) b i j
        or_table hb hi hj)

  pub bit_set-bit_and : bit_set (bit_and b (clear_mask i)) j ≡ (not (i == j) && bit_set b j)
  bit_set-bit_and = eqb_sound _ _ (
      all_bits_sound
        (λ b i j. eqb (bit_set (bit_and b (clear_mask i)) j) (not (i == j) && bit_set b j)) b i j
        and_table hb hi hj)

module _ (b i : ℕ) (hb : b < 256) (hi : i < 8) where
  pub masked_range : (bit_or b (2 ^ i) < 256) × (bit_and b (clear_mask i) < 256)
  masked_range = ground (
    arith,
    all_bits_sound (λ b i j. ltb (bit_or b (2 ^ i)) 256 && ltb (bit_and b (clear_mask i)) 256) b i 0
        range_table hb hi (omega arith),
  )

pub bit_set_ends : (i : ℕ) → i < 8 → (bit_set 0 i ≡ false) × (bit_set 255 i ≡ true)
bit_set_ends i hi = ground (
  arith,
  all_bits_sound (λ b i j. not (bit_set 0 i) && bit_set 255 i) 0 i 0 ends_table (omega arith) hi
      (omega arith),
)
