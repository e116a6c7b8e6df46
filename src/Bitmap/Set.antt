-- ===== src/Bitmap/Set.antt =====
-- `bitmap_set` and `bitmap_init` against `bitmap_scan_test`.
use elephant_os.Base.{
  ℕ, zero, suc, ◌*◌, ◌/◌, ◌%◌, ◌^◌, ◌<◌, ◌≤◌, bit_and, bit_or, ◌≡◌, refl, Bool, true, false, arith,
  ltb, ◌==◌, if◌then◌else◌, update, fill_lem, done,
}
use elephant_os.Base.Bits.{clear_mask, bit_set-bit_or, bit_set-bit_and, masked_range, bit_set_ends}
use elephant_os.Bitmap.{Bitmap, bitmap_init, bitmap_scan_test, bitmap_set}

-- every cell of the memory is a byte, and bit numbers fit an `int`
pub record IsValid (b : Bitmap) : Type 0 where
  pub bytes : (i : ℕ) → b.bits i < 256
  pub small : b.btmp_bytes_len * 8 < 2 ^ 31

-- The bitmap that `bitmap_set` leaves, for a value that passes its `ASSERT`.
unfoldable pub set_bit : Bitmap → ℕ → Bool → Bitmap
set_bit b i v = record b {
  bits = update b.bits (i / 8) (
      if v
      then bit_or (b.bits (i / 8)) (2 ^ (i % 8))
      else bit_and (b.bits (i / 8)) (clear_mask (i % 8)));
}

pub bitmap_set_one : (b : Bitmap) (i : ℕ) → bitmap_set b i 1 ≡ done (set_bit b i true)
unfolding bitmap_set set_bit
bitmap_set_one b i = refl

pub bitmap_set_zero : (b : Bitmap) (i : ℕ) → bitmap_set b i 0 ≡ done (set_bit b i false)
unfolding bitmap_set set_bit
bitmap_set_zero b i = refl

pub scan_test-set_bit :
    (b : Bitmap) (i j : ℕ) (v : Bool)
    → IsValid b
    → bitmap_scan_test (set_bit b i v) j ≡ (if i == j then v else bitmap_scan_test b j)
unfolding bitmap_scan_test set_bit
scan_test-set_bit b i j true h = ground (
  arith,
  h.bytes (i / 8),
  bit_set-bit_or (b.bits (i / 8)) (i % 8) (j % 8) (h.bytes (i / 8)) (omega arith) (omega arith),
)
scan_test-set_bit b i j false h = ground (
  arith,
  h.bytes (i / 8),
  bit_set-bit_and (b.bits (i / 8)) (i % 8) (j % 8) (h.bytes (i / 8)) (omega arith) (omega arith),
)

pub set_bit-IsValid : (b : Bitmap) (i : ℕ) (v : Bool) → IsValid b → IsValid (set_bit b i v)
unfolding set_bit
set_bit-IsValid b i true h = record {
  bytes = λ k.
      ground
        (arith, h.bytes k, masked_range (b.bits (i / 8)) (i % 8) (h.bytes (i / 8)) (omega arith));
  small = h.small;
}
set_bit-IsValid b i false h = record {
  bytes = λ k.
      ground
        (arith, h.bytes k, masked_range (b.bits (i / 8)) (i % 8) (h.bytes (i / 8)) (omega arith));
  small = h.small;
}

-- On a valid map, `bitmap_set` with 0 or 1 succeeds and keeps the map valid, and afterwards a test
-- of the bit gives the value while a test of any other bit gives what it gave before.
pub bitmap_set_lem :
    (b : Bitmap) (i value : ℕ)
    → IsValid b
    → value ≤ 1
    → (b' : Bitmap) × (bitmap_set b i value ≡ done b')
      × IsValid b'
      × ((j : ℕ) → bitmap_scan_test b' j ≡ (if i == j then value == 1 else bitmap_scan_test b j))
bitmap_set_lem b i zero v h = (
  set_bit b i false,
  bitmap_set_zero b i,
  set_bit-IsValid b i false v,
  λ j. scan_test-set_bit b i j false v,
)
bitmap_set_lem b i (suc zero) v h = (
  set_bit b i true,
  bitmap_set_one b i,
  set_bit-IsValid b i true v,
  λ j. scan_test-set_bit b i j true v,
)
bitmap_set_lem b i (suc (suc n)) v h = absurd (omega arith)

-- `bitmap_init` clears the bits inside the map and leaves every other bit as it was.
pub scan_test-init :
    (b : Bitmap) (i : ℕ)
    → bitmap_scan_test (bitmap_init b) i
      ≡ (if ltb i (b.btmp_bytes_len * 8) then false else bitmap_scan_test b i)
unfolding bitmap_scan_test bitmap_init
scan_test-init b i =
    ground (arith, fill_lem b.bits 0 0 b.btmp_bytes_len (i / 8), bit_set_ends (i % 8) (omega arith))
