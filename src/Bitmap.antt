-- ===== src/Bitmap.antt =====
-- lib/kernel/bitmap.c. The pointer `bits` is the memory from that address on, as a function of the
-- byte's index: `bitmap_scan` reads one byte past the end, and that byte is whatever lies there.
pub mod Set
pub mod Runs
pub mod Scan
mod Tests
use elephant_os.Base.{
  ℕ, zero, suc, ◌+◌, ◌*◌, ◌-◌, ◌/◌, ◌%◌, ◌^◌, bit_and, bit_or, Bool, true, false, ◌&&◌, ◌||◌,
  Option, none, some, ltb, ◌==◌, if◌then◌else◌, update, u32, sub32, Mem, fill, Outcome, done, panic,
  ◌>>=◌, ◌>>◌, assert,
}
use elephant_os.Base.Bits.{bit_set, clear_mask}

pub record Bitmap : Type 0 where
  pub btmp_bytes_len : ℕ
  pub bits : Mem

unfoldable pub bitmap_init : Bitmap → Bitmap
bitmap_init b = record b { bits = fill b.bits 0 0 b.btmp_bytes_len }

unfoldable pub bitmap_scan_test : Bitmap → ℕ → Bool
bitmap_scan_test b bit_idx = bit_set (b.bits (bit_idx / 8)) (bit_idx % 8)

-- the first loop; the byte is read before the bound is tested
unfoldable pub skip_full : ℕ → Mem → ℕ → ℕ → ℕ
skip_full zero bits len idx_byte = idx_byte
skip_full (suc fuel) bits len idx_byte = elim ((0xff == bits idx_byte) && ltb idx_byte len) [
  | true ↦ skip_full fuel bits len (idx_byte + 1)
  | false ↦ idx_byte
]

-- the loop over the bits of one byte; `(uint8_t)(1 << idx_bit)` is 0 from 8 on
unfoldable pub first_zero : ℕ → ℕ → ℕ → ℕ
first_zero zero byte idx_bit = idx_bit
first_zero (suc fuel) byte idx_bit = elim (bit_and (2 ^ idx_bit % 256) byte == 0) [
  | true ↦ idx_bit
  | false ↦ first_zero fuel byte (idx_bit + 1)
]

-- the loop over the following bits; `none` is -1
unfoldable pub find_run : Bitmap → ℕ → ℕ → ℕ → ℕ → Option ℕ
find_run b cnt zero next_bit count = none
find_run b cnt (suc bit_left) next_bit count =
    let count' = if bitmap_scan_test b next_bit then 0 else u32 (count + 1) in
    let rest = find_run b cnt bit_left (u32 (next_bit + 1)) count' in
    if count' == cnt then some (u32 (sub32 next_bit cnt + 1)) else rest

-- `bitmap_scan` once a byte with a free bit is found
unfoldable pub scan_from : Bitmap → ℕ → ℕ → Option ℕ
scan_from b cnt idx_byte =
    let bit_idx_start = u32 (idx_byte * 8 + first_zero 8 (b.bits idx_byte) 0) in
    if cnt == 1
    then some bit_idx_start
    else find_run b cnt (sub32 (u32 (b.btmp_bytes_len * 8)) bit_idx_start) (u32 (bit_idx_start + 1))
        1

-- The fuel of the first loop is `btmp_bytes_len`: its index reaches the end after as many rounds.
unfoldable pub bitmap_scan : Bitmap → ℕ → Outcome (Option ℕ)
bitmap_scan b cnt =
    let idx_byte = skip_full b.btmp_bytes_len b.bits b.btmp_bytes_len 0 in
    do
      assert (ltb idx_byte b.btmp_bytes_len)
      done (if idx_byte == b.btmp_bytes_len then none else scan_from b cnt idx_byte)

unfoldable pub bitmap_set : Bitmap → ℕ → ℕ → Outcome Bitmap
bitmap_set b bit_idx value = do
  assert ((value == 0) || (value == 1))
  let byte_idx = bit_idx / 8
  let bit_odd = bit_idx % 8
  let byte = b.bits byte_idx
  done (record b {
    bits =
        update b.bits byte_idx
          (if value == 0 then bit_and byte (clear_mask bit_odd) else bit_or byte (2 ^ bit_odd));
  })
