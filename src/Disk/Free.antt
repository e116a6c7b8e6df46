-- ===== src/Disk/Free.antt =====
-- How many blocks are free.
use elephant_os.Base.{
  ℕ, zero, suc, ◌+◌, ◌*◌, ◌<◌, ◌≤◌, ◌≡◌, inl, inr, true, false, arith, ltb, if◌then◌else◌,
  Bool-cases,
}
use elephant_os.Bitmap.{Bitmap, bitmap_scan_test}
use elephant_os.Bitmap.Set.{IsValid, set_bit, scan_test-set_bit}

-- the number of clear bits below `n`
unfoldable pub free_count : Bitmap → ℕ → ℕ
free_count b zero = 0
free_count b (suc n) = free_count b n + (if bitmap_scan_test b n then 0 else 1)

pub free_count-some :
    (b : Bitmap) (n : ℕ) → 0 < free_count b n → (s : ℕ) × (s < n) × (bitmap_scan_test b s ≡ false)
unfolding free_count
free_count-some b zero some = absurd (omega arith)
free_count-some b (suc n) some = elim (Bool-cases (bitmap_scan_test b n)) [
  | inl set ↦ let (s, lt, clear) = free_count-some b n (ground arith) in (s, omega arith, clear)
  | inr clear ↦ (n, omega arith, clear)
]

pub free_count-set_bit :
    (b : Bitmap) (r n : ℕ)
    → IsValid b
    → bitmap_scan_test b r ≡ false
    → free_count (set_bit b r true) n + (if ltb r n then 1 else 0) ≡ free_count b n
unfolding free_count
free_count-set_bit b r zero v clear = ground arith
free_count-set_bit b r (suc n) v clear =
    ground (arith, free_count-set_bit b r n v clear, scan_test-set_bit b r n true v)

-- the free blocks of a whole bitmap
abbrev pub free_blocks : Bitmap → ℕ
free_blocks b = free_count b (b.btmp_bytes_len * 8)

pub free_blocks-set_bit :
    (b : Bitmap) (r left : ℕ)
    → IsValid b
    → r < b.btmp_bytes_len * 8
    → bitmap_scan_test b r ≡ false
    → suc left ≤ free_blocks b
    → left ≤ free_blocks (set_bit b r true)
unfolding set_bit
free_blocks-set_bit b r left v lt clear le =
    ground (arith, free_count-set_bit b r (b.btmp_bytes_len * 8) v clear)
