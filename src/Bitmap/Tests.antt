-- ===== src/Bitmap/Tests.antt =====
-- Runs of the bitmap functions, and instances of the theorems about them.
use elephant_os.Base.{
  ℕ, ◌+◌, ◌/◌, ◌%◌, ◌<◌, ◌≤◌, ◌≡◌, refl, inl, inr, Bool-cases, true, false, some, arith, ◌==◌,
  if◌then◌else◌, done,
}
use elephant_os.Base.Bits.{bit_set, bit_set_ends, all_below, all_below_sound}
use elephant_os.Bitmap.{
  Bitmap, bitmap_scan_test, bitmap_scan, bitmap_set, skip_full, first_zero, find_run, scan_from,
}
use elephant_os.Bitmap.Set.{IsValid, bitmap_set_lem}
use elephant_os.Bitmap.Runs.{FreeRun}
use elephant_os.Bitmap.Scan.{scan_first_fit}

-- Bits 0 to 4 set, 5 clear, 6 set, the rest of the two bytes clear.
abbrev map : Bitmap
map = record { btmp_bytes_len = 2; bits = λ i. if i == 0 then 0x5f else 0 }

map-IsValid : IsValid map
map-IsValid = record { bytes = λ i. ground arith; small = omega arith }

-- One byte, of which only the last bit is clear.
abbrev tight : Bitmap
tight = record { btmp_bytes_len = 1; bits = λ i. if i == 0 then 0x7f else 0 }

tight-IsValid : IsValid tight
tight-IsValid = record { bytes = λ i. ground arith; small = omega arith }

abbrev full : Bitmap
full = record { btmp_bytes_len = 1; bits = λ i. 0xff }

full-IsValid : IsValid full
full-IsValid = record { bytes = λ i. omega arith; small = omega arith }

scan_runs : bitmap_scan map 3 ≡ done (some 7)
unfolding bitmap_scan scan_from skip_full first_zero find_run bitmap_scan_test bit_set
scan_runs = refl

bitmap_set_lem_example :
    (b : Bitmap) × (bitmap_set map 5 1 ≡ done b)
    × IsValid b
    × ((j : ℕ) → bitmap_scan_test b j ≡ (if 5 == j then 1 == 1 else bitmap_scan_test map j))
bitmap_set_lem_example = bitmap_set_lem map 5 1 map-IsValid (omega arith)

full_bits : (j : ℕ) → j < 8 → bitmap_scan_test full j ≡ true
unfolding bitmap_scan_test
full_bits j h = let col : j % 8 ≡ j = omega arith in rw col (bit_set_ends j h).1

-- bits 7 to 9
map_run : FreeRun map 7 3
map_run j lo hi =
    let at7 : bitmap_scan_test map 7 ≡ false = unfold bitmap_scan_test bit_set in refl in
    let at8 : bitmap_scan_test map 8 ≡ false = unfold bitmap_scan_test bit_set in refl in
    let at9 : bitmap_scan_test map 9 ≡ false = unfold bitmap_scan_test bit_set in refl in
    elim (Bool-cases (j == 7)) [
      | inl e ↦ let at : j ≡ 7 = ground arith in rw at at7
      | inr ne ↦ elim (Bool-cases (j == 8)) [
        | inl e ↦ let at : j ≡ 8 = ground arith in rw at at8
        | inr ne' ↦ let at : j ≡ 9 = ground arith in rw at at9
      ]
    ]

scan_first_fit_example : (r : ℕ) × (bitmap_scan map 3 ≡ done (some r)) × (r ≤ 7) × FreeRun map r 3
scan_first_fit_example = scan_first_fit map 3 7 map-IsValid (omega arith) (omega arith) map_run

tight_bits : (j : ℕ) → j + 1 < 8 → bitmap_scan_test tight j ≡ true
unfolding bitmap_scan_test
tight_bits j h =
    let row : j / 8 ≡ 0 = omega arith in
    let col : j % 8 ≡ j = omega arith in
    rw (row, col)
      (all_below_sound 7 (λ i. bit_set 0x7f i) j (unfold all_below bit_set in refl) (omega arith))
