-- ===== src/Bitmap/Scan.antt =====
-- What `bitmap_scan` finds.
use elephant_os.Base.{
  ℕ, ◌+◌, ◌*◌, ◌-◌, ◌/◌, ◌%◌, ◌^◌, ◌<◌, ◌≤◌, ◌≡◌, refl, ◌≢◌, inl, inr, true, false, some, arith,
  ltb, ◌==◌, Bool-cases, lt→ltb, ==_of_ne, done, panic, ap, ◌∙◌,
}
use elephant_os.Base.Bits.{bit_set, bit_set_ends}
use elephant_os.Bitmap.{
  Bitmap, bitmap_scan_test, skip_full, first_zero, find_run, scan_from, bitmap_scan,
}
use elephant_os.Bitmap.Set.{IsValid}
use elephant_os.Bitmap.Runs.{
  FreeRun, skip_full_lem, skip_full_below, first_zero_lem, first_zero_below, find_run-FreeRun,
  find_run_first, find_run_hit,
}

-- the bit from which `bitmap_scan` starts: the lowest one that is clear
abbrev first_byte : Bitmap → ℕ
first_byte b = skip_full b.btmp_bytes_len b.bits b.btmp_bytes_len 0

abbrev first_free : Bitmap → ℕ
first_free b = first_byte b * 8 + first_zero 8 (b.bits (first_byte b)) 0

first_byte_full : (b : Bitmap) (j : ℕ) → j / 8 < first_byte b → bitmap_scan_test b j ≡ true
unfolding bitmap_scan_test
first_byte_full b j h =
    rw (skip_full_below b.btmp_bytes_len b.bits b.btmp_bytes_len 0 (j / 8) (omega arith) h)
      (bit_set_ends (j % 8) (omega arith)).1

scan_test-at :
    (b : Bitmap) (k t : ℕ) → t < 8 → bitmap_scan_test b (k * 8 + t) ≡ bit_set (b.bits k) t
unfolding bitmap_scan_test
scan_test-at b k t h =
    let quot : (k * 8 + t) / 8 ≡ k = omega arith in
    let rest : (k * 8 + t) % 8 ≡ t = omega arith in rw (quot, rest)

-- A clear bit inside the map stops the first loop.
byte_found :
    (b : Bitmap) (s : ℕ)
    → s < b.btmp_bytes_len * 8
    → bitmap_scan_test b s ≡ false
    → first_byte b < b.btmp_bytes_len
byte_found b s inside free =
    ground (arith, skip_full_lem b.btmp_bytes_len b.bits b.btmp_bytes_len 0, first_byte_full b s)

module _ (b : Bitmap) (v : IsValid b) (found : first_byte b < b.btmp_bytes_len) where
  not_full : b.bits (first_byte b) < 255
  not_full =
      ground
        (arith, v.bytes (first_byte b), skip_full_lem b.btmp_bytes_len b.bits b.btmp_bytes_len 0)

  first_free_lem :
      (bitmap_scan_test b (first_free b) ≡ false) × (first_zero 8 (b.bits (first_byte b)) 0 < 8)
  first_free_lem =
      let (low, clear) = first_zero_lem (b.bits (first_byte b)) not_full in
      (scan_test-at b (first_byte b) (first_zero 8 (b.bits (first_byte b)) 0) low ∙ clear, low)

  first_free_below : (j : ℕ) → j < first_free b → bitmap_scan_test b j ≡ true
  first_free_below j h = elim (Bool-cases (ltb (j / 8) (first_byte b))) [
    | inl before ↦ first_byte_full b j (ground arith)
    | inr here ↦
        let (clear, low) = first_free_lem in
        let at : first_byte b ≡ j / 8 = ground arith in
        let split : j ≡ first_byte b * 8 + j % 8 = omega arith in
        rw split (
          scan_test-at b (first_byte b) (j % 8) (omega arith)
          ∙ first_zero_below (b.bits (first_byte b)) (j % 8) not_full (omega arith))
  ]

  scan-one : bitmap_scan b 1 ≡ done (some (first_free b))
  unfolding bitmap_scan scan_from
  scan-one = ground (arith, first_free_lem, v.small)

  scan-many :
      (cnt : ℕ)
      → cnt ≢ 1
      → bitmap_scan b cnt
        ≡ done (find_run b cnt (b.btmp_bytes_len * 8 - first_free b) (first_free b + 1) 1)
  unfolding bitmap_scan scan_from
  scan-many cnt ne =
      let inside : first_free b < b.btmp_bytes_len * 8 = omega (arith, first_free_lem) in
      let small : first_free b < 2 ^ 32 = omega (arith, v.small) in
      let start : first_free b % 2 ^ 32 ≡ first_free b = omega arith in
      let left : (b.btmp_bytes_len * 8 % 2 ^ 32 + 2 ^ 32 - first_free b) % 2 ^ 32
          ≡ b.btmp_bytes_len * 8 - first_free b =
        omega (arith, v.small) in
      let next : (first_free b + 1) % 2 ^ 32 ≡ first_free b + 1 = omega (arith, v.small) in
      rw (
        lt→ltb _ _ found,
        ==_of_ne (first_byte b) b.btmp_bytes_len (omega arith),
        ==_of_ne cnt 1 ne,
        start,
        left,
        next,
      )

  FreeRun-first : (r : ℕ) → r ≡ first_free b → FreeRun b r 1
  FreeRun-first r e j lo hi = let at : j ≡ first_free b = omega arith in rw at first_free_lem.0

  scan-FreeRun :
      (cnt : ℕ) {r : ℕ}
      → 0 < cnt
      → cnt < 2 ^ 32
      → bitmap_scan b cnt ≡ done (some r)
      → FreeRun b r cnt × (r + cnt ≤ b.btmp_bytes_len * 8 + 1)
  scan-FreeRun cnt {r} pos small e = elim (Bool-cases (cnt == 1)) [
    | inl one ↦
        let is_one : cnt ≡ 1 = ground arith in
        let at : r ≡ first_free b = ground (arith, scan-one) in
        (rw is_one (FreeRun-first r at), omega (arith, first_free_lem))
    | inr many ↦
        let (run, room) =
          find_run-FreeRun b cnt (b.btmp_bytes_len * 8 - first_free b) (first_free b + 1) 1
            (omega (arith, v.small, first_free_lem)) (ground arith) (omega arith)
            (FreeRun-first (first_free b + 1 - 1) (omega arith)) (ground (arith, scan-many cnt)) in
        (run, omega (arith, first_free_lem))
  ]

-- If some bit of a valid map is clear, `bitmap_scan` for one bit returns the lowest clear bit.
pub scan-lowest :
    (b : Bitmap) (s : ℕ)
    → IsValid b
    → s < b.btmp_bytes_len * 8
    → bitmap_scan_test b s ≡ false
    → (r : ℕ) × (bitmap_scan b 1 ≡ done (some r))
      × (r < b.btmp_bytes_len * 8)
      × (bitmap_scan_test b r ≡ false)
      × ((j : ℕ) → j < r → bitmap_scan_test b j ≡ true)
scan-lowest b s v inside free =
    let found = byte_found b s inside free in
    (
      first_free b,
      scan-one b v found,
      omega (arith, first_free_lem b v found),
      (first_free_lem b v found).0,
      first_free_below b v found,
    )

-- If every bit of a valid map is set, `bitmap_scan` stops in its `ASSERT`, and never returns -1.
pub scan_full :
    (b : Bitmap) (cnt : ℕ)
    → IsValid b
    → ((j : ℕ) → j < b.btmp_bytes_len * 8 → bitmap_scan_test b j ≡ true)
    → bitmap_scan b cnt ≡ panic
unfolding bitmap_scan
scan_full b cnt v full = elim (Bool-cases (ltb (first_byte b) b.btmp_bytes_len)) [
  | inl found ↦
      let inside : first_byte b < b.btmp_bytes_len = ground arith in
      let (clear, low) = first_free_lem b v inside in
      let set = full (first_free b) (omega arith) in cc
  | inr end ↦ rw end
]

scan_none :
    (b : Bitmap) (cnt : ℕ) → ltb (first_byte b) b.btmp_bytes_len ≡ false → bitmap_scan b cnt ≡ panic
unfolding bitmap_scan
scan_none b cnt end = rw end

-- What `bitmap_scan` of a valid map returns for a `cnt` that is not 0 and has 32 bits is a run of
-- clear bits, which ends at most one bit past the map.
scan_sound :
    (b : Bitmap) (cnt : ℕ) {r : ℕ}
    → IsValid b
    → 0 < cnt
    → cnt < 2 ^ 32
    → bitmap_scan b cnt ≡ done (some r)
    → FreeRun b r cnt × (r + cnt ≤ b.btmp_bytes_len * 8 + 1)
scan_sound b cnt {r} v pos small e = elim (Bool-cases (ltb (first_byte b) b.btmp_bytes_len)) [
  | inl found ↦ scan-FreeRun b v (ground arith) cnt pos small e
  | inr end ↦ absurd (ground (arith, scan_none b cnt end))
]

-- If a valid map has a run of `cnt` clear bits inside it and `cnt` is not 0, `bitmap_scan` returns
-- a run of clear bits that starts no later.
pub scan_first_fit :
    (b : Bitmap) (cnt s : ℕ)
    → IsValid b
    → 0 < cnt
    → s + cnt ≤ b.btmp_bytes_len * 8
    → FreeRun b s cnt
    → (r : ℕ) × (bitmap_scan b cnt ≡ done (some r)) × (r ≤ s) × FreeRun b r cnt
scan_first_fit b cnt s v pos room run =
    let found = byte_found b s (omega arith) (run s (omega arith) (omega arith)) in
    let le : first_free b ≤ s = ground (arith, first_free_below b v found s, run s) in
    elim (Bool-cases (cnt == 1)) [
      | inl one ↦
          let is_one : cnt ≡ 1 = ground arith in
          (
            first_free b,
            rw is_one (scan-one b v found),
            le,
            rw is_one (FreeRun-first b v found (first_free b) refl),
          )
      | inr many ↦
          let (r, e, l) =
            find_run_first b cnt (b.btmp_bytes_len * 8 - first_free b) (first_free b + 1) 1 s
              (omega (arith, v.small)) (ground arith) (omega arith) (omega arith) (omega arith)
              run in
          let got = scan-many b v found cnt (ground arith) ∙ ap done e in
          (r, got, l, (scan-FreeRun b v found cnt pos (omega (arith, v.small)) got).0)
    ]

-- In a valid map of at least one byte with only the last bit clear, and bit 0 of the byte behind
-- the map clear too, a scan for two bits returns the last bit: the second bit of the run lies
-- outside the map.
scan_overrun :
    (b : Bitmap)
    → IsValid b
    → 0 < b.btmp_bytes_len
    → ((j : ℕ) → j + 1 < b.btmp_bytes_len * 8 → bitmap_scan_test b j ≡ true)
    → bitmap_scan_test b (b.btmp_bytes_len * 8 - 1) ≡ false
    → bitmap_scan_test b (b.btmp_bytes_len * 8) ≡ false
    → bitmap_scan b 2 ≡ done (some (b.btmp_bytes_len * 8 - 1))
scan_overrun b v pos full last behind =
    let found = byte_found b (b.btmp_bytes_len * 8 - 1) (omega arith) last in
    let (clear, low) = first_free_lem b v found in
    let at : first_free b ≡ b.btmp_bytes_len * 8 - 1 = ground (arith, full (first_free b)) in
    let left : b.btmp_bytes_len * 8 - first_free b ≡ 1 = omega arith in
    let next : first_free b + 1 ≡ b.btmp_bytes_len * 8 = omega arith in
    scan-many b v found 2 (omega arith)
    ∙ ap done (
        rw (left, next)
          (find_run_hit b 2 0 (b.btmp_bytes_len * 8) 1 (omega (arith, v.small)) (omega arith)
            (omega arith) behind refl))
