-- ===== src/Driver/Swaps.antt =====
-- What `swap_pairs_bytes` writes.
use elephant_os.Base.{
  ℕ, zero, suc, ◌+◌, ◌-◌, ◌*◌, ◌/◌, ◌%◌, ◌<◌, ◌≡◌, refl, sym, ◌∙◌, ap, true, false, some, ◌==◌, ltb,
  leb, ◌&&◌, if◌then◌else◌, update, Mem, arith,
}
use elephant_os.Driver.Setup.{swap_loop, swap_pairs_bytes}

-- the other place of a pair
abbrev partner : ℕ → ℕ
partner x = if x % 2 == 0 then x + 1 else x - 1

partner-below : (x half : ℕ) → x < 2 * half → partner x < 2 * half
partner-below x half lt = ground arith

partner-twice : (x : ℕ) → partner (partner x) ≡ x
partner-twice x = ground arith

swap_loop_lem :
    (left i : ℕ) (dst buf : Mem) (len : ℕ)
    → (len + 1) / 2 ≡ i + left
    → len < 255
    → (b : Mem) × (swap_loop (suc left) dst buf len (2 * i) (2 * i) ≡ some (b, 2 * (i + left)))
      × ((x : ℕ)
          → b x ≡ (if leb (2 * i) x && ltb x (2 * (i + left)) then dst (partner x) else buf x))
unfolding swap_loop
swap_loop_lem zero i dst buf len half short =
    let over : ltb (2 * i) len ≡ false = ground arith in
    let n : i + 0 ≡ i = omega arith in (buf, rw (swap_loop, over, n) refl, λ x. ground arith)
swap_loop_lem (suc left) i dst buf len half short =
    let more : ltb (2 * i) len ≡ true = ground arith in
    let b1 = update (update buf (2 * i + 1) (dst (2 * i))) (2 * i) (dst (2 * i + 1)) in
    let (b, run, bytes) = swap_loop_lem left (i + 1) dst b1 len (omega arith) short in
    let at : (2 * i + 2) % 256 ≡ 2 * (i + 1) = omega arith in
    let pos : 2 * i + 2 ≡ 2 * (i + 1) = omega arith in
    let n : i + 1 + left ≡ i + suc left = omega arith in
    (b, rw (swap_loop, more, at, pos, run, n) refl, λ x. ground (arith, bytes x))

-- For a length below 255, `swap_pairs_bytes` ends; it writes the bytes of each pair the other way
-- round, for an odd length one byte more than that, then a NUL, and nothing else.
swap_pairs_bytes_lem :
    (dst buf : Mem) (len : ℕ)
    → len < 255
    → (b : Mem) × (swap_pairs_bytes (suc ((len + 1) / 2)) dst buf len ≡ some b)
      × ((x : ℕ) → x < len → b x ≡ dst (partner x))
      × (b ((len + 1) / 2 * 2) ≡ 0)
      × ((x : ℕ) → (len + 1) / 2 * 2 < x → b x ≡ buf x)
unfolding swap_pairs_bytes
swap_pairs_bytes_lem dst buf len short =
    let (b, run, bytes) = swap_loop_lem ((len + 1) / 2) 0 dst buf len (omega arith) short in
    (
      update b (2 * (0 + (len + 1) / 2)) 0,
      rw run refl,
      λ x lt. ground (arith, bytes x),
      ground arith,
      λ x lt. ground (arith, bytes x),
    )

-- For an even length below 255, `swap_pairs_bytes` of what it has written gives the bytes back.
swap_pairs_bytes-twice :
    (dst buf buf' : Mem) (half : ℕ)
    → 2 * half < 255
    → (b b' : Mem) × (swap_pairs_bytes (suc half) dst buf (2 * half) ≡ some b)
      × (swap_pairs_bytes (suc half) b buf' (2 * half) ≡ some b')
      × ((x : ℕ) → x < 2 * half → b' x ≡ dst x)
swap_pairs_bytes-twice dst buf buf' half short =
    let n : (2 * half + 1) / 2 ≡ half = omega arith in
    let (b, run, bytes, nul, rest) = swap_pairs_bytes_lem dst buf (2 * half) short in
    let (b', run', bytes', nul', rest') = swap_pairs_bytes_lem b buf' (2 * half) short in
    (
      b,
      b',
      ap (λ k. swap_pairs_bytes (suc k) dst buf (2 * half)) (sym n) ∙ run,
      ap (λ k. swap_pairs_bytes (suc k) b buf' (2 * half)) (sym n) ∙ run',
      λ x lt. bytes' x lt ∙ bytes (partner x) (partner-below x half lt) ∙ ap dst (partner-twice x),
    )
