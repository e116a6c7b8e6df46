-- ===== src/Format/Maps.antt =====
-- The map of the blocks that `partition_format` writes.
use elephant_os.Base.{
  ℕ, zero, suc, ◌+◌, ◌-◌, ◌*◌, ◌/◌, ◌%◌, ◌<◌, ◌≤◌, ◌≡◌, refl, ◌∙◌, ap, bit_and, bit_or, true, false,
  inl, inr, not, ◌&&◌, ◌||◌, arith, ◌==◌, ltb, leb, if◌then◌else◌, update, Mem, fill, fill_lem,
  Bool-cases, ==_self,
}
use elephant_os.Base.Bits.{
  bit_set, clear_mask, bit_set-bit_and, masked_range, bit_set_ends, all_below, all_below_sound, eqb,
  eqb_sound,
}
use elephant_os.Format.{clear_loop, block_map}

clear_loop-other :
    (left idx : ℕ) (buf : Mem) (at a : ℕ) → (a == at) ≡ false → clear_loop left idx buf at a ≡ buf a
unfolding clear_loop
clear_loop-other zero idx buf at a other = refl
clear_loop-other (suc left) idx buf at a other =
    clear_loop-other left (idx + 1) (update buf at (bit_and (buf at) (clear_mask idx))) at a other
    ∙ rw other refl

clear_loop-bits :
    (left idx : ℕ) (buf : Mem) (at j : ℕ)
    → buf at < 256
    → idx + left ≤ 8
    → j < 8
    → (bit_set (clear_loop left idx buf at at) j
        ≡ (not (leb idx j && ltb j (idx + left)) && bit_set (buf at) j))
      × (clear_loop left idx buf at at < 256)
unfolding clear_loop
clear_loop-bits zero idx buf at j byte le lt = (ground arith, byte)
clear_loop-bits (suc left) idx buf at j byte le lt =
    let buf' = update buf at (bit_and (buf at) (clear_mask idx)) in
    let now : buf' at ≡ bit_and (buf at) (clear_mask idx) = rw (==_self at) refl in
    let (rest, small) =
      clear_loop-bits left (idx + 1) buf' at j
        (rw now (masked_range (buf at) idx byte (omega arith)).1) (omega arith) lt in
    (
      ground (
        arith,
        rest,
        ap (λ b. bit_set b j) now,
        bit_set-bit_and (buf at) idx j byte (omega arith) lt,
      ),
      small,
    )

one_table : all_below 8 (λ i. eqb (bit_set 1 i) (i == 0)) ≡ true
unfolding all_below bit_set
one_table = refl

pub bit_set-one : (i : ℕ) → i < 8 → bit_set 1 i ≡ (i == 0)
bit_set-one i lt =
    eqb_sound _ _ (all_below_sound 8 (λ i. eqb (bit_set 1 i) (i == 0)) i one_table lt)

-- the byte that is only partly in use
module _ (n : ℕ) where
  filled : Mem
  filled = fill (update (λ x. 0) 0 (bit_or 0 1)) (n / 8) 0xff (512 - n / 8 % 512)

  filled_lem :
      (a : ℕ)
      → filled a ≡ (
          if leb (n / 8) a && ltb a (n / 8 + (512 - n / 8 % 512))
          then 0xff
          else (if a == 0 then 1 else 0))
  unfolding filled
  filled_lem a = fill_lem (update (λ x. 0) 0 (bit_or 0 1)) (n / 8) 0xff (512 - n / 8 % 512) a

  block_map-filled : block_map n ≡ clear_loop (n % 8 + 1) 0 filled (n / 8)
  unfolding block_map filled
  block_map-filled = refl

  -- every other byte
  whole_byte :
      (j : ℕ)
      → (j / 8 == n / 8) ≡ false
      → j < (n / 4096 + 1) * 4096
      → (bit_set (filled (j / 8)) (j % 8) ≡ ((j == 0) || ltb n j)) × (filled (j / 8) < 256)
  whole_byte j other inside = elim (Bool-cases (ltb (n / 8) (j / 8))) [
    | inl above ↦
        let full : filled (j / 8) ≡ 255 = ground (arith, filled_lem (j / 8)) in
        rw full (ground (arith, bit_set_ends (j % 8) (omega arith)), omega arith)
    | inr below ↦
        let low : filled (j / 8) ≡ (if j / 8 == 0 then 1 else 0) =
          ground (arith, filled_lem (j / 8)) in
        elim (Bool-cases (j / 8 == 0)) [
          | inl first ↦
              rw (low, first) (ground (arith, bit_set-one (j % 8) (omega arith)), omega arith)
          | inr later ↦
              rw (low, later) (ground (arith, bit_set_ends (j % 8) (omega arith)), omega arith)
        ]
  ]

  -- Bits of the map, for at least 8 blocks, up to the end of the sector of the last one.
  pub block_map_lem :
      (j : ℕ)
      → 8 ≤ n
      → j < (n / 4096 + 1) * 4096
      → (bit_set (block_map n (j / 8)) (j % 8) ≡ ((j == 0) || ltb n j))
        × (block_map n (j / 8) < 256)
  block_map_lem j some inside = rw block_map-filled (elim (Bool-cases (j / 8 == n / 8)) [
    | inl same ↦
        let at : j / 8 ≡ n / 8 = ground arith in
        let full : filled (n / 8) ≡ 255 = ground (arith, filled_lem (n / 8)) in
        let (bits, small) =
          clear_loop-bits (n % 8 + 1) 0 filled (n / 8) (j % 8) (rw full (omega arith)) (omega arith)
            (omega arith) in
        rw at (
          bits
              ∙ ground (
                arith,
                full,
                bit_set_ends (j % 8) (omega arith),
                ap (λ b. bit_set b (j % 8)) full,
              ),
          small,
        )
    | inr other ↦
        rw (clear_loop-other (n % 8 + 1) 0 filled (n / 8) (j / 8) other) (whole_byte j other inside)
  ])
