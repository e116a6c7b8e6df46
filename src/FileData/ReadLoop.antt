-- ===== src/FileData/ReadLoop.antt =====
-- The data loop of `file_read`.
use elephant_os.Base.{
  ℕ, zero, suc, ◌+◌, ◌-◌, ◌*◌, ◌/◌, ◌%◌, ◌^◌, ◌<◌, ◌≤◌, ◌≡◌, ◌⊎◌, refl, ◌∙◌, sym, ap, inl, inr,
  true, false, arith, ltb, leb, Mem, done, Bool-cases,
}
use elephant_os.Disk.{block_size, max_lba, copy, read_sectors}
use elephant_os.Disk.Bytes.{copy-inside, copy-before, copy-behind, copy-start}
use elephant_os.FileData.{chunk, read_loop}

-- the disk address of a position in a file with these blocks, and the byte there
abbrev pub address : (ℕ → ℕ) → ℕ → ℕ
address blocks pos = blocks (pos / block_size) * 512 + pos % block_size

abbrev pub content : Mem → (ℕ → ℕ) → ℕ → ℕ
content disk blocks pos = disk (address blocks pos)

-- the blocks of the positions from `pos` to `pos + size` are on the disk
unfoldable pub OnDisk : (ℕ → ℕ) → ℕ → ℕ → Type 0
OnDisk blocks pos size = (x : ℕ) → pos ≤ x → x < pos + size → blocks (x / block_size) ≤ max_lba

pub chunk_lem :
    (left pos : ℕ)
    → (chunk left pos ≤ left)
      × (chunk left pos ≤ 512 - pos % 512)
      × (0 < left → 0 < chunk left pos)
      × (chunk left pos < left → chunk left pos ≡ 512 - pos % 512)
chunk_lem left pos = ground arith

pub OnDisk-at :
    (blocks : ℕ → ℕ) (pos size : ℕ)
    → 0 < size
    → OnDisk blocks pos size
    → leb (blocks (pos / block_size)) max_lba ≡ true
unfolding OnDisk
OnDisk-at blocks pos size some near = ground (arith, near pos)

pub OnDisk-rest :
    (blocks : ℕ → ℕ) (pos size c : ℕ)
    → OnDisk blocks pos size
    → c ≤ size
    → OnDisk blocks (pos + c) (size - c)
unfolding OnDisk
OnDisk-rest blocks pos size c near le x lo hi = near x (omega arith) (omega arith)

-- a byte of the sector in which `pos` lies, behind `pos`
pub content-sector :
    (disk : Mem) (blocks : ℕ → ℕ) (pos k : ℕ)
    → k < 512 - pos % 512
    → content disk blocks (pos + k) ≡ disk (blocks (pos / 512) * 512 + (pos % 512 + k))
content-sector disk blocks pos k lt =
    let quot : (pos + k) / 512 ≡ pos / 512 = omega arith in
    let rest : (pos + k) % 512 ≡ pos % 512 + k = omega arith in rw (quot, rest) refl

-- One round, with what the rest of the loop leaves behind it.
module _ (disk : Mem) (blocks : ℕ → ℕ) (pos start left c : ℕ) (buf buf' : Mem) where
  abbrev sector : Mem
  sector = copy (λ x. 0) 0 (λ x. disk (blocks (pos / 512) * 512 + x)) 512

  abbrev after_round : Mem
  after_round = copy buf start (λ x. sector (pos % 512 + x)) c

  module _ (c_left : c ≤ left) (c_room : c ≤ 512 - pos % 512)
      (bytes : (k : ℕ) → k < left - c → buf' (start + c + k) ≡ content disk blocks (pos + c + k))
      (others : (a : ℕ)
        → (a < start + c) ⊎ (start + c + (left - c) ≤ a)
        → buf' a ≡ after_round a) where
    round_bytes : (k : ℕ) → k < left → buf' (start + k) ≡ content disk blocks (pos + k)
    round_bytes k lt = elim (Bool-cases (ltb k c)) [
      | inl first ↦
          let less : k < c = ground arith in
          let slide : start + k - start ≡ k = omega arith in
          others (start + k) (inl (omega arith))
          ∙ copy-inside buf (λ x. sector (pos % 512 + x)) start c (start + k) (omega arith)
              (omega arith)
          ∙ ap (λ y. sector (pos % 512 + y)) slide
          ∙ copy-start (λ x. 0) (λ x. disk (blocks (pos / 512) * 512 + x)) 512 (pos % 512 + k)
              (omega arith)
          ∙ sym (content-sector disk blocks pos k (omega arith))
      | inr later ↦
          let more : c ≤ k = ground arith in
          let left_slide : start + k ≡ start + c + (k - c) = omega arith in
          let right_slide : pos + c + (k - c) ≡ pos + k = omega arith in
          ap buf' left_slide ∙ bytes (k - c) (omega arith) ∙ ap (content disk blocks) right_slide
    ]

    round_others : (a : ℕ) → (a < start) ⊎ (start + left ≤ a) → buf' a ≡ buf a
    round_others a (inl before) = others a (inl (omega arith)) ∙ copy-before buf _ start c a before
    round_others a (inr behind) =
        others a (inr (omega arith)) ∙ copy-behind buf _ start c a (omega arith)

-- The loop reads the bytes of the file from the position on, one after the other, into the buffer,
-- and moves the position behind them.
pub read_loop_lem :
    (fuel : ℕ) (blocks : ℕ → ℕ) (disk : Mem) (size pos : ℕ) (buf : Mem) (start left : ℕ)
    → start + left ≡ size
    → left ≤ fuel
    → pos + left < 2 ^ 32
    → size < 2 ^ 32
    → OnDisk blocks pos left
    → (buf' : Mem) × (read_loop fuel blocks disk size pos buf start left ≡ done (buf', pos + left))
      × ((k : ℕ) → k < left → buf' (start + k) ≡ content disk blocks (pos + k))
      × ((a : ℕ) → (a < start) ⊎ (start + left ≤ a) → buf' a ≡ buf a)
unfolding read_loop read_sectors
read_loop_lem zero blocks disk size pos buf start left sum enough small small' near =
    let over : ltb start size ≡ false = ground arith in
    let end : pos + left ≡ pos = omega arith in
    (buf, rw (read_loop, over, end) refl, λ k lt. absurd (omega arith), λ a o. refl)
read_loop_lem (suc fuel) blocks disk size pos buf start left sum enough small small' near =
    let c = chunk left pos in
    let io = copy (λ x. 0) 0 (λ x. disk (blocks (pos / 512) * 512 + x)) 512 in
    let buf1 = copy buf start (λ x. io (pos % 512 + x)) c in
    elim (Bool-cases (ltb start size)) [
      | inr over ↦
          let end : pos + left ≡ pos = ground arith in
          (buf, rw (read_loop, over, end) refl, λ k lt. absurd (ground arith), λ a o. refl)
      | inl more ↦
          let some_left : 0 < left = ground arith in
          let (c_left, c_room, c_pos, c_end) = chunk_lem left pos in
          let lba_near = OnDisk-at blocks pos left some_left near in
          let (buf', run, bytes, others) =
            read_loop_lem fuel blocks disk size (pos + c) buf1 (start + c) (left - c) (omega arith)
              (omega arith) (omega arith) small' (OnDisk-rest blocks pos left c near c_left) in
          let first_moved : (pos + c) % 2 ^ 32 ≡ pos + c = omega arith in
          let start_moved : (start + c) % 2 ^ 32 ≡ start + c = omega arith in
          let left_moved : (left + 2 ^ 32 - c) % 2 ^ 32 ≡ left - c = omega arith in
          let end : pos + c + (left - c) ≡ pos + left = omega arith in
          (
            buf',
            rw (read_loop, more, lba_near, first_moved, start_moved, left_moved)
                (run ∙ ap (λ x. done (buf', x)) end),
            round_bytes disk blocks pos start left c buf buf' c_left c_room bytes others,
            round_others disk blocks pos start left c buf buf' c_left c_room bytes others,
          )
    ]
