-- ===== src/FileData/WriteLoop.antt =====
-- The data loop of `file_write`.
use elephant_os.Base.{
  ℕ, zero, suc, ◌+◌, ◌-◌, ◌/◌, ◌%◌, ◌^◌, ◌<◌, ◌≤◌, ◌≡◌, ◌⊎◌, refl, ◌∙◌, sym, ap, inl, inr, Bool,
  true, false, arith, ltb, leb, Mem, done, Bool-cases,
}
use elephant_os.Disk.{max_lba, read_sectors, write_sectors}
use elephant_os.FileData.{OpenFile, advance, chunk, write_loop}
use elephant_os.FileData.ReadLoop.{content, OnDisk, OnDisk-at, OnDisk-rest, chunk_lem}
use elephant_os.FileData.Rounds.{Apart, Kept, Apart-rest, after_round, round_bytes, round_unchanged}

-- A file whose size and position have 32 bits is itself with no byte added.
advance_zero :
    (f : OpenFile) → f.inode.i_size < 2 ^ 32 → f.fd_pos < 2 ^ 32 → advance f f.part.disk 0 ≡ f
advance_zero f small small' =
    let size : (f.inode.i_size + 0) % 2 ^ 32 ≡ f.inode.i_size = omega arith in
    let pos : (f.fd_pos + 0) % 2 ^ 32 ≡ f.fd_pos = omega arith in rw (size, pos) refl

advance_twice :
    (f : OpenFile) (d d' : Mem) (a b c : ℕ)
    → a + b ≡ c
    → advance (advance f d a) d' b ≡ advance f d' c
advance_twice f d d' a b c e =
    let size : ((f.inode.i_size + a) % 2 ^ 32 + b) % 2 ^ 32 ≡ (f.inode.i_size + c) % 2 ^ 32 =
      omega arith in
    let pos : ((f.fd_pos + a) % 2 ^ 32 + b) % 2 ^ 32 ≡ (f.fd_pos + c) % 2 ^ 32 = omega arith in
    rw (size, pos) refl

module _ (blocks : ℕ → ℕ) (buf : Mem) (count : ℕ) (count_small : count < 2 ^ 32) where
  -- what the loop does from a file of size `size` on
  abbrev Writes : ℕ → OpenFile → Bool → ℕ → ℕ → ℕ → Type 0
  Writes fuel f first size written left =
      (disk' : Mem) × (write_loop fuel blocks buf count f first written left
        ≡ done (advance f disk' left))
      × ((k : ℕ) → k < left → content disk' blocks (size + k) ≡ buf (written + k))
      × ((a : ℕ) → Kept blocks size left a → disk' a ≡ f.part.disk a)

  write_over :
      (fuel : ℕ) (f : OpenFile) (first : Bool) (size written left : ℕ)
      → ltb written count ≡ false
      → left ≡ 0
      → f.inode.i_size < 2 ^ 32
      → f.fd_pos < 2 ^ 32
      → Writes fuel f first size written left
  unfolding write_loop
  write_over zero f first size written left over none_left small pos = (
    f.part.disk,
    rw (write_loop, over, none_left) (ap done (sym (advance_zero f small pos))),
    λ k lt. absurd (omega arith),
    λ a k. refl,
  )
  write_over (suc fuel) f first size written left over none_left small pos = (
    f.part.disk,
    rw (write_loop, over, none_left) (ap done (sym (advance_zero f small pos))),
    λ k lt. absurd (omega arith),
    λ a k. refl,
  )

  write_round :
      (fuel : ℕ) (f : OpenFile) (first : Bool) (size written left : ℕ)
      → f.inode.i_size ≡ size
      → ltb written count ≡ true
      → leb (blocks (size / 512)) max_lba ≡ true
      → (written + chunk left size) % 2 ^ 32 ≡ written + chunk left size
      → (left + 2 ^ 32 - chunk left size) % 2 ^ 32 ≡ left - chunk left size
      → write_loop (suc fuel) blocks buf count f first written left
        ≡ write_loop fuel blocks buf count
            (advance f
              (after_round f.part.disk blocks buf size written left (chunk left size) first)
              (chunk left size))
            false
            (written + chunk left size)
            (left - chunk left size)
  unfolding write_loop read_sectors write_sectors
  write_round fuel f first size written left e more near moved rest = elim (Bool-cases first) [
    | inl yes_first ↦ rw (write_loop, more, yes_first, e, near, moved, rest) refl
    | inr not_first ↦ rw (write_loop, more, not_first, e, near, moved, rest) refl
  ]

  write_rounds :
      (fuel : ℕ) (f : OpenFile) (first : Bool) (size written left : ℕ)
      → f.inode.i_size ≡ size
      → written + left ≡ count
      → left ≤ fuel
      → size + left < 2 ^ 32
      → f.fd_pos < 2 ^ 32
      → (0 < left → (first ≡ true) ⊎ (size % 512 ≡ 0))
      → OnDisk blocks size left
      → Apart blocks size left
      → Writes fuel f first size written left
  unfolding write_loop read_sectors write_sectors
  write_rounds zero f first size written left e sum enough small pos start near apart =
      write_over zero f first size written left (ground arith) (omega arith) (omega arith) pos
  write_rounds (suc fuel) f first size written left e sum enough small pos start near apart =
      elim (Bool-cases (ltb written count)) [
        | inr over ↦
            write_over (suc fuel) f first size written left over (ground arith) (omega arith) pos
        | inl more ↦
            let c = chunk left size in
            let disk1 = after_round f.part.disk blocks buf size written left c first in
            let f1 = advance f disk1 c in
            let some_left : 0 < left = ground arith in
            let (c_left, c_room, c_pos, c_end) = chunk_lem left size in
            let lba_near = OnDisk-at blocks size left some_left near in
            let moved : (f.inode.i_size + c) % 2 ^ 32 ≡ size + c = omega arith in
            let written_moved : (written + c) % 2 ^ 32 ≡ written + c = omega arith in
            let left_moved : (left + 2 ^ 32 - c) % 2 ^ 32 ≡ left - c = omega arith in
            let boundary : 0 < left - c → (false ≡ true) ⊎ ((size + c) % 512 ≡ 0) =
              λ rest. let at_end = c_end (omega arith) in inr (omega arith) in
            let (disk', run, bytes, kept) =
              write_rounds fuel f1 false (size + c) (written + c) (left - c) moved (omega arith)
                (omega arith) (omega arith) (omega arith) boundary
                (OnDisk-rest blocks size left c near c_left)
                (Apart-rest blocks size left c apart c_left) in
            (
              disk',
              write_round fuel f first size written left e more lba_near written_moved left_moved
                  ∙ run
                  ∙ ap done (advance_twice f disk1 disk' c (left - c) left (omega arith)),
              round_bytes f.part.disk blocks buf size written left c first disk' c_left c_room
                  some_left c_end (start some_left) apart bytes kept,
              round_unchanged f.part.disk blocks buf size written left c first disk' c_left c_room
                  some_left c_end (start some_left) apart bytes kept,
            )
      ]

-- If the blocks of the positions that are written are on the disk and different, `count` rounds of
-- the loop are enough; they write the bytes of the buffer, one after the other, behind the end of
-- the file, the size and the position of the file grow by `count`, and no byte of the disk changes
-- that is outside those blocks, or in the first of them before the end of the file.
pub write_loop_lem :
    (blocks : ℕ → ℕ) (buf : Mem) (count : ℕ) (f : OpenFile)
    → f.inode.i_size + count < 2 ^ 32
    → f.fd_pos < 2 ^ 32
    → OnDisk blocks f.inode.i_size count
    → Apart blocks f.inode.i_size count
    → (disk' : Mem) × (write_loop count blocks buf count f true 0 count
        ≡ done (advance f disk' count))
      × ((k : ℕ) → k < count → content disk' blocks (f.inode.i_size + k) ≡ buf k)
      × ((a : ℕ) → Kept blocks f.inode.i_size count a → disk' a ≡ f.part.disk a)
write_loop_lem blocks buf count f small pos near apart =
    let (disk', run, bytes, kept) =
      write_rounds blocks buf count (omega arith) count f true f.inode.i_size 0 count refl
        (omega arith) (omega arith) small pos (λ some. inl refl) near apart in
    (disk', run, λ k lt. bytes k lt ∙ ap buf (omega arith), kept)
