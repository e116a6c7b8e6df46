-- ===== src/Disk/Alloc.antt =====
-- Allocating blocks and inodes, and the copy of a bitmap that the disk keeps.
use elephant_os.Base.{
  ℕ, ◌+◌, ◌*◌, ◌/◌, ◌%◌, ◌^◌, ◌<◌, ◌≤◌, ◌≡◌, ◌≢◌, refl, ◌∙◌, sym, ap, inl, inr, Bool, true, false,
  some, arith, ltb, leb, ◌==◌, ◌||◌, Mem, done, panic, Bool-cases,
}
use elephant_os.Base.Bits.{bit_set}
use elephant_os.Bitmap.{Bitmap, bitmap_scan_test, bitmap_scan}
use elephant_os.Bitmap.Set.{IsValid, set_bit, bitmap_set_one, scan_test-set_bit, set_bit-IsValid}
use elephant_os.Bitmap.Scan.{scan-lowest, scan_full}
use elephant_os.Disk.{
  Partition, BitmapType, max_lba, block_size, copy, write_sectors, bitmap_sync, inode_bitmap_alloc,
  block_bitmap_alloc,
}
use elephant_os.Disk.Bytes.{copy-inside, copy-before, copy-behind}

-- the bit of a bitmap that starts at sector `lba` of the disk
abbrev pub disk_bit : Mem → ℕ → ℕ → Bool
disk_bit disk lba j = bit_set (disk (lba * 512 + j / 8)) (j % 8)

-- the disk's copy of a bitmap is the one in memory
unfoldable pub Agrees : Mem → ℕ → Bitmap → Type 0
Agrees disk lba b = (j : ℕ) → j < b.btmp_bytes_len * 8 → disk_bit disk lba j ≡ bitmap_scan_test b j

-- the disk with one sector of the bitmap written
abbrev pub synced : Mem → ℕ → Bitmap → ℕ → Mem
synced disk lba b r =
    copy disk ((lba + r / 4096) * 512) (λ x. b.bits (r / 4096 * block_size + x)) 512

module _ (disk : Mem) (lba : ℕ) (b : Bitmap) (r : ℕ) where
  disk_bit-inside :
      (j : ℕ) → j / 4096 ≡ r / 4096 → disk_bit (synced disk lba b r) lba j ≡ bitmap_scan_test b j
  unfolding bitmap_scan_test
  disk_bit-inside j same =
      ap (λ m. bit_set m (j % 8))
        (copy-inside disk (λ x. b.bits (r / 4096 * block_size + x)) ((lba + r / 4096) * 512) 512
            (lba * 512 + j / 8) (omega arith) (omega arith)
          ∙ ap b.bits (omega arith))

  disk_bit-outside :
      (j : ℕ) → j / 4096 ≢ r / 4096 → disk_bit (synced disk lba b r) lba j ≡ disk_bit disk lba j
  disk_bit-outside j other = elim (Bool-cases (ltb (j / 4096) (r / 4096))) [
    | inl before ↦
        ap (λ m. bit_set m (j % 8))
          (copy-before disk _ ((lba + r / 4096) * 512) 512 (lba * 512 + j / 8) (ground arith))
    | inr behind ↦
        ap (λ m. bit_set m (j % 8))
          (copy-behind disk _ ((lba + r / 4096) * 512) 512 (lba * 512 + j / 8) (ground arith))
  ]

pub set_bit_len :
    (b : Bitmap) (r : ℕ) (v : Bool) → (set_bit b r v).btmp_bytes_len ≡ b.btmp_bytes_len
unfolding set_bit
set_bit_len b r v = refl

pub set_bit-Agrees :
    (disk : Mem) (lba : ℕ) (b : Bitmap) (r : ℕ) (v : Bool)
    → IsValid b
    → Agrees disk lba b
    → Agrees (synced disk lba (set_bit b r v) r) lba (set_bit b r v)
unfolding Agrees
set_bit-Agrees disk lba b r v valid agrees j lt =
    let inside : j < b.btmp_bytes_len * 8 = rw (set_bit_len b r v) at lt in
    elim (Bool-cases (j / 4096 == r / 4096)) [
      | inl same ↦ disk_bit-inside disk lba (set_bit b r v) r j (ground arith)
      | inr other ↦
          let apart : (r == j) ≡ false = ground arith in
          disk_bit-outside disk lba (set_bit b r v) r j (ground arith)
          ∙ agrees j inside
          ∙ sym (scan_test-set_bit b r j v valid ∙ rw apart refl)
    ]

-- the bitmap of the blocks is valid, its sectors are on the disk, and block addresses have 32 bits
pub record HasBlocks (p : Partition) : Type 0 where
  pub valid : IsValid p.block_bitmap
  pub on_disk : p.sb.block_bitmap_lba + p.block_bitmap.btmp_bytes_len / 512 ≤ max_lba
  pub in_range : p.sb.data_start_lba + p.block_bitmap.btmp_bytes_len * 8 < 2 ^ 32

abbrev pub with_block : Partition → ℕ → Bool → Partition
with_block p r v = record p { block_bitmap = set_bit p.block_bitmap r v }

abbrev pub with_disk : Partition → Mem → Partition
with_disk p d = record p { disk = d }

pub bitmap_sync_block :
    (p : Partition) (r : ℕ)
    → HasBlocks p
    → r < p.block_bitmap.btmp_bytes_len * 8
    → bitmap_sync p r BitmapType.block_bitmap_type
      ≡ done (with_disk p (synced p.disk p.sb.block_bitmap_lba p.block_bitmap r))
unfolding bitmap_sync write_sectors
bitmap_sync_block p r h lt =
    let near : leb (p.sb.block_bitmap_lba + r / 4096) max_lba ≡ true = ground (arith, h.on_disk) in
    let small : (p.sb.block_bitmap_lba + r / 4096) % 2 ^ 32 ≡ p.sb.block_bitmap_lba + r / 4096 =
      ground (arith, h.on_disk) in
    rw (small, near) refl

block_bitmap_alloc_found :
    (p : Partition) (r : ℕ)
    → HasBlocks p
    → r < p.block_bitmap.btmp_bytes_len * 8
    → bitmap_scan p.block_bitmap 1 ≡ done (some r)
    → block_bitmap_alloc p ≡ done (some (p.sb.data_start_lba + r), with_block p r true)
unfolding block_bitmap_alloc
block_bitmap_alloc_found p r h lt scan =
    let small : (p.sb.data_start_lba + r) % 2 ^ 32 ≡ p.sb.data_start_lba + r =
      omega (arith, h.in_range) in
    rw (scan, bitmap_set_one p.block_bitmap r, small) refl

pub HasBlocks-with_block :
    (p : Partition) (r : ℕ) (v : Bool) → HasBlocks p → HasBlocks (with_block p r v)
unfolding set_bit
HasBlocks-with_block p r v h = record {
  valid = set_bit-IsValid p.block_bitmap r v h.valid;
  on_disk = h.on_disk;
  in_range = h.in_range;
}

pub taken :
    (p : Partition) (r j : ℕ)
    → HasBlocks p
    → bitmap_scan_test (with_block p r true).block_bitmap j
      ≡ ((r == j) || bitmap_scan_test p.block_bitmap j)
taken p r j h =
    scan_test-set_bit p.block_bitmap r j true h.valid
    ∙ elim (Bool-cases (r == j)) [ inl e ↦ rw e refl | inr e ↦ rw e refl ]

-- the partition after a block is allocated and the bitmap is written
abbrev pub after_alloc : Partition → ℕ → Partition
after_alloc p r =
    with_disk (with_block p r true)
      (synced p.disk p.sb.block_bitmap_lba (set_bit p.block_bitmap r true) r)

pub alloc_block :
    (p : Partition) (s : ℕ)
    → HasBlocks p
    → s < p.block_bitmap.btmp_bytes_len * 8
    → bitmap_scan_test p.block_bitmap s ≡ false
    → (r : ℕ) × (block_bitmap_alloc p ≡ done (some (p.sb.data_start_lba + r), with_block p r true))
      × (bitmap_sync (with_block p r true) r BitmapType.block_bitmap_type ≡ done (after_alloc p r))
      × (r ≤ s)
      × (bitmap_scan_test p.block_bitmap r ≡ false)
alloc_block p s h inside free =
    let (r, scan, low, clear, below) = scan-lowest p.block_bitmap s h.valid inside free in
    (
      r,
      block_bitmap_alloc_found p r h low scan,
      bitmap_sync_block (with_block p r true) r (HasBlocks-with_block p r true h)
          (rw (set_bit_len p.block_bitmap r true) low),
      ground (arith, below s),
      clear,
    )

-- If some block is free, `block_bitmap_alloc` returns the address of the lowest free one; after the
-- `bitmap_sync` with which the code follows it, exactly that block is taken in addition, and the
-- disk's copy of the bitmap is the one in memory again.
pub block_bitmap_alloc-bitmap_sync :
    (p : Partition) (s : ℕ)
    → HasBlocks p
    → Agrees p.disk p.sb.block_bitmap_lba p.block_bitmap
    → s < p.block_bitmap.btmp_bytes_len * 8
    → bitmap_scan_test p.block_bitmap s ≡ false
    → (r : ℕ) × (p1 p2 : Partition) × (block_bitmap_alloc p
        ≡ done (some (p.sb.data_start_lba + r), p1))
      × (bitmap_sync p1 r BitmapType.block_bitmap_type ≡ done p2)
      × (r ≤ s)
      × (bitmap_scan_test p.block_bitmap r ≡ false)
      × ((j : ℕ)
          → bitmap_scan_test p2.block_bitmap j ≡ ((r == j) || bitmap_scan_test p.block_bitmap j))
      × Agrees p2.disk p2.sb.block_bitmap_lba p2.block_bitmap
block_bitmap_alloc-bitmap_sync p s h agrees inside free =
    let (r, alloc, sync, below, clear) = alloc_block p s h inside free in
    (
      r,
      with_block p r true,
      after_alloc p r,
      alloc,
      sync,
      below,
      clear,
      λ j. taken p r j h,
      set_bit-Agrees p.disk p.sb.block_bitmap_lba p.block_bitmap r true h.valid agrees,
    )

-- If every block and every inode is taken, `block_bitmap_alloc` and `inode_bitmap_alloc` stop in the
-- `ASSERT` of the scan, and never return -1.
alloc_full :
    (p : Partition)
    → IsValid p.block_bitmap
    → IsValid p.inode_bitmap
    → ((j : ℕ) → j < p.block_bitmap.btmp_bytes_len * 8 → bitmap_scan_test p.block_bitmap j ≡ true)
    → ((j : ℕ) → j < p.inode_bitmap.btmp_bytes_len * 8 → bitmap_scan_test p.inode_bitmap j ≡ true)
    → (block_bitmap_alloc p ≡ panic) × (inode_bitmap_alloc p ≡ panic)
unfolding block_bitmap_alloc inode_bitmap_alloc
alloc_full p v w blocks inodes =
    (rw (scan_full p.block_bitmap 1 v blocks) refl, rw (scan_full p.inode_bitmap 1 w inodes) refl)
