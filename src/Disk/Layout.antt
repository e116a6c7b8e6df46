-- ===== src/Disk/Layout.antt =====
-- The parts of a partition on the disk, and what the allocation of a block leaves of it.
use elephant_os.Base.{
  ℕ, ◌+◌, ◌-◌, ◌*◌, ◌/◌, ◌<◌, ◌≤◌, ◌≡◌, ◌≢◌, refl, ◌∙◌, true, false, arith, ==_self,
}
use elephant_os.Bitmap.{bitmap_scan_test}
use elephant_os.Bitmap.Set.{set_bit}
use elephant_os.Disk.{Partition, max_lba}
use elephant_os.Disk.Bytes.{copy-behind}
use elephant_os.Disk.Inodes.{HasTable}
use elephant_os.Disk.Alloc.{HasBlocks, HasBlocks-with_block, after_alloc, taken, set_bit_len}

-- The parts of the partition follow each other: the bitmap of the blocks, the table of inodes, and
-- the blocks, the last of which is on the disk.
pub record IsLaidOut (p : Partition) : Type 0 where
  pub blocks : HasBlocks p
  pub table : HasTable p
  pub bitmap_first :
      p.sb.block_bitmap_lba + (p.block_bitmap.btmp_bytes_len + 511) / 512 ≤ p.sb.inode_table_lba
  pub data_last : p.sb.inode_table_lba + 609 ≤ p.sb.data_start_lba
  pub on_disk : p.sb.data_start_lba + p.block_bitmap.btmp_bytes_len * 8 ≤ max_lba + 1

-- a block of the partition that the bitmap has as taken
pub record InUse (p : Partition) (lba : ℕ) : Type 0 where
  pub from_start : p.sb.data_start_lba ≤ lba
  pub inside : lba < p.sb.data_start_lba + p.block_bitmap.btmp_bytes_len * 8
  pub is_taken : bitmap_scan_test p.block_bitmap (lba - p.sb.data_start_lba) ≡ true

-- the first `n` sectors of an inode are different blocks in use
pub record Owns (p : Partition) (sectors : ℕ → ℕ) (n : ℕ) : Type 0 where
  pub in_use : (j : ℕ) → j < n → InUse p (sectors j)
  pub apart : (i j : ℕ) → i < j → j < n → sectors i ≢ sectors j

module _ (p : Partition) (r : ℕ) (h : IsLaidOut p) where
  pub IsLaidOut-after_alloc : IsLaidOut (after_alloc p r)
  unfolding set_bit
  IsLaidOut-after_alloc = record {
    blocks = record {
      valid = (HasBlocks-with_block p r true h.blocks).valid;
      on_disk = h.blocks.on_disk;
      in_range = h.blocks.in_range;
    };
    table = record {
      on_disk = h.table.on_disk;
      in_partition = h.table.in_partition;
      small = h.table.small;
    };
    bitmap_first = h.bitmap_first;
    data_last = h.data_last;
    on_disk = h.on_disk;
  }

  pub InUse-after_alloc : (lba : ℕ) → InUse p lba → InUse (after_alloc p r) lba
  InUse-after_alloc lba u = record {
    from_start = u.from_start;
    inside = rw (set_bit_len p.block_bitmap r true) u.inside;
    is_taken = ground (arith, taken p r (lba - p.sb.data_start_lba) h.blocks, u.is_taken);
  }

  pub InUse-new :
      r < p.block_bitmap.btmp_bytes_len * 8 → InUse (after_alloc p r) (p.sb.data_start_lba + r)
  InUse-new lt =
      let at : p.sb.data_start_lba + r - p.sb.data_start_lba ≡ r = omega arith in
      record {
        from_start = omega arith;
        inside = rw (set_bit_len p.block_bitmap r true) (omega arith);
        is_taken = rw at (taken p r r h.blocks ∙ rw (==_self r) refl);
      }

  -- a taken block is not the one that was free
  pub InUse-apart :
      (lba : ℕ)
      → InUse p lba
      → bitmap_scan_test p.block_bitmap r ≡ false
      → lba ≢ p.sb.data_start_lba + r
  InUse-apart lba u clear e =
      let at : lba - p.sb.data_start_lba ≡ r = omega arith in ground (arith, u.is_taken)

  pub disk_kept-after_alloc :
      (a : ℕ)
      → r < p.block_bitmap.btmp_bytes_len * 8
      → p.sb.inode_table_lba * 512 ≤ a
      → (after_alloc p r).disk a ≡ p.disk a
  disk_kept-after_alloc a lt le =
      copy-behind p.disk _ ((p.sb.block_bitmap_lba + r / 4096) * 512) 512 a
        (omega (arith, h.bitmap_first))
