-- ===== src/Disk/Tests.antt =====
-- Instances of the theorems about inodes and bitmaps on the disk.
use elephant_os.Base.{
  ℕ, ◌+◌, ◌/◌, ◌%◌, ◌<◌, ◌≤◌, ◌≡◌, refl, ap, true, false, some, arith, ◌==◌, ◌||◌, if◌then◌else◌,
  done,
}
use elephant_os.Base.Bits.{bit_set, bit_set_ends}
use elephant_os.Bitmap.{Bitmap, bitmap_scan_test}
use elephant_os.Bitmap.Set.{IsValid}
use elephant_os.Files.{Inode}
use elephant_os.Disk.{
  Partition, BitmapType, inode_sync, read_inode, bitmap_sync, block_bitmap_alloc,
}
use elephant_os.Disk.Inodes.{HasTable, closed, inode_sync-read_inode}
use elephant_os.Disk.Encoding.{IsWord, SameInode}
use elephant_os.Disk.Alloc.{Agrees, HasBlocks, block_bitmap_alloc-bitmap_sync}

-- a map of 16 blocks of which the first three are taken
abbrev three_taken : Bitmap
three_taken = record { btmp_bytes_len = 2; bits = λ i. if i == 0 then 7 else 0 }

abbrev all_taken : Bitmap
all_taken = record { btmp_bytes_len = 2; bits = λ i. 255 }

abbrev part : Partition
part = record {
  start_lba = 0;
  sec_cnt = 2000;
  sb = record {
    block_bitmap_lba = 10;
    inode_bitmap_lba = 20;
    inode_table_lba = 30;
    data_start_lba = 700;
    dir_entry_size = 24;
    magic = 0x19590318;
    sec_cnt = 2000;
    inode_cnt = 4096;
    part_lba_base = 0;
    block_bitmap_sects = 1;
    inode_bitmap_sects = 1;
    inode_table_sects = 608;
    root_inode_no = 0;
  };
  block_bitmap = three_taken;
  inode_bitmap = three_taken;
  disk = λ a. if a == 5120 then 7 else 0;
}

part-HasTable : HasTable part
part-HasTable = record { on_disk = omega arith; in_partition = omega arith; small = omega arith }

part-HasBlocks : HasBlocks part
part-HasBlocks = record {
  valid = record { bytes = λ i. ground arith; small = omega arith };
  on_disk = omega arith;
  in_range = omega arith;
}

part-Agrees : Agrees part.disk 10 three_taken
unfolding Agrees bitmap_scan_test
part-Agrees j lt =
    let same : part.disk (5120 + j / 8) ≡ three_taken.bits (j / 8) = ground arith in
    ap (λ m. bit_set m (j % 8)) same

-- inode 300, which is written as inode 44
abbrev far_inode : Inode
far_inode = record {
  i_no = 300;
  i_size = 70000;
  i_open_cnts = 2;
  write_deny = true;
  i_sectors = λ n. 701 + n;
}

far_inode-IsWord : IsWord far_inode
far_inode-IsWord = record {
  no_small = omega arith;
  size_small = omega arith;
  cnts_small = omega arith;
  sectors_small = λ n lt. omega arith;
}

inode_sync-read_inode_example :
    (p' : Partition) × (j j0 : Inode) × (inode_sync part far_inode (λ x. 0) ≡ done p')
    × (read_inode p' 44 (λ x. 0) ≡ done j)
    × (read_inode part 44 (λ x. 0) ≡ done j0)
    × SameInode j (closed far_inode)
inode_sync-read_inode_example =
    inode_sync-read_inode part far_inode 44 (λ x. 0) part-HasTable far_inode-IsWord (omega arith)

bit_five_free : bitmap_scan_test three_taken 5 ≡ false
unfolding bitmap_scan_test bit_set
bit_five_free = refl

block_bitmap_alloc-bitmap_sync_example :
    (r : ℕ) × (p1 p2 : Partition) × (block_bitmap_alloc part ≡ done (some (700 + r), p1))
    × (bitmap_sync p1 r BitmapType.block_bitmap_type ≡ done p2)
    × (r ≤ 5)
    × (bitmap_scan_test three_taken r ≡ false)
    × ((j : ℕ) → bitmap_scan_test p2.block_bitmap j ≡ ((r == j) || bitmap_scan_test three_taken j))
    × Agrees p2.disk p2.sb.block_bitmap_lba p2.block_bitmap
block_bitmap_alloc-bitmap_sync_example =
    block_bitmap_alloc-bitmap_sync part 5 part-HasBlocks part-Agrees (omega arith) bit_five_free

abbrev full_part : Partition
full_part = record part { block_bitmap = all_taken; inode_bitmap = all_taken }

all_taken-IsValid : IsValid all_taken
all_taken-IsValid = record { bytes = λ i. omega arith; small = omega arith }

all_taken_lem : (j : ℕ) → j < 16 → bitmap_scan_test all_taken j ≡ true
unfolding bitmap_scan_test
all_taken_lem j lt = (bit_set_ends (j % 8) (omega arith)).1
