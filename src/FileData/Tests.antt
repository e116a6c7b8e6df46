-- ===== src/FileData/Tests.antt =====
-- Instances of the theorems about writing and reading files.
use elephant_os.Base.{
  ℕ, ◌+◌, ◌/◌, ◌%◌, ◌<◌, ◌≤◌, ◌≡◌, refl, ap, true, some, arith, ltb, ◌==◌, if◌then◌else◌, Mem, done,
  panic,
}
use elephant_os.Bitmap.{Bitmap, bitmap_scan_test}
use elephant_os.Bitmap.Set.{IsValid}
use elephant_os.Base.Bits.{bit_set}
use elephant_os.Disk.{Partition}
use elephant_os.Disk.Encoding.{IsWord}
use elephant_os.Disk.Alloc.{Agrees}
use elephant_os.Disk.Free.{free_count, free_blocks}
use elephant_os.Disk.Layout.{IsLaidOut, Owns}
use elephant_os.FileData.{OpenFile, file_write, file_read}
use elephant_os.FileData.Planned.{IsFile, has_used}
use elephant_os.FileData.ReadLoop.{content}
use elephant_os.FileData.Write.{file_write_full}
use elephant_os.FileData.Read.{file_read_lem}

-- a map of 64 blocks of which the first two are taken
abbrev pub two_taken : Bitmap
two_taken = record { btmp_bytes_len = 8; bits = λ i. if i == 0 then 3 else 0 }

abbrev pub small_part : Partition
small_part = record {
  start_lba = 0;
  sec_cnt = 2000;
  sb = record {
    block_bitmap_lba = 10;
    inode_bitmap_lba = 20;
    inode_table_lba = 30;
    data_start_lba = 700;
    dir_entry_size = 24;
    magic = 0x19590318;
    sec_cnt = 2000;
    inode_cnt = 4096;
    part_lba_base = 0;
    block_bitmap_sects = 1;
    inode_bitmap_sects = 1;
    inode_table_sects = 608;
    root_inode_no = 0;
  };
  block_bitmap = two_taken;
  inode_bitmap = two_taken;
  disk = λ a. if a == 5120 then 3 else if ltb a 5632 then 0 else a % 256;
}

-- a file of ten bytes in block 701
abbrev pub short_file : OpenFile
short_file = record {
  part = small_part;
  inode = record {
    i_no = 5;
    i_size = 10;
    i_open_cnts = 1;
    write_deny = true;
    i_sectors = λ n. if n == 0 then 701 else 0;
  };
  fd_pos = 4;
}

two_taken-IsValid : IsValid two_taken
two_taken-IsValid = record { bytes = λ i. ground arith; small = omega arith }

pub small_part-IsLaidOut : IsLaidOut small_part
small_part-IsLaidOut = record {
  blocks = record { valid = two_taken-IsValid; on_disk = omega arith; in_range = omega arith };
  table = record { on_disk = omega arith; in_partition = omega arith; small = omega arith };
  bitmap_first = omega arith;
  data_last = omega arith;
  on_disk = omega arith;
}

short_file-Owns : Owns small_part short_file.inode.i_sectors (has_used short_file)
unfolding bitmap_scan_test bit_set
short_file-Owns = record {
  in_use = λ j lt.
      let at : j ≡ 0 = omega arith in
      rw at (record { from_start = omega arith; inside = omega arith; is_taken = refl });
  apart = λ i j less lt. absurd (omega arith);
}

pub short_file-IsFile : IsFile short_file
short_file-IsFile = record {
  owns = short_file-Owns;
  rest_empty = λ j le lt. ground arith;
  direct = omega arith;
  number = omega arith;
  table_sector = omega arith;
}

pub short_file-IsWord : IsWord short_file.inode
short_file-IsWord = record {
  no_small = omega arith;
  size_small = omega arith;
  cnts_small = omega arith;
  sectors_small = λ n lt. ground arith;
}

pub small_part-Agrees :
    Agrees small_part.disk small_part.sb.block_bitmap_lba small_part.block_bitmap
unfolding Agrees bitmap_scan_test
small_part-Agrees j lt =
    let same : small_part.disk (5120 + j / 8) ≡ two_taken.bits (j / 8) = ground arith in
    ap (λ m. bit_set m (j % 8)) same

pub two_taken_free : 1 ≤ free_blocks two_taken
unfolding free_count bitmap_scan_test bit_set
two_taken_free = let count : free_blocks two_taken ≡ 62 = refl in omega arith

-- 600 bytes need one more block
abbrev pub text : Mem
text k = 65 + k % 26

file_read_lem_example :
    (buf' : Mem) × (file_read (some (λ x. 0)) short_file text 100
      ≡ done (some 6, buf', record short_file { fd_pos = 10 }))
    × ((k : ℕ) → k < 6 → buf' k ≡ content small_part.disk short_file.inode.i_sectors (4 + k))
    × ((a : ℕ) → 6 ≤ a → buf' a ≡ text a)
file_read_lem_example =
    file_read_lem short_file (λ x. 0) text 100 small_part-IsLaidOut short_file-Owns (omega arith)
      (omega arith) (omega arith)

file_write_full_example : file_write (some (λ x. 0)) (some (λ x. 0)) short_file text 71670 ≡ panic
file_write_full_example = file_write_full short_file (λ x. 0) (λ x. 0) text 71670 refl (omega arith)
