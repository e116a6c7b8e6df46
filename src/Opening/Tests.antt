-- ===== src/Opening/Tests.antt =====
-- Instances of the theorems about the opening and releasing of inodes.
use elephant_os.Base.{
  zero, suc, ◌+◌, ◌⊎◌, inl, inr, ◌/◌, ◌%◌, ◌||◌, ◌&&◌, not, ltb, arith, ℕ, ◌≡◌, refl, sym, ap,
  false, Option, none, some, [], ◌∷◌, ◌==◌, if◌then◌else◌, Outcome, done, panic,
}
use elephant_os.Files.{
  Inode, Files, inode_locate, get_free_slot_in_global, global_loop, pcb_fd_install, install_loop,
  inode_close,
}
use elephant_os.Disk.{Partition, read_inode, read_sectors, inode_from, word_at, copy}
use elephant_os.Opening.{find_open, inode_open, claim_file, file_open}
use elephant_os.Base.Bits.{bit_set}
use elephant_os.Bitmap.{bitmap_scan_test}
use elephant_os.Directory.{dir_blocks}
use elephant_os.Disk.Alloc.{Agrees, HasBlocks}
use elephant_os.Opening.Release.{inode_release}
use elephant_os.Opening.Freed.{Freed, IsBlock, listed}
use elephant_os.Opening.Released.{HasMaps, Cleared, inode_release_lem}
use elephant_os.Opening.Writers.{one_writer}

-- inode 1 lies 76 bytes into the table, and its number is its first word
abbrev part : Partition
part = record {
  start_lba = 0;
  sec_cnt = 2000;
  sb = record {
    block_bitmap_lba = 10;
    inode_bitmap_lba = 20;
    inode_table_lba = 30;
    data_start_lba = 700;
    dir_entry_size = 24;
    magic = 0x19590318;
    sec_cnt = 2000;
    inode_cnt = 4096;
    part_lba_base = 0;
    block_bitmap_sects = 1;
    inode_bitmap_sects = 1;
    inode_table_sects = 608;
    root_inode_no = 0;
  };
  block_bitmap = record { btmp_bytes_len = 2; bits = λ i. 0 };
  inode_bitmap = record { btmp_bytes_len = 2; bits = λ i. 0 };
  disk = λ a. if a == 15436 then 1 else 0;
}

abbrev nothing_open : Files
nothing_open = record {
  file_table = λ g. record { fd_pos = 0; fd_flag = 0; fd_inode = 0 };
  fd_table = λ fd. none;
  inodes =
      λ a. record { i_no = 0; i_size = 0; i_open_cnts = 0; write_deny = false; i_sectors = λ n. 0 };
  open_inodes = [];
}

abbrev number_of : Outcome Inode → ℕ
number_of (done i) = i.i_no
number_of panic = 0

part-numbered : (i : Inode) → read_inode part 1 (λ x. 0) ≡ done i → i.i_no ≡ 1
unfolding read_inode inode_locate read_sectors inode_from word_at copy
part-numbered i e = sym (ap number_of e)

abbrev after : Outcome (Option ℕ × Files) → Files
after (done r) = r.1
after panic = nothing_open

-- O_RDWR, and then O_WRONLY
one_writer_example :
    (s2 : Files) × (file_open part
        (record (after (file_open part nothing_open 1 2 0x5000 (λ x. 0))) {
          fd_table = λ fd. if fd == 3 then none else some fd;
        })
        1
        1
        0x6000
        (λ x. 0)
      ≡ done (none, s2))
unfolding file_open get_free_slot_in_global global_loop inode_open find_open read_inode inode_locate
    read_sectors claim_file inode_from word_at copy pcb_fd_install install_loop
one_writer_example =
    one_writer part part nothing_open (after (file_open part nothing_open 1 2 0x5000 (λ x. 0))) 1 2
      1 0x5000 0x6000 3 (λ x. 0) (λ x. 0) (λ fd. if fd == 3 then none else some fd) part-numbered
      refl refl refl

-- block 1 of 16 is taken by an inode
abbrev one_taken : Partition
one_taken = record part {
  block_bitmap = record { btmp_bytes_len = 2; bits = λ i. if i == 0 then 2 else 0 };
  disk = λ a. if a == 5120 then 2 else 0;
}

one_taken-HasBlocks : HasBlocks one_taken
one_taken-HasBlocks = record {
  valid = record { bytes = λ i. ground arith; small = omega arith };
  on_disk = omega arith;
  in_range = omega arith;
}

one_taken-Agrees : Agrees one_taken.disk 10 one_taken.block_bitmap
unfolding Agrees bitmap_scan_test
one_taken-Agrees j lt =
    let same : one_taken.disk (5120 + j / 8) ≡ one_taken.block_bitmap.bits (j / 8) = ground arith in
    ap (λ m. bit_set m (j % 8)) same

abbrev short_inode : Inode
short_inode = record {
  i_no = 1;
  i_size = 100;
  i_open_cnts = 1;
  write_deny = false;
  i_sectors = λ n. if n == 0 then 701 else 0;
}

abbrev short_blocks : ℕ → ℕ
short_blocks n = if ltb n 12 then short_inode.i_sectors n else 0

short_fit : (k : ℕ) → (short_blocks k ≡ 0) ⊎ IsBlock one_taken (short_blocks k)
short_fit zero = inr (record { block = 1; at = refl; positive = omega arith; inside = omega arith })
short_fit (suc k) = inl (ground arith)

-- inode 1 is open at 0x5000
abbrev one_open : Files
one_open = record nothing_open { inodes = λ a. short_inode; open_inodes = 0x5000 ∷ [] }

one_taken-HasMaps : HasMaps one_taken 1
unfolding Agrees bitmap_scan_test
one_taken-HasMaps = record {
  blocks = one_taken-HasBlocks;
  table = record { on_disk = omega arith; in_partition = omega arith; small = omega arith };
  map = record { bytes = λ i. omega arith; small = omega arith };
  number = omega arith;
  in_map = omega arith;
  one_sector = omega arith;
  blocks_first = omega arith;
  map_first = omega arith;
  agrees = one_taken-Agrees;
  agrees_inodes = λ j lt.
      let same : one_taken.disk (10240 + j / 8) ≡ 0 = ground arith in
      ap (λ m. bit_set m (j % 8)) same;
}

abbrev reopened_one : Files
reopened_one = record one_open {
  inodes = λ a. if a == 0x5000 then record short_inode { i_open_cnts = 2 } else short_inode;
}

inode_release_lem_example :
    (p1 p' : Partition) × (inode_release one_taken one_open 1 0x6000 (λ x. 0) (λ x. 0)
      ≡ done (p', inode_close reopened_one 0x5000))
    × Freed one_taken p1
        (λ j. (not (0 == 0) && (700 + j == 0)) || listed 12 0 short_blocks (700 + j))
    × Cleared p1 p' 1
unfolding dir_blocks inode_open find_open
inode_release_lem_example =
    inode_release_lem one_taken one_open reopened_one 1 0x6000 0x5000 (λ x. 0) (λ x. 0) short_blocks
      one_taken-HasMaps refl refl refl short_fit (inl refl)
