-- ===== src/Format.antt =====
-- fs/fs.c: `partition_format`, and `mount_partition` for the partition that is looked for. The memory
-- that `sys_malloc` returns is clear; the memory that the maps are read into is an argument.
pub mod Layout
pub mod Maps
pub mod Mounted
pub mod Fresh
mod Tests
use elephant_os.Base.{
  ℕ, zero, suc, ◌+◌, ◌-◌, ◌*◌, ◌/◌, ◌%◌, ◌^◌, bit_and, bit_or, Bool, true, false, List, [], ◌∷◌,
  ◌==◌, ltb, leb, if◌then◌else◌, update, u32, sub32, get_or, Mem, fill, Outcome, done, panic, ◌>>=◌,
  ◌>>◌,
}
use elephant_os.Base.Bits.{clear_mask}
use elephant_os.Bitmap.{Bitmap}
use elephant_os.Files.{Inode, inode_size}
use elephant_os.Disk.{
  Partition, SuperBlock, read_sectors, write_sectors, word_at, bytes_of, inode_words, copy,
}
use elephant_os.Directory.{DirEntry, entry_size, entry_bytes}

-- `DIV_ROUND_UP` (kernel/global.h) on `uint32_t`
abbrev pub div_round_up : ℕ → ℕ → ℕ
div_round_up x step = u32 (x + step - 1) / step

abbrev pub bits_per_sector : ℕ
bits_per_sector = 4096

abbrev pub max_files_per_part : ℕ
max_files_per_part = 4096

-- the sectors besides the map of the blocks and the blocks: boot sector, super block, the map of the
-- inodes and their table
abbrev pub used_sects : ℕ
used_sects =
    1
    + 1
    + div_round_up max_files_per_part bits_per_sector
    + div_round_up (inode_size * max_files_per_part) 512

-- `block_bitmap_bit_len`, the number of blocks
unfoldable pub block_count : ℕ → ℕ
block_count sec_cnt =
    let free_sects = sub32 sec_cnt used_sects in
    sub32 free_sects (div_round_up free_sects bits_per_sector)

-- the super block of a partition
unfoldable pub layout : ℕ → ℕ → SuperBlock
layout start_lba sec_cnt =
    let block_bitmap_sects = div_round_up (block_count sec_cnt) bits_per_sector in
    let inode_bitmap_sects = div_round_up max_files_per_part bits_per_sector in
    let inode_table_sects = div_round_up (inode_size * max_files_per_part) 512 in
    let block_bitmap_lba = u32 (start_lba + 2) in
    let inode_bitmap_lba = u32 (block_bitmap_lba + block_bitmap_sects) in
    let inode_table_lba = u32 (inode_bitmap_lba + inode_bitmap_sects) in
    record {
      magic = 0x19590318;
      sec_cnt = sec_cnt;
      inode_cnt = max_files_per_part;
      part_lba_base = start_lba;
      block_bitmap_lba = block_bitmap_lba;
      block_bitmap_sects = block_bitmap_sects;
      inode_bitmap_lba = inode_bitmap_lba;
      inode_bitmap_sects = inode_bitmap_sects;
      inode_table_lba = inode_table_lba;
      inode_table_sects = inode_table_sects;
      data_start_lba = u32 (inode_table_lba + inode_table_sects);
      root_inode_no = 0;
      dir_entry_size = entry_size;
    }

-- `struct super_block` as words; the rest of the sector is padding
abbrev pub sb_list : SuperBlock → List ℕ
sb_list sb =
    sb.magic ∷ sb.sec_cnt ∷ sb.inode_cnt ∷ sb.part_lba_base ∷ sb.block_bitmap_lba
    ∷ sb.block_bitmap_sects ∷ sb.inode_bitmap_lba ∷ sb.inode_bitmap_sects ∷ sb.inode_table_lba
    ∷ sb.inode_table_sects ∷ sb.data_start_lba ∷ sb.root_inode_no ∷ sb.dir_entry_size ∷ []

unfoldable pub sb_words : SuperBlock → ℕ → ℕ
sb_words sb n = get_or (sb_list sb) n 0

unfoldable pub sb_from : Mem → SuperBlock
sb_from m = record {
  magic = word_at m 0;
  sec_cnt = word_at m 4;
  inode_cnt = word_at m 8;
  part_lba_base = word_at m 12;
  block_bitmap_lba = word_at m 16;
  block_bitmap_sects = word_at m 20;
  inode_bitmap_lba = word_at m 24;
  inode_bitmap_sects = word_at m 28;
  inode_table_lba = word_at m 32;
  inode_table_sects = word_at m 36;
  data_start_lba = word_at m 40;
  root_inode_no = word_at m 44;
  dir_entry_size = word_at m 48;
}

-- the loop `while (bit_idx <= block_bitmap_last_bit)` from `bit_idx` on
unfoldable pub clear_loop : ℕ → ℕ → Mem → ℕ → Mem
clear_loop zero bit_idx buf last_byte = buf
clear_loop (suc left) bit_idx buf last_byte =
    clear_loop left (bit_idx + 1)
      (update buf last_byte (bit_and (buf last_byte) (clear_mask bit_idx))) last_byte

-- the map of the blocks: the first is the root directory's, and the last sector is filled up
unfoldable pub block_map : ℕ → Mem
block_map block_bitmap_bit_len =
    let buf = update (λ x. 0) 0 (bit_or 0 1) in
    let last_byte = block_bitmap_bit_len / 8 in
    let last_bit = block_bitmap_bit_len % 8 in
    let last_size = 512 - last_byte % 512 in
    clear_loop (last_bit + 1) 0 (fill buf last_byte 0xff last_size) last_byte

abbrev pub inode_map : Mem
inode_map = update (λ x. 0) 0 (bit_or 0 1)

abbrev pub root_inode : SuperBlock → Inode
root_inode sb = record {
  i_no = 0;
  i_size = u32 (sb.dir_entry_size * 2);
  i_open_cnts = 0;
  write_deny = false;
  i_sectors = λ n. if n == 0 then sb.data_start_lba else 0;
}

-- the entries "." and ".." of the root directory
abbrev pub dots : ℕ → DirEntry
dots n = record { filename = λ x. if ltb x n then 46 else 0; i_no = 0; f_type = 2 }

abbrev pub root_entries : Mem
root_entries =
    copy (copy (λ x. 0) 0 (entry_bytes (dots 1)) entry_size) entry_size (entry_bytes (dots 2))
      entry_size

unfoldable pub partition_format : Partition → Outcome Partition
partition_format part =
    let sb = layout part.start_lba part.sec_cnt in
    do
      d1 ← write_sectors part.disk (u32 (part.start_lba + 1)) (bytes_of (sb_words sb)) 1
      d2 ←
          write_sectors d1 sb.block_bitmap_lba (block_map (block_count part.sec_cnt))
            sb.block_bitmap_sects
      d3 ← write_sectors d2 sb.inode_bitmap_lba inode_map sb.inode_bitmap_sects
      d4 ←
          write_sectors d3 sb.inode_table_lba (bytes_of (inode_words (root_inode sb)))
            sb.inode_table_sects
      d5 ← write_sectors d4 sb.data_start_lba root_entries 1
      done (record part { disk = d5 })

-- `mount_partition` when the name is the partition's: what the code reads from the disk
unfoldable pub mount_partition : Partition → Mem → Mem → Outcome Partition
mount_partition part block_bits inode_bits = do
  buf ← read_sectors part.disk (u32 (part.start_lba + 1)) (λ x. 0) 1
  let sb = sb_from buf
  b ← read_sectors part.disk sb.block_bitmap_lba block_bits sb.block_bitmap_sects
  i ← read_sectors part.disk sb.inode_bitmap_lba inode_bits sb.inode_bitmap_sects
  done (record part {
    sb = sb;
    block_bitmap = record { btmp_bytes_len = u32 (sb.block_bitmap_sects * 512); bits = b };
    inode_bitmap = record { btmp_bytes_len = u32 (sb.inode_bitmap_sects * 512); bits = i };
  })
