-- ===== src/Disk.antt =====
-- fs/inode.c, fs/super_block.h and the bitmaps of fs/file.c: a partition with its bitmaps and the
-- bytes of its disk. Byte `o` of sector `lba` is byte `lba * 512 + o` of the disk. A buffer is a
-- memory from its first byte on, and words lie in it with the low byte first.
pub mod Bytes
pub mod Encoding
pub mod Inodes
pub mod Alloc
pub mod Free
pub mod Layout
mod Tests
use elephant_os.Base.{
  ℕ, zero, suc, ◌+◌, ◌-◌, ◌*◌, ◌/◌, ◌%◌, ◌^◌, Bool, true, false, not, ◌&&◌, ◌||◌, Option, none,
  some, ◌==◌, ltb, leb, if◌then◌else◌, u32, sub32, Mem, Outcome, done, panic, ◌>>=◌, ◌>>◌, assert,
}
use elephant_os.Bitmap.{Bitmap, bitmap_scan, bitmap_set}
use elephant_os.Files.{Inode, InodePosition, inode_locate, inode_size}

-- the layout of the partition
pub record SuperBlock : Type 0 where
  pub magic : ℕ
  pub sec_cnt : ℕ
  pub inode_cnt : ℕ
  pub part_lba_base : ℕ
  pub block_bitmap_lba : ℕ
  pub block_bitmap_sects : ℕ
  pub inode_bitmap_lba : ℕ
  pub inode_bitmap_sects : ℕ
  pub inode_table_lba : ℕ
  pub inode_table_sects : ℕ
  pub data_start_lba : ℕ
  pub root_inode_no : ℕ
  pub dir_entry_size : ℕ

pub record Partition : Type 0 where
  pub start_lba : ℕ
  pub sec_cnt : ℕ
  pub sb : SuperBlock
  pub block_bitmap : Bitmap
  pub inode_bitmap : Bitmap
  pub disk : Mem

abbrev pub max_lba : ℕ
max_lba = 80 * 1024 * 1024 / 512 - 1

abbrev pub block_size : ℕ
block_size = 512

-- `memcpy` between two buffers
unfoldable pub copy : Mem → ℕ → Mem → ℕ → Mem
copy m dst src size a = if leb dst a && ltb a (dst + size) then src (a - dst) else m a

-- What `ide_read` and `ide_write` (device/ide.c) do for the file system: whole sectors between the
-- disk and a buffer.
unfoldable pub read_sectors : Mem → ℕ → Mem → ℕ → Outcome Mem
read_sectors disk lba buf cnt = do
  assert (leb lba max_lba)
  assert (ltb 0 cnt)
  done (copy buf 0 (λ x. disk (lba * 512 + x)) (cnt * 512))

unfoldable pub write_sectors : Mem → ℕ → Mem → ℕ → Outcome Mem
write_sectors disk lba buf cnt = do
  assert (leb lba max_lba)
  assert (ltb 0 cnt)
  done (copy disk (lba * 512) buf (cnt * 512))

-- the 32-bit word at an address, and an array of words as bytes
unfoldable pub word_at : Mem → ℕ → ℕ
word_at m a = m a + 256 * m (a + 1) + 256 ^ 2 * m (a + 2) + 256 ^ 3 * m (a + 3)

unfoldable pub bytes_of : (ℕ → ℕ) → Mem
bytes_of words a = words (a / 4) / 256 ^ (a % 4) % 256

abbrev pub int_of : Bool → ℕ
int_of true = 1
int_of false = 0

-- `struct inode` as words, with `inode_tag` cleared
unfoldable pub inode_words : Inode → ℕ → ℕ
inode_words i n =
    if n == 0
    then i.i_no
    else if n == 1
    then i.i_size
    else if n == 2
    then i.i_open_cnts
    else if n == 3
    then int_of i.write_deny
    else if ltb n 17
    then i.i_sectors (n - 4)
    else 0

unfoldable pub inode_from : Mem → ℕ → Inode
inode_from m a = record {
  i_no = word_at m a;
  i_size = word_at m (a + 4);
  i_open_cnts = word_at m (a + 8);
  write_deny = not (word_at m (a + 12) == 0);
  i_sectors = λ n. word_at m (a + 16 + 4 * n);
}

unfoldable pub inode_init : ℕ → Inode → Inode
inode_init inode_no new_inode = record {
  i_no = inode_no;
  i_size = 0;
  i_open_cnts = 0;
  write_deny = false;
  i_sectors = λ n. if ltb n 13 then 0 else new_inode.i_sectors n;
}

abbrev sectors_of : InodePosition → ℕ
sectors_of pos = if pos.two_sec then 2 else 1

-- the common part of `inode_sync` and `inode_delete`: read, change the bytes of the inode, write
unfoldable pub put_inode : Partition → ℕ → Mem → Mem → Outcome Partition
put_inode p inode_no bytes inode_buf = do
  pos ← inode_locate p.sb.inode_table_lba inode_no
  assert (leb pos.sec_lba (u32 (p.start_lba + p.sec_cnt)))
  buf ← read_sectors p.disk pos.sec_lba inode_buf (sectors_of pos)
  disk ← write_sectors p.disk pos.sec_lba (copy buf pos.off_size bytes inode_size) (sectors_of pos)
  done (record p { disk = disk })

-- The number of the inode is kept in a `uint8_t`.
unfoldable pub inode_sync : Partition → Inode → Mem → Outcome Partition
inode_sync p inode io_buf =
    let pure_inode : Inode = record inode { i_open_cnts = 0; write_deny = false } in
    put_inode p (inode.i_no % 256) (bytes_of (inode_words pure_inode)) io_buf

unfoldable pub inode_delete : Partition → ℕ → Mem → Outcome Partition
inode_delete p inode_no io_buf = do assert (ltb inode_no 4096); put_inode p inode_no (λ x. 0) io_buf

-- the part of `inode_open` that reads the inode from the disk; `inode_buf` is fresh memory
unfoldable pub read_inode : Partition → ℕ → Mem → Outcome Inode
read_inode p inode_no inode_buf = do
  pos ← inode_locate p.sb.inode_table_lba inode_no
  buf ← read_sectors p.disk pos.sec_lba inode_buf (sectors_of pos)
  done (inode_from buf pos.off_size)

pub data BitmapType : Type 0 where
  inode_bitmap_type block_bitmap_type : BitmapType

unfoldable pub bitmap_sync : Partition → ℕ → BitmapType → Outcome Partition
bitmap_sync p bit_idx btmp_type =
    let off_sec = bit_idx / 4096 in
    let off_size = off_sec * block_size in
    do
      disk ← elim btmp_type [
        | BitmapType.inode_bitmap_type ↦
            write_sectors p.disk (u32 (p.sb.inode_bitmap_lba + off_sec))
              (λ x. p.inode_bitmap.bits (off_size + x)) 1
        | BitmapType.block_bitmap_type ↦
            write_sectors p.disk (u32 (p.sb.block_bitmap_lba + off_sec))
              (λ x. p.block_bitmap.bits (off_size + x)) 1
      ]
      done (record p { disk = disk })

-- `none` is -1
unfoldable pub inode_bitmap_alloc : Partition → Outcome (Option ℕ × Partition)
inode_bitmap_alloc p = do
  bit_idx ← bitmap_scan p.inode_bitmap 1
  elim bit_idx [
    | none ↦ done (none, p)
    | some i ↦ do b ← bitmap_set p.inode_bitmap i 1; done (some i, record p { inode_bitmap = b })
  ]

unfoldable pub block_bitmap_alloc : Partition → Outcome (Option ℕ × Partition)
block_bitmap_alloc p = do
  bit_idx ← bitmap_scan p.block_bitmap 1
  elim bit_idx [
    | none ↦ done (none, p)
    | some i ↦ do
      b ← bitmap_set p.block_bitmap i 1
      done (some (u32 (p.sb.data_start_lba + i)), record p { block_bitmap = b })
  ]
