-- ===== src/Opening/Release.antt =====
-- fs/inode.c: `inode_release`, where `part` is `cur_part`. The memory for the inode and for the two
-- sectors that `inode_delete` uses is an argument.
use elephant_os.Base.{
  ℕ, zero, suc, ◌+◌, if◌then◌else◌, ◌==◌, ltb, sub32, Mem, Outcome, done, ◌>>=◌, ◌>>◌, assert,
}
use elephant_os.Bitmap.{bitmap_set}
use elephant_os.Files.{Inode, Files, inode_close}
use elephant_os.Disk.{Partition, BitmapType, bitmap_sync, inode_delete}
use elephant_os.Directory.{dir_blocks}
use elephant_os.Opening.{inode_open}

-- the block at this address is free again, also in the map on the disk
unfoldable pub unmark_block : Partition → ℕ → Outcome Partition
unmark_block p lba =
    let block_bitmap_idx = sub32 lba p.sb.data_start_lba in
    do
      assert (ltb 0 block_bitmap_idx)
      b ← bitmap_set p.block_bitmap block_bitmap_idx 0
      bitmap_sync (record p { block_bitmap = b }) block_bitmap_idx BitmapType.block_bitmap_type

-- An address of 0 stands for no block.
unfoldable pub release_if : Partition → ℕ → Outcome Partition
release_if p lba = if lba == 0 then done p else unmark_block p lba

-- the loop over `all_blocks`
unfoldable pub release_loop : ℕ → ℕ → Partition → (ℕ → ℕ) → Outcome Partition
release_loop zero block_idx p all_blocks = done p
release_loop (suc left) block_idx p all_blocks = do
  p' ← release_if p (all_blocks block_idx)
  release_loop left (block_idx + 1) p' all_blocks

-- The table of addresses is read before its own block is released.
unfoldable pub release_blocks : Partition → Inode → Outcome Partition
release_blocks p inode_to_del = do
  all ← dir_blocks p inode_to_del (λ n. 0)
  p' ← release_if p (inode_to_del.i_sectors 12)
  release_loop (if inode_to_del.i_sectors 12 == 0 then 12 else 140) 0 p' all

unfoldable pub release_number : Partition → ℕ → Outcome Partition
release_number p inode_no = do
  b ← bitmap_set p.inode_bitmap inode_no 0
  bitmap_sync (record p { inode_bitmap = b }) inode_no BitmapType.inode_bitmap_type

unfoldable pub inode_release : Partition → Files → ℕ → ℕ → Mem → Mem → Outcome (Partition × Files)
inode_release part s inode_no fresh inode_buf io_buf = do
  r ← inode_open part s inode_no fresh inode_buf
  assert ((r.1.inodes r.0).i_no == inode_no)
  p1 ← release_blocks part (r.1.inodes r.0)
  p2 ← release_number p1 inode_no
  p3 ← inode_delete p2 inode_no io_buf
  done (p3, inode_close r.1 r.0)
