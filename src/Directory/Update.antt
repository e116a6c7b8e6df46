-- ===== src/Directory/Update.antt =====
-- fs/dir.c: `sync_dir_entry` on the partition `cur_part`. An index behind
-- the 13 sectors of an inode stands for the memory that follows them.
use elephant_os.Base.{
  ℕ, zero, suc, ◌+◌, ◌-◌, ◌*◌, ◌/◌, ◌%◌, ◌^◌, Bool, true, false, not, Option, none, some, ◌==◌, ltb,
  if◌then◌else◌, update, u32, sub32, Mem, Outcome, done, ◌>>=◌, ◌>>◌, assert,
}
use elephant_os.Bitmap.{Bitmap, bitmap_set}
use elephant_os.Files.{Inode}
use elephant_os.Disk.{
  Partition, BitmapType, copy, read_sectors, write_sectors, bytes_of, bitmap_sync,
  block_bitmap_alloc,
}
use elephant_os.Directory.{DirEntry, entry_size, entry_bytes, is_used}

-- a directory of the partition
pub record Dir : Type 0 where
  pub part : Partition
  pub inode : Inode

abbrev pub set_block : Dir → ℕ → ℕ → Dir
set_block d idx lba =
    let i : Inode = record d.inode { i_sectors = update d.inode.i_sectors idx lba } in
    record d { inode = i }

abbrev pub set_disk : Dir → Mem → Dir
set_disk d disk = let p : Partition = record d.part { disk = disk } in record d { part = p }

abbrev pub set_bitmap : Dir → Bitmap → Dir
set_bitmap d b = let p : Partition = record d.part { block_bitmap = b } in record d { part = p }

abbrev pub resized : Dir → Mem → ℕ → Dir
resized d disk size =
    let i : Inode = record d.inode { i_size = size } in
    let p : Partition = record d.part { disk = disk } in record d { part = p; inode = i }

-- the first free entry of a sector
unfoldable pub find_free : ℕ → ℕ → Mem → Option ℕ
find_free zero dir_entry_idx buf = none
find_free (suc left) dir_entry_idx buf =
    let rest = find_free left (dir_entry_idx + 1) buf in
    if is_used buf dir_entry_idx then rest else some dir_entry_idx

-- `block_bitmap_alloc` and the `bitmap_sync` behind it; `none` is -1
unfoldable pub new_block : Dir → Outcome (Option ℕ × Dir)
new_block d = do
  r ← block_bitmap_alloc d.part
  elim r.0 [
    | none ↦ done (none, record d { part = r.1 })
    | some lba ↦ do
      let block_bitmap_idx = sub32 lba r.1.sb.data_start_lba
      assert (not (block_bitmap_idx == 2 ^ 32 - 1))
      part ← bitmap_sync r.1 block_bitmap_idx BitmapType.block_bitmap_type
      done (some lba, record d { part = part })
  ]

-- the entry in the new block
unfoldable pub put_first : Dir → (ℕ → ℕ) → ℕ → DirEntry → Outcome (Bool × Dir)
put_first d all_blocks block_idx p_de =
    let size = d.part.sb.dir_entry_size in
    do
      disk ←
          write_sectors d.part.disk (all_blocks block_idx) (copy (λ x. 0) 0 (entry_bytes p_de) size)
            1
      done (true, resized d disk (u32 (d.inode.i_size + size)))

unfoldable pub save_indirect : Dir → (ℕ → ℕ) → ℕ → DirEntry → Outcome (Bool × Dir)
save_indirect d all_blocks block_idx p_de = do
  disk ← write_sectors d.part.disk (d.inode.i_sectors 12) (bytes_of (λ n. all_blocks (12 + n))) 1
  put_first (set_disk d disk) all_blocks block_idx p_de

-- the table is new, and so is its first block; without that the table is given back
unfoldable pub add_table : Dir → (ℕ → ℕ) → ℕ → DirEntry → Outcome (Bool × Dir)
add_table d1 all block_idx p_de = do
  r ← new_block d1
  elim r.0 [
    | none ↦ do
      b ←
          bitmap_set r.1.part.block_bitmap
            (sub32 (r.1.inode.i_sectors 12) r.1.part.sb.data_start_lba) 0
      done (false, set_block (set_bitmap r.1 b) 12 0)
    | some lba ↦ save_indirect (set_block r.1 13 lba) (update all 12 lba) block_idx p_de
  ]

-- a block for the entry, where the directory has none
unfoldable pub add_block : Dir → (ℕ → ℕ) → ℕ → DirEntry → Outcome (Bool × Dir)
add_block d all_blocks block_idx p_de = do
  r ← new_block d
  elim r.0 [
    | none ↦ done (false, r.1)
    | some lba ↦
        if ltb block_idx 12
        then put_first (set_block r.1 block_idx lba) (update all_blocks block_idx lba) block_idx
            p_de
        else if block_idx == 12
        then add_table (set_block r.1 12 lba) all_blocks block_idx p_de
        else save_indirect r.1 (update all_blocks block_idx lba) block_idx p_de
  ]

-- the entry in the free slot, or what the other blocks give
unfoldable pub put_entry :
    Dir → ℕ → ℕ → Mem → DirEntry → Option ℕ → Outcome (Bool × Dir) → Outcome (Bool × Dir)
put_entry d size lba io_buf p_de none others = others
put_entry d size lba io_buf p_de (some dir_entry_idx) others = do
  disk ←
      write_sectors d.part.disk lba
        (copy io_buf (dir_entry_idx * entry_size) (entry_bytes p_de) size) 1
  done (true, resized d disk (u32 (d.inode.i_size + size)))

unfoldable pub insert_loop : ℕ → ℕ → Dir → (ℕ → ℕ) → DirEntry → Outcome (Bool × Dir)
insert_loop zero block_idx d all_blocks p_de = done (false, d)
insert_loop (suc left) block_idx d all_blocks p_de =
    let size = d.part.sb.dir_entry_size in
    elim (all_blocks block_idx == 0) [
      | true ↦ add_block d all_blocks block_idx p_de
      | false ↦ do
        io_buf ← read_sectors d.part.disk (all_blocks block_idx) (λ x. 0) 1
        put_entry d size (all_blocks block_idx) io_buf p_de (find_free (512 / size) 0 io_buf)
            (insert_loop left (block_idx + 1) d all_blocks p_de)
    ]

-- `false` is that the directory is full or no block can be allocated; the table of indirect blocks
-- is not read
unfoldable pub sync_dir_entry : Dir → DirEntry → Outcome (Bool × Dir)
sync_dir_entry d p_de = do
  assert (d.inode.i_size % d.part.sb.dir_entry_size == 0)
  insert_loop 140 0 d (λ n. if ltb n 12 then d.inode.i_sectors n else 0) p_de
