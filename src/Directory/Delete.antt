-- ===== src/Directory/Delete.antt =====
-- fs/dir.c: `delete_dir_entry` on the partition `cur_part`.
use elephant_os.Base.{
  ℕ, zero, suc, ◌+◌, ◌*◌, ◌/◌, ◌%◌, Bool, true, false, not, ◌&&◌, Option, none, some, [], ◌∷◌, ◌==◌,
  ltb, leb, if◌then◌else◌, update, sub32, Mem, Outcome, done, ◌>>=◌, ◌>>◌, assert,
}
use elephant_os.Bitmap.{bitmap_set}
use elephant_os.Disk.{
  BitmapType, copy, read_sectors, write_sectors, word_at, bytes_of, inode_sync, bitmap_sync,
}
use elephant_os.Directory.{entry_size, is_name, is_used, dir_blocks, count_indirect}
use elephant_os.Directory.Update.{Dir, set_block, set_disk, set_bitmap, resized}

-- What `delete_dir_entry` finds in a sector: whether it is the first block of the directory, how
-- many entries besides "." and ".." it has, and the entry that goes.
pub record Census : Type 0 where
  pub is_dir_first_block : Bool
  pub dir_entry_cnt : ℕ
  pub dir_entry_found : Option ℕ

abbrev pub is_none : Option ℕ → Bool
is_none none = true
is_none (some k) = false

unfoldable pub count_entry : Mem → ℕ → ℕ → Census → Outcome Census
count_entry buf inode_no idx c =
    if not (is_used buf idx)
    then done c
    else if is_name buf (idx * entry_size) (46 ∷ [])
    then done (record c { is_dir_first_block = true })
    else if is_name buf (idx * entry_size) (46 ∷ 46 ∷ [])
    then done c
    else if word_at buf (idx * entry_size + 16) == inode_no
    then (do
      assert (is_none c.dir_entry_found)
      done (record c { dir_entry_cnt = (c.dir_entry_cnt + 1) % 256; dir_entry_found = some idx }))
    else done (record c { dir_entry_cnt = (c.dir_entry_cnt + 1) % 256 })

unfoldable pub count_entries : ℕ → ℕ → Mem → ℕ → Census → Outcome Census
count_entries zero idx buf inode_no c = done c
count_entries (suc left) idx buf inode_no c = do
  c' ← count_entry buf inode_no idx c
  count_entries left (idx + 1) buf inode_no c'

unfoldable pub free_block : Dir → ℕ → Outcome Dir
free_block d lba =
    let block_bitmap_idx = sub32 lba d.part.sb.data_start_lba in
    do
      b ← bitmap_set d.part.block_bitmap block_bitmap_idx 0
      part ← bitmap_sync (set_bitmap d b).part block_bitmap_idx BitmapType.block_bitmap_type
      done (record d { part = part })

-- the address goes from the inode or from the table; `none` is that the fuel is not enough
unfoldable pub drop_block : ℕ → Dir → (ℕ → ℕ) → ℕ → Outcome (Option Dir)
drop_block fuel d all_blocks block_idx =
    if ltb block_idx 12
    then done (some (set_block d block_idx 0))
    else elim (count_indirect fuel all_blocks 12 0) [
      | none ↦ done none
      | some indirect_blocks ↦ do
        assert (leb 1 indirect_blocks)
        if ltb 1 indirect_blocks
            then (do
              disk ←
                  write_sectors d.part.disk (d.inode.i_sectors 12)
                    (bytes_of (λ n. update all_blocks block_idx 0 (12 + n))) 1
              done (some (set_disk d disk)))
            else (do d' ← free_block d (d.inode.i_sectors 12); done (some (set_block d' 12 0)))
    ]

-- the size and the inode, once the entry is gone
unfoldable pub shrink : Dir → Outcome (Option (Bool × Dir))
shrink d =
    let size = d.part.sb.dir_entry_size in
    let smaller = resized d d.part.disk (sub32 d.inode.i_size size) in
    do
      assert (leb size d.inode.i_size)
      part ← inode_sync smaller.part smaller.inode (λ x. 0)
      done (some (true, record smaller { part = part }))

unfoldable pub shrink_if : Option Dir → Outcome (Option (Bool × Dir))
shrink_if none = done none
shrink_if (some d) = shrink d

-- the entry `k` of a block goes, and the block with it if it was the only one
unfoldable pub remove_entry :
    ℕ → Dir → (ℕ → ℕ) → ℕ → Mem → Census → ℕ → Outcome (Option (Bool × Dir))
remove_entry fuel d all_blocks block_idx io_buf c k = do
  assert (leb 1 c.dir_entry_cnt)
  if (c.dir_entry_cnt == 1) && not c.is_dir_first_block
      then (do
        d1 ← free_block d (all_blocks block_idx)
        d2 ← drop_block fuel d1 all_blocks block_idx
        shrink_if d2)
      else (do
        disk ←
            write_sectors d.part.disk (all_blocks block_idx)
              (copy io_buf (k * entry_size) (λ x. 0) d.part.sb.dir_entry_size) 1
        shrink (set_disk d disk))

unfoldable pub delete_loop : ℕ → ℕ → ℕ → Dir → (ℕ → ℕ) → ℕ → Outcome (Option (Bool × Dir))
delete_loop fuel zero block_idx d all_blocks inode_no = done (some (false, d))
delete_loop fuel (suc left) block_idx d all_blocks inode_no = elim (all_blocks block_idx == 0) [
  | true ↦ delete_loop fuel left (block_idx + 1) d all_blocks inode_no
  | false ↦ do
    io_buf ← read_sectors d.part.disk (all_blocks block_idx) (λ x. 0) 1
    c ←
        count_entries (512 / d.part.sb.dir_entry_size) 0 io_buf inode_no
          (record { is_dir_first_block = false; dir_entry_cnt = 0; dir_entry_found = none })
    elim c.dir_entry_found [
      | none ↦ delete_loop fuel left (block_idx + 1) d all_blocks inode_no
      | some k ↦ remove_entry fuel d all_blocks block_idx io_buf c k
    ]
]

unfoldable pub delete_dir_entry : ℕ → Dir → ℕ → Outcome (Option (Bool × Dir))
delete_dir_entry fuel d inode_no = do
  all ← dir_blocks d.part d.inode (λ n. 0)
  delete_loop fuel 140 0 d all inode_no
