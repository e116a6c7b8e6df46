-- ===== src/PathCalls/Make.antt =====
-- fs/fs.c: `sys_mkdir`.
use elephant_os.Base.{
  ℕ, ◌*◌, Bool, true, false, not, none, some, List, ◌==◌, ltb, if◌then◌else◌, update, u32, sub32,
  Mem,
}
use elephant_os.Base.Flow.{Flow, returns, ◌>>=◌, ◌>>◌, require, lift}
use elephant_os.Files.{Inode}
use elephant_os.Disk.{
  BitmapType, copy, write_sectors, inode_init, inode_sync, bitmap_sync, inode_bitmap_alloc,
  block_bitmap_alloc,
}
use elephant_os.Directory.{DirEntry, entry_size, entry_bytes, create_dir_entry}
use elephant_os.Directory.Update.{sync_dir_entry}
use elephant_os.Lookup.{
  Fs, OpenDir, alloc, set_part, dir_of, put_dir, dir_close, search_file, ft_directory,
}
use elephant_os.Lookup.Create.{no_entry, give_number_back}
use elephant_os.PathCalls.{depth, last_name}

-- the entries "." and ".." of a new directory
abbrev pub dot_entry : ℕ → ℕ → DirEntry
dot_entry dots i_no = record {
  filename = λ x. if ltb x dots then 46 else 0;
  i_no = i_no;
  f_type = ft_directory;
}

unfoldable pub first_entries : ℕ → ℕ → Mem
first_entries inode_no parent_no =
    copy (copy (λ x. 0) 0 (entry_bytes (dot_entry 1 inode_no)) entry_size) entry_size
      (entry_bytes (dot_entry 2 parent_no)) entry_size

-- `rollback_step` 1 and 2
abbrev pub give_up : Fs → OpenDir → Flow (Bool × Fs)
give_up fs parent_dir = returns (false, dir_close fs parent_dir)

unfoldable pub give_back : Fs → OpenDir → ℕ → Flow (Bool × Fs)
give_back fs parent_dir inode_no = do
  fs' ← lift (give_number_back fs inode_no)
  give_up fs' parent_dir

-- the entry in the parent, and both inodes on the disk
unfoldable pub enter_dir : Fs → OpenDir → List ℕ → Inode → Flow (Bool × Fs)
enter_dir fs parent_dir dirname new_dir_inode =
    let inode_no = new_dir_inode.i_no in
    do
      e ← lift (create_dir_entry dirname inode_no ft_directory no_entry)
      r ← lift (sync_dir_entry (dir_of fs parent_dir) e)
      let fs' = put_dir fs parent_dir r.1
      if not r.0 then give_back fs' parent_dir inode_no else (do
        p1 ← lift (inode_sync fs'.part (fs'.files.inodes parent_dir.inode) (λ x. 0))
        p2 ← lift (inode_sync p1 new_dir_inode (λ x. 0))
        p3 ← lift (bitmap_sync p2 inode_no BitmapType.inode_bitmap_type)
        returns (true, dir_close (set_part fs' p3) parent_dir))

-- the block of the new directory, with its first two entries
unfoldable pub fill_dir : Fs → OpenDir → List ℕ → Inode → ℕ → Flow (Bool × Fs)
fill_dir fs parent_dir dirname new_dir_inode block_lba =
    let block_bitmap_idx = sub32 block_lba fs.part.sb.data_start_lba in
    do
      require (not (block_bitmap_idx == 0))
      p ← lift (bitmap_sync fs.part block_bitmap_idx BitmapType.block_bitmap_type)
      disk ← lift (
          write_sectors p.disk block_lba
            (first_entries new_dir_inode.i_no (fs.files.inodes parent_dir.inode).i_no) 1)
      let sectors = update new_dir_inode.i_sectors 0 block_lba
      let size = u32 (2 * p.sb.dir_entry_size)
      enter_dir (set_part fs (record p { disk = disk })) parent_dir dirname
          (record new_dir_inode { i_sectors = sectors; i_size = size })

unfoldable pub make_dir : Fs → OpenDir → List ℕ → Flow (Bool × Fs)
make_dir fs parent_dir dirname = do
  r ← lift (inode_bitmap_alloc fs.part)
  elim r.0 [
    | none ↦ give_up (set_part fs r.1) parent_dir
    | some inode_no ↦ do
      let blank : Inode = record {
        i_no = 0;
        i_size = 0;
        i_open_cnts = 0;
        write_deny = false;
        i_sectors = λ n. 0;
      }
      b ← lift (block_bitmap_alloc r.1)
      elim b.0 [
        | none ↦ give_back (set_part fs b.1) parent_dir inode_no
        | some block_lba ↦
            fill_dir (set_part fs b.1) parent_dir dirname (inode_init inode_no blank) block_lba
      ]
  ]

-- `true` is 0
unfoldable pub sys_mkdir : Fs → List ℕ → Flow (Bool × Fs)
sys_mkdir fs pathname =
    let io_buf = alloc fs in
    if io_buf.0 == 0 then returns (false, io_buf.1) else (do
      f ← search_file io_buf.1 pathname
      elim f.inode_no [
        | some inode_no ↦ give_up f.fs f.searched.parent_dir
        | none ↦ do
          pathname_depth ← depth pathname
          path_searched_depth ← depth f.searched.searched_path
          if not (pathname_depth == path_searched_depth)
              then give_up f.fs f.searched.parent_dir
              else make_dir f.fs f.searched.parent_dir (last_name f.searched.searched_path)
      ])
