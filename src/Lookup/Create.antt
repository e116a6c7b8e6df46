-- ===== src/Lookup/Create.antt =====
-- fs/file.c: `file_create` in the directory `parent_dir`.
use elephant_os.Base.{ℕ, Option, none, some, List, ◌∷◌, ◌==◌, if◌then◌else◌, Outcome, done, ◌>>=◌}
use elephant_os.Bitmap.{bitmap_set}
use elephant_os.Files.{Inode, Files, set_inode, set_file, get_free_slot_in_global, pcb_fd_install}
use elephant_os.Disk.{BitmapType, inode_init, inode_sync, bitmap_sync, inode_bitmap_alloc}
use elephant_os.Directory.{DirEntry, create_dir_entry}
use elephant_os.Directory.Update.{sync_dir_entry}
use elephant_os.Lookup.{Fs, OpenDir, alloc, set_part, set_files, dir_of, put_dir, ft_regular}

abbrev pub no_entry : DirEntry
no_entry = record { filename = λ x. 0; i_no = 0; f_type = 0 }

-- the number of the inode is given back, only in memory
unfoldable pub give_number_back : Fs → ℕ → Outcome Fs
give_number_back fs inode_no = do
  b ← bitmap_set fs.part.inode_bitmap inode_no 0
  done (set_part fs (record fs.part { inode_bitmap = b }))

-- the inode of the directory and the new one reach the disk, and the new one is open
unfoldable pub finish_create : Fs → OpenDir → ℕ → ℕ → ℕ → Outcome (Option ℕ × Fs)
finish_create fs parent_dir inode_no new_file_inode fd_idx = do
  p1 ← inode_sync fs.part (fs.files.inodes parent_dir.inode) (λ x. 0)
  p2 ← inode_sync p1 (fs.files.inodes new_file_inode) (λ x. 0)
  p3 ← bitmap_sync p2 inode_no BitmapType.inode_bitmap_type
  let opened : Inode = record (fs.files.inodes new_file_inode) { i_open_cnts = 1 }
  let s : Files = record (set_inode fs.files new_file_inode opened) {
    open_inodes = new_file_inode ∷ fs.files.open_inodes;
  }
  let r = pcb_fd_install s fd_idx
  done (r.0, set_files (set_part fs p3) r.1)

-- the entry of the new file; without it the slot, the inode and its number are given back
unfoldable pub enter_file : Fs → OpenDir → List ℕ → ℕ → ℕ → ℕ → Outcome (Option ℕ × Fs)
enter_file fs parent_dir filename inode_no new_file_inode fd_idx = do
  e ← create_dir_entry filename inode_no ft_regular no_entry
  r ← sync_dir_entry (dir_of fs parent_dir) e
  let fs' = put_dir fs parent_dir r.1
  if r.0 then finish_create fs' parent_dir inode_no new_file_inode fd_idx else (do
    let empty = set_file fs'.files fd_idx (record { fd_pos = 0; fd_flag = 0; fd_inode = 0 })
    fs'' ← give_number_back (set_files fs' empty) inode_no
    done (none, fs''))

-- behind the allocation of a number for the inode
unfoldable pub create_file : Fs → OpenDir → List ℕ → ℕ → ℕ → Outcome (Option ℕ × Fs)
create_file fs parent_dir filename flag inode_no =
    let a = alloc fs in
    let new_file_inode = a.0 in
    if new_file_inode == 0
    then (do fs' ← give_number_back a.1 inode_no; done (none, fs'))
    else (let s =
          set_inode a.1.files new_file_inode
            (inode_init inode_no (a.1.files.inodes new_file_inode)) in
        elim (get_free_slot_in_global s) [
          | none ↦ do fs' ← give_number_back (set_files a.1 s) inode_no; done (none, fs')
          | some fd_idx ↦
              let s' =
                set_file s fd_idx
                  (record { fd_pos = 0; fd_flag = flag; fd_inode = new_file_inode }) in
              enter_file (set_files a.1 s') parent_dir filename inode_no new_file_inode fd_idx
        ])

-- `none` is -1
unfoldable pub file_create : Fs → OpenDir → List ℕ → ℕ → Outcome (Option ℕ × Fs)
file_create fs parent_dir filename flag =
    let io_buf = alloc fs in
    if io_buf.0 == 0 then done (none, io_buf.1) else (do
      r ← inode_bitmap_alloc io_buf.1.part
      elim r.0 [
        | none ↦ done (none, set_part io_buf.1 r.1)
        | some inode_no ↦ create_file (set_part io_buf.1 r.1) parent_dir filename flag inode_no
      ])
