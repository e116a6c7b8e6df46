-- ===== src/PathCalls.antt =====
-- fs/fs.c: the system calls that take a path, and `dir_remove` of fs/dir.c. A path is a string; the
-- buffer for a name in `search_file` is left out, that in `path_depth_cnt` is not. The
-- answer `none` of a call is -1 or `NULL`, and what it prints is left out.
pub mod Make
pub mod Errors
mod Tests
use elephant_os.Base.{
  ℕ, zero, suc, ◌+◌, Bool, true, false, not, ◌&&◌, ◌||◌, Option, none, some, List, [], ◌∷◌, ◌==◌,
  ltb, leb, if◌then◌else◌, bit_and, length, get_or,
}
use elephant_os.Base.Flow.{
  Flow, returns, halts, endless, ◌>>=◌, ◌>>◌, require, lift, fueled, enough,
}
use elephant_os.Files.{
  Files, Inode, Depth, levels, overrun, inode_close, max_file_open, path_depth_cnt, slash,
}
use elephant_os.Disk.{Partition}
use elephant_os.Directory.{dir_is_empty}
use elephant_os.Directory.Update.{Dir}
use elephant_os.Directory.Delete.{delete_dir_entry}
use elephant_os.Opening.{file_open}
use elephant_os.Opening.Release.{inode_release}
use elephant_os.Lookup.{
  Fs, OpenDir, Found, PathSearchRecord, alloc, set_part, set_files, dir_of, put_dir, open_inode,
  dir_open, dir_close, search_file, root_dir, ft_regular, ft_directory, is_root_path,
}
use elephant_os.Lookup.Create.{file_create}

abbrev pub ends_in_slash : List ℕ → Bool
ends_in_slash [] = false
ends_in_slash (c ∷ []) = c == slash
ends_in_slash (c ∷ d ∷ path) = ends_in_slash (d ∷ path)

-- `strrchr(path, '/') + 1`, for a path with a slash
unfoldable pub last_name : List ℕ → List ℕ
last_name path = name_from path path
  where
    name_from : List ℕ → List ℕ → List ℕ
    name_from [] last = last
    name_from (c ∷ path) last =
        let here = name_from path path in
        let there = name_from path last in if c == slash then here else there

abbrev depth_of : Option Depth → Flow ℕ
depth_of none = endless
depth_of (some (levels n)) = returns n
depth_of (some overrun) = halts

-- `path_depth_cnt`, whose buffer is taken as clear; a call does not go on after an overrun
abbrev pub depth : List ℕ → Flow ℕ
depth path = depth_of (path_depth_cnt (suc (length path)) 0 path)

abbrev pub o_creat : ℕ → Bool
o_creat flags = not (bit_and flags 4 == 0)

-- `sys_open` behind the search: a directory is not opened, nor is a path of which a directory is
-- missing, nor a file that should be there and is not, or should not and is
unfoldable pub open_found : Found → List ℕ → ℕ → ℕ → Flow (Option ℕ × Fs)
open_found f pathname flags pathname_depth =
    let closed = dir_close f.fs f.searched.parent_dir in
    if f.searched.file_type == ft_directory then returns (none, closed) else (do
      searched_depth ← depth f.searched.searched_path
      if not (pathname_depth == searched_depth) then returns (none, closed) else elim f.inode_no [
        | none ↦
            if o_creat flags
            then (do
              r ← lift (file_create f.fs f.searched.parent_dir (last_name pathname) flags)
              returns (r.0, dir_close r.1 f.searched.parent_dir))
            else returns (none, closed)
        | some inode_no ↦ if o_creat flags then returns (none, closed) else (do
          let a = alloc f.fs
          r ← lift (file_open f.fs.part f.fs.files inode_no flags a.0 (λ x. 0))
          returns (r.0, set_files a.1 r.1))
      ])

unfoldable pub sys_open : Fs → List ℕ → ℕ → Flow (Option ℕ × Fs)
sys_open fs pathname flags = if ends_in_slash pathname then returns (none, fs) else (do
  require (leb flags 7)
  pathname_depth ← depth pathname
  f ← search_file fs pathname
  open_found f pathname flags pathname_depth)

-- the loop over the table of files: whether one of them is of this inode
unfoldable pub in_use_loop : Files → ℕ → ℕ → ℕ → Bool
in_use_loop s inode_no file_idx zero = false
in_use_loop s inode_no file_idx (suc left) =
    let rest = in_use_loop s inode_no (file_idx + 1) left in
    let file = s.file_table file_idx in
    if not (file.fd_inode == 0) && (inode_no == (s.inodes file.fd_inode).i_no) then true else rest

-- the entry and the inode go; `endless` where `delete_dir_entry` does not return
unfoldable pub remove_file : Fs → OpenDir → ℕ → ℕ → Flow Fs
remove_file fs parent_dir inode_no fuel = do
  d ← fueled (delete_dir_entry fuel (dir_of fs parent_dir) inode_no)
  let fs' = put_dir fs parent_dir d.1
  let a = alloc fs'
  r ← lift (inode_release fs'.part fs'.files inode_no a.0 (λ x. 0) (λ x. 0))
  returns (set_files (set_part a.1 r.0) r.1)

unfoldable pub unlink_found : Found → ℕ → ℕ → Flow (Bool × Fs)
unlink_found f inode_no fuel =
    let closed = dir_close f.fs f.searched.parent_dir in
    if f.searched.file_type == ft_directory
    then returns (false, closed)
    else if in_use_loop f.fs.files inode_no 0 max_file_open
    then returns (false, closed)
    else (let io_buf = alloc f.fs in
        if io_buf.0 == 0 then returns (false, dir_close io_buf.1 f.searched.parent_dir) else (do
          fs' ← remove_file io_buf.1 f.searched.parent_dir inode_no fuel
          returns (true, dir_close fs' f.searched.parent_dir)))

-- `true` is 0; `fuel` is for the loop of `delete_dir_entry`
unfoldable pub sys_unlink : Fs → List ℕ → ℕ → Flow (Bool × Fs)
sys_unlink fs pathname fuel = do
  require (ltb (length pathname) 512)
  f ← search_file fs pathname
  elim f.inode_no [
    | none ↦ returns (false, dir_close f.fs f.searched.parent_dir)
    | some inode_no ↦ do require (not (inode_no == 0)); unlink_found f inode_no fuel
  ]

-- the root directory, or a directory that is opened
unfoldable pub sys_opendir : Fs → List ℕ → Flow (Option OpenDir × Fs)
sys_opendir fs name =
    let second = get_or name 1 0 in
    do
      require (ltb (length name) 512)
      if (get_or name 0 0 == slash) && ((second == 0) || (get_or name 0 0 == 46))
          then returns (some (root_dir fs), fs)
          else (do
            f ← search_file fs name
            elim f.inode_no [
              | none ↦ returns (none, dir_close f.fs f.searched.parent_dir)
              | some inode_no ↦
                  if f.searched.file_type == ft_directory
                  then (do
                    r ← dir_open f.fs inode_no
                    returns (some r.0, dir_close r.1 f.searched.parent_dir))
                  else returns (none, dir_close f.fs f.searched.parent_dir)
            ])

unfoldable pub sys_closedir : Fs → Option OpenDir → Bool × Fs
sys_closedir fs none = (false, fs)
sys_closedir fs (some d) = (true, dir_close fs d)

abbrev pub sys_rewinddir : OpenDir → OpenDir
sys_rewinddir d = record d { dir_pos = 0 }

-- the loop of `dir_remove` over the sectors from `block_idx` on
unfoldable pub only_first : Inode → ℕ → ℕ → Bool
only_first inode block_idx zero = true
only_first inode block_idx (suc left) =
    (inode.i_sectors block_idx == 0) && only_first inode (block_idx + 1) left

unfoldable pub dir_remove : Fs → OpenDir → OpenDir → ℕ → Flow (Bool × Fs)
dir_remove fs parent_dir child_dir fuel =
    let child = fs.files.inodes child_dir.inode in
    do
      require (only_first child 1 12)
      let io_buf = alloc fs
      if io_buf.0 == 0
          then returns (false, io_buf.1)
          else (do fs' ← remove_file io_buf.1 parent_dir child.i_no fuel; returns (true, fs'))

unfoldable pub rmdir_found : Found → ℕ → ℕ → Flow (Bool × Fs)
rmdir_found f inode_no fuel =
    if f.searched.file_type == ft_regular
    then returns (false, dir_close f.fs f.searched.parent_dir)
    else (do
      d ← dir_open f.fs inode_no
      r ←
          if dir_is_empty d.1.part (d.1.files.inodes d.0.inode)
          then dir_remove d.1 f.searched.parent_dir d.0 fuel
          else returns (false, d.1)
      returns (r.0, dir_close (dir_close r.1 d.0) f.searched.parent_dir))

unfoldable pub sys_rmdir : Fs → List ℕ → ℕ → Flow (Bool × Fs)
sys_rmdir fs pathname fuel = do
  f ← search_file fs pathname
  elim f.inode_no [
    | none ↦ returns (false, dir_close f.fs f.searched.parent_dir)
    | some inode_no ↦ do require (not (inode_no == 0)); rmdir_found f inode_no fuel
  ]

unfoldable pub sys_chdir : Fs → List ℕ → Flow (Bool × Fs)
sys_chdir fs path = do
  f ← search_file fs path
  let closed = dir_close f.fs f.searched.parent_dir
  elim f.inode_no [
    | none ↦ returns (false, closed)
    | some inode_no ↦
        if f.searched.file_type == ft_directory
        then returns (true, record closed { cwd_inode_nr = inode_no })
        else returns (false, closed)
  ]

-- `struct stat`
pub record Stat : Type 0 where
  pub st_ino : ℕ
  pub st_size : ℕ
  pub st_filetype : ℕ

unfoldable pub sys_stat : Fs → List ℕ → Flow (Option Stat × Fs)
sys_stat fs path =
    if is_root_path path
    then returns (
      some (record {
        st_ino = 0;
        st_size = (fs.files.inodes fs.root_inode).i_size;
        st_filetype = ft_directory;
      }),
      fs,
    )
    else (do
      f ← search_file fs path
      elim f.inode_no [
        | none ↦ returns (none, dir_close f.fs f.searched.parent_dir)
        | some inode_no ↦ do
          r ← open_inode f.fs inode_no
          let closed = set_files r.1 (inode_close r.1.files r.0)
          returns (
            some (record {
              st_ino = inode_no;
              st_size = (r.1.files.inodes r.0).i_size;
              st_filetype = f.searched.file_type;
            }),
            dir_close closed f.searched.parent_dir,
          )
      ])
