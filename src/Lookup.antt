-- ===== src/Lookup.antt =====
-- fs/dir.c: opening and closing of directories; fs/fs.c: `search_file`; and `file_create` of fs/file.c
-- in Lookup/Create. A `struct dir *` is the value behind it; the root directory is never closed.
-- The n-th call of `sys_malloc` returns `malloc n`, where 0 is `NULL`.
pub mod Create
pub mod Unchanged
use elephant_os.Base.{
  ℕ, zero, suc, ◌+◌, ◌%◌, Bool, true, false, not, ◌&&◌, ◌||◌, Option, none, some, List, [], ◌∷◌,
  ◌++◌, ◌==◌, ltb, leb, if◌then◌else◌, update, u32, length, get_or, Mem,
}
use elephant_os.Base.Flow.{Flow, returns, halts, endless, ◌>>=◌, ◌>>◌, require, lift}
use elephant_os.Files.{Inode, Files, set_inode, inode_close, path_parse, slash}
use elephant_os.Disk.{Partition}
use elephant_os.Directory.{DirEntry, search_dir_entry}
use elephant_os.Directory.Update.{Dir}
use elephant_os.Opening.{inode_open}

-- the mounted partition, the open files, and the inode of the root directory
pub record Fs : Type 0 where
  pub part : Partition
  pub files : Files
  pub root_inode : ℕ
  pub malloc : ℕ → ℕ
  pub allocs : ℕ
  pub cwd_inode_nr : ℕ

pub record OpenDir : Type 0 where
  pub is_root : Bool
  pub inode : ℕ
  pub dir_pos : ℕ

abbrev pub root_dir : Fs → OpenDir
root_dir fs = record { is_root = true; inode = fs.root_inode; dir_pos = 0 }

-- `sys_malloc`
abbrev pub alloc : Fs → ℕ × Fs
alloc fs = (fs.malloc fs.allocs, record fs { allocs = fs.allocs + 1 })

abbrev pub set_part : Fs → Partition → Fs
set_part fs p = record fs { part = p }

abbrev pub set_files : Fs → Files → Fs
set_files fs s = record fs { files = s }

-- the directory as the operations on entries see it, and its state after one of them
abbrev pub dir_of : Fs → OpenDir → Dir
dir_of fs d = record { part = fs.part; inode = fs.files.inodes d.inode }

abbrev pub put_dir : Fs → OpenDir → Dir → Fs
put_dir fs d x = record fs { part = x.part; files = set_inode fs.files d.inode x.inode }

-- `inode_open` with the next memory
unfoldable pub open_inode : Fs → ℕ → Flow (ℕ × Fs)
open_inode fs inode_no =
    let a = alloc fs in
    do
      r ← lift (inode_open fs.part fs.files inode_no a.0 (λ x. 0))
      returns (r.0, set_files a.1 r.1)

unfoldable pub dir_open : Fs → ℕ → Flow (OpenDir × Fs)
dir_open fs inode_no = do
  r ← open_inode fs inode_no
  returns (record { is_root = false; inode = r.0; dir_pos = 0 }, r.1)

unfoldable pub dir_close : Fs → OpenDir → Fs
dir_close fs d = if d.is_root then fs else set_files fs (inode_close fs.files d.inode)

-- `enum file_types`
abbrev pub ft_unknown : ℕ
ft_unknown = 0

abbrev pub ft_regular : ℕ
ft_regular = 1

abbrev pub ft_directory : ℕ
ft_directory = 2

-- `struct path_search_record`
pub record PathSearchRecord : Type 0 where
  pub searched_path : List ℕ
  pub parent_dir : OpenDir
  pub file_type : ℕ

-- the result of `search_file`, where `none` is -1
pub record Found : Type 0 where
  pub inode_no : Option ℕ
  pub searched : PathSearchRecord
  pub fs : Fs

abbrev pub is_same : List ℕ → List ℕ → Bool
is_same [] [] = true
is_same (a ∷ s) (b ∷ t) = let rest = is_same s t in if a == b then rest else false
is_same _ _ = false

-- "/", "/." and "/.."
abbrev pub is_root_path : List ℕ → Bool
is_root_path path =
    is_same path (slash ∷ [])
    || is_same path (slash ∷ 46 ∷ [])
    || is_same path (slash ∷ 46 ∷ 46 ∷ [])

-- the next name, where the path has more
abbrev pub next_name : Option (List ℕ) → List ℕ × Option (List ℕ)
next_name none = ([], none)
next_name (some sub_path) = path_parse sub_path

-- the end of the walk: the directory that was found is closed, and its parent is opened
unfoldable pub end_search : Fs → PathSearchRecord → ℕ → ℕ → Flow Found
end_search fs searched parent_inode_no inode_no = do
  r ← dir_open (dir_close fs searched.parent_dir) parent_inode_no
  returns (record {
    inode_no = some inode_no;
    searched = record searched { parent_dir = r.0; file_type = ft_directory };
    fs = r.1;
  })

-- The loop over the names, with the number of the entry that was found last. An entry that is
-- neither a file nor a directory is passed over. The fuel is more than the path has names.
unfoldable pub walk_loop : ℕ → Fs → PathSearchRecord → ℕ → ℕ → List ℕ × Option (List ℕ) → Flow Found
walk_loop zero fs searched parent_no inode_no p = endless
walk_loop (suc fuel) fs searched parent_no inode_no ([], p) =
    end_search fs searched parent_no inode_no
walk_loop (suc fuel) fs searched parent_no inode_no (c ∷ name, p) = do
  require (ltb (length searched.searched_path) 512)
  let here = record searched { searched_path = searched.searched_path ++ (slash ∷ c ∷ name) }
  let dir = fs.files.inodes searched.parent_dir.inode
  e ← lift (search_dir_entry fs.part dir (some (λ n. 0)) (c ∷ name))
  elim e [
    | none ↦ returns (record { inode_no = none; searched = here; fs = fs })
    | some dir_e ↦
        if dir_e.f_type == ft_directory
        then (do
          r ← dir_open (dir_close fs searched.parent_dir) dir_e.i_no
          walk_loop fuel r.1 (record here { parent_dir = r.0 }) dir.i_no dir_e.i_no (next_name p))
        else if dir_e.f_type == ft_regular
        then returns (record {
          inode_no = some dir_e.i_no;
          searched = record here { file_type = ft_regular };
          fs = fs;
        })
        else walk_loop fuel fs here parent_no dir_e.i_no (next_name p)
  ]

unfoldable pub search_file : Fs → List ℕ → Flow Found
search_file fs pathname =
    let nothing : PathSearchRecord = record {
      searched_path = [];
      parent_dir = root_dir fs;
      file_type = ft_unknown;
    } in
    let path_len = length pathname in
    if is_root_path pathname
    then returns (record {
      inode_no = some 0;
      searched = record nothing { file_type = ft_directory };
      fs = fs;
    })
    else (do
      require ((get_or pathname 0 0 == slash) && ltb 1 path_len && ltb path_len 512)
      walk_loop (suc path_len) fs nothing 0 0 (path_parse pathname))
