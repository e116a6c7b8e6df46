-- ===== src/Cwd.antt =====
-- fs/fs.c: `sys_getcwd` and the two searches that it makes. Paths are strings; the loop up to the root
-- directory has fuel, because the disk says which directory is the parent.
pub mod Reverse
mod Tests
use elephant_os.Base.{
  ℕ, zero, suc, ◌+◌, ◌*◌, ◌/◌, Bool, true, false, not, ◌&&◌, Option, none, some, List, [], ◌∷◌,
  ◌++◌, ◌==◌, ltb, leb, if◌then◌else◌, length, Mem,
}
use elephant_os.Base.Flow.{Flow, returns, halts, endless, ◌>>=◌, ◌>>◌, require, lift}
use elephant_os.Files.{inode_close, slash}
use elephant_os.Disk.{Partition, read_sectors}
use elephant_os.Directory.{DirEntry, entry_size, entry_from, dir_blocks}
use elephant_os.Lookup.{Fs, alloc, set_files, open_inode, ft_directory}

-- the number in the entry ".."
unfoldable pub get_parent_dir_inode_nr : Fs → ℕ → Flow (ℕ × Fs)
get_parent_dir_inode_nr fs child_inode_nr = do
  r ← open_inode fs child_inode_nr
  let block_lba = (r.1.files.inodes r.0).i_sectors 0
  require (leb fs.part.sb.data_start_lba block_lba)
  let closed = set_files r.1 (inode_close r.1.files r.0)
  io_buf ← lift (read_sectors fs.part.disk block_lba (λ x. 0) 1)
  let e = entry_from io_buf entry_size
  require (ltb e.i_no 4096 && (e.f_type == ft_directory))
  returns (e.i_no, closed)

-- a name as a string, with at most 16 characters here; the code reads on up to a NUL
unfoldable pub string_from : ℕ → Mem → ℕ → List ℕ
string_from zero m a = []
string_from (suc left) m a =
    let rest = string_from left m (a + 1) in if m a == 0 then [] else m a ∷ rest

-- the entries of one sector from `dir_e_idx` on
unfoldable pub name_in_sector : ℕ → ℕ → Mem → ℕ → Option (List ℕ)
name_in_sector zero dir_e_idx io_buf c_inode_nr = none
name_in_sector (suc left) dir_e_idx io_buf c_inode_nr =
    let rest = name_in_sector left (dir_e_idx + 1) io_buf c_inode_nr in
    if (entry_from io_buf (dir_e_idx * entry_size)).i_no == c_inode_nr
    then some (string_from 16 io_buf (dir_e_idx * entry_size))
    else rest

unfoldable pub name_loop : ℕ → ℕ → Partition → (ℕ → ℕ) → ℕ → Flow (Option (List ℕ))
name_loop zero block_idx part all_blocks c_inode_nr = returns none
name_loop (suc left) block_idx part all_blocks c_inode_nr = elim (all_blocks block_idx == 0) [
  | true ↦ name_loop left (block_idx + 1) part all_blocks c_inode_nr
  | false ↦ do
    io_buf ← lift (read_sectors part.disk (all_blocks block_idx) (λ x. 0) 1)
    elim (name_in_sector (512 / part.sb.dir_entry_size) 0 io_buf c_inode_nr) [
      | some name ↦ returns (some name)
      | none ↦ name_loop left (block_idx + 1) part all_blocks c_inode_nr
    ]
]

-- `path` with a slash and the name behind it; `none` is -1
unfoldable pub get_child_dir_name : Fs → ℕ → ℕ → List ℕ → Flow (Option (List ℕ) × Fs)
get_child_dir_name fs p_inode_nr c_inode_nr path = do
  r ← open_inode fs p_inode_nr
  let parent = r.1.files.inodes r.0
  all ← lift (dir_blocks fs.part parent (λ n. 0))
  let closed = set_files r.1 (inode_close r.1.files r.0)
  name ← name_loop (if parent.i_sectors 12 == 0 then 12 else 140) 0 fs.part all c_inode_nr
  elim name [
    | none ↦ returns (none, closed)
    | some n ↦ returns (some (path ++ (slash ∷ n)), closed)
  ]

-- the loop up to the root directory
unfoldable pub cwd_loop : ℕ → Fs → ℕ → List ℕ → Flow (Option (List ℕ) × Fs)
cwd_loop fuel fs zero full_path_reverse = returns (some full_path_reverse, fs)
cwd_loop zero fs (suc child) full_path_reverse = endless
cwd_loop (suc fuel) fs (suc child) full_path_reverse = do
  r ← get_parent_dir_inode_nr fs (suc child)
  n ← get_child_dir_name r.1 r.0 (suc child) full_path_reverse
  elim n.0 [ none ↦ returns (none, n.1) | some path ↦ cwd_loop fuel n.1 r.0 path ]

-- `strrchr(path, '/')`: what is before the last slash, and the string from it on
unfoldable pub last_slash : List ℕ → Option (List ℕ × List ℕ)
last_slash [] = none
last_slash (c ∷ path) = elim (last_slash path) [
  | some s ↦ some (c ∷ s.0, s.1)
  | none ↦ if c == slash then some ([], c ∷ path) else none
]

-- the loop that turns the path around; each round takes at least the slash
unfoldable pub reverse_loop : ℕ → List ℕ → List ℕ → List ℕ
reverse_loop zero full_path_reverse buf = buf
reverse_loop (suc fuel) full_path_reverse buf = elim (last_slash full_path_reverse) [
  | none ↦ buf
  | some s ↦ reverse_loop fuel s.0 (buf ++ s.1)
]

-- The answer `none` is `NULL`.
unfoldable pub sys_getcwd : ℕ → Fs → ℕ → Flow (Option (List ℕ) × Fs)
sys_getcwd fuel fs size =
    let io_buf = alloc fs in
    if io_buf.0 == 0 then returns (none, io_buf.1) else (do
      require (ltb fs.cwd_inode_nr 4096)
      if fs.cwd_inode_nr == 0 then returns (some (slash ∷ []), io_buf.1) else (do
        r ← cwd_loop fuel io_buf.1 fs.cwd_inode_nr []
        elim r.0 [
          | none ↦ returns (none, r.1)
          | some path ↦ do
            require (leb (length path) size)
            returns (some (reverse_loop (length path) path []), r.1)
        ]))
