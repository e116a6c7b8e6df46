-- ===== src/Files.antt =====
-- fs/file.c, fs/fs.c and fs/inode.c: descriptors, the table of open files, seeking, and the place
-- of an inode on the disk; and the splitting of paths. An inode in memory is known by its address,
-- 0 is `NULL`, and `none` in the descriptor table is -1.
pub mod Descriptors
pub mod Paths
mod Tests
use elephant_os.Base.{
  length, ℕ, zero, suc, ◌+◌, ◌-◌, ◌*◌, ◌/◌, ◌%◌, ◌^◌, Bool, true, false, not, ◌&&◌, ◌||◌, Option,
  none, some, List, [], ◌∷◌, ◌==◌, ltb, leb, if◌then◌else◌, update, u32, sub32, Outcome, done,
  panic, ◌>>=◌, ◌>>◌, assert,
}

pub record Inode : Type 0 where
  pub i_no : ℕ
  pub i_size : ℕ
  pub i_open_cnts : ℕ
  pub write_deny : Bool
  pub i_sectors : ℕ → ℕ

pub record File : Type 0 where
  pub fd_pos : ℕ
  pub fd_flag : ℕ
  pub fd_inode : ℕ

-- `fd_table` is the running task's; `open_inodes` is the partition's list
pub record Files : Type 0 where
  pub file_table : ℕ → File
  pub fd_table : ℕ → Option ℕ
  pub inodes : ℕ → Inode
  pub open_inodes : List ℕ

abbrev pub max_file_open : ℕ
max_file_open = 32

abbrev pub max_files_open_per_proc : ℕ
max_files_open_per_proc = 8

abbrev pub set_file : Files → ℕ → File → Files
set_file s g f = record s { file_table = λ x. if x == g then f else s.file_table x }

abbrev pub set_fd : Files → ℕ → Option ℕ → Files
set_fd s fd g = record s { fd_table = λ x. if x == fd then g else s.fd_table x }

abbrev pub set_inode : Files → ℕ → Inode → Files
set_inode s a i = record s { inodes = λ x. if x == a then i else s.inodes x }

-- the loops from slot 3 on, over the slots that are left
unfoldable pub global_loop : Files → ℕ → ℕ → Option ℕ
global_loop s fd_idx zero = none
global_loop s fd_idx (suc left) =
    let rest = global_loop s (fd_idx + 1) left in
    if (s.file_table fd_idx).fd_inode == 0 then some fd_idx else rest

unfoldable pub get_free_slot_in_global : Files → Option ℕ
get_free_slot_in_global s = global_loop s 3 (max_file_open - 3)

abbrev pub is_free : Option ℕ → Bool
is_free none = true
is_free (some g) = false

unfoldable pub install_loop : Files → ℕ → ℕ → ℕ → Option ℕ × Files
install_loop s g local_fd_idx zero = (none, s)
install_loop s g local_fd_idx (suc left) =
    let rest = install_loop s g (local_fd_idx + 1) left in
    if is_free (s.fd_table local_fd_idx)
    then (some local_fd_idx, set_fd s local_fd_idx (some g))
    else rest

unfoldable pub pcb_fd_install : Files → ℕ → Option ℕ × Files
pcb_fd_install s globa_fd_idx = install_loop s globa_fd_idx 3 (max_files_open_per_proc - 3)

unfoldable pub fd_local2global : Files → ℕ → Outcome ℕ
fd_local2global s local_fd = elim (s.fd_table local_fd) [
  | none ↦ panic
  | some g ↦ do assert (ltb g max_file_open); done g
]

-- The list keeps an inode that is open elsewhere; the memory of one that is not is freed.
unfoldable pub inode_close : Files → ℕ → Files
inode_close s a =
    let i = s.inodes a in
    let cnt = sub32 i.i_open_cnts 1 in
    let s' = set_inode s a (record i { i_open_cnts = cnt }) in
    if cnt == 0 then record s' { open_inodes = without a s.open_inodes } else s'
  where
    without : ℕ → List ℕ → List ℕ
    without b [] = []
    without b (x ∷ xs) = let rest = without b xs in if x == b then xs else x ∷ rest

unfoldable pub file_close : Files → ℕ → Files
file_close s g =
    let f = s.file_table g in
    let i = s.inodes f.fd_inode in
    let s1 = set_inode s f.fd_inode (record i { write_deny = false }) in
    let s2 = inode_close s1 f.fd_inode in set_file s2 g (record f { fd_inode = 0 })

abbrev pub is_negative : ℕ → Bool
is_negative a = leb (2 ^ 31) a

-- `true` is the return value 0, `false` is -1
unfoldable pub sys_close : Files → ℕ → Outcome (Bool × Files)
sys_close s fd =
    if ltb 2 fd && not (is_negative fd)
    then (do g ← fd_local2global s fd; done (true, set_fd (file_close s g) fd none))
    else done (false, s)

pub data Whence : Type 0 where
  seek_set seek_cur seek_end : Whence

-- `a > b` and `a < 0` on `int32_t`
abbrev pub int_gt : ℕ → ℕ → Bool
int_gt a b = ltb ((b + 2 ^ 31) % 2 ^ 32) ((a + 2 ^ 31) % 2 ^ 32)

unfoldable pub new_position : File → ℕ → ℕ → Whence → ℕ
new_position f size offset Whence.seek_set = offset
new_position f size offset Whence.seek_cur = u32 (f.fd_pos + offset)
new_position f size offset Whence.seek_end = u32 (size + offset)

-- An argument `whence` that is none of the three fails the code's `ASSERT`.
unfoldable pub sys_lseek : Files → ℕ → ℕ → Whence → Outcome (Option ℕ × Files)
sys_lseek s fd offset whence = if is_negative fd then done (none, s) else (do
  g ← fd_local2global s fd
  let f = s.file_table g
  let size = (s.inodes f.fd_inode).i_size
  let new_pos = new_position f size offset whence
  if is_negative new_pos || int_gt new_pos (sub32 size 1)
      then done (none, s)
      else done (some new_pos, set_file s g (record f { fd_pos = new_pos })))

-- `sizeof(struct inode)`: 4 words, 13 sector numbers, and the two pointers of the list element
abbrev pub inode_size : ℕ
inode_size = 76

pub record InodePosition : Type 0 where
  pub two_sec : Bool
  pub sec_lba : ℕ
  pub off_size : ℕ

unfoldable pub inode_locate : ℕ → ℕ → Outcome InodePosition
inode_locate inode_table_lba inode_no =
    let off_size = inode_no * inode_size in
    let off_size_in_sec = off_size % 512 in
    do
      assert (ltb inode_no 4096)
      done (record {
        two_sec = ltb (512 - off_size_in_sec) inode_size;
        sec_lba = u32 (inode_table_lba + off_size / 512);
        off_size = off_size_in_sec;
      })

-- Paths are strings, that is, lists of characters; a pointer into one is what is left of it. The
-- characters of the name are returned; the code writes no NUL behind them.
abbrev pub slash : ℕ
slash = 47

unfoldable pub skip_slashes : List ℕ → List ℕ
skip_slashes [] = []
skip_slashes (c ∷ path) = let rest = skip_slashes path in if c == slash then rest else c ∷ path

unfoldable pub split_name : List ℕ → List ℕ × List ℕ
split_name [] = ([], [])
split_name (c ∷ path) =
    let rest = split_name path in if c == slash then ([], c ∷ path) else (c ∷ rest.0, rest.1)

abbrev pub or_end : List ℕ → Option (List ℕ)
or_end [] = none
or_end (c ∷ path) = some (c ∷ path)

unfoldable pub path_parse : List ℕ → List ℕ × Option (List ℕ)
path_parse pathname = let s = split_name (skip_slashes pathname) in (s.0, or_end s.1)

-- what `path_depth_cnt` returns; `overrun` is that a name is longer than its buffer of 16 bytes on the
-- stack, and the bytes behind the buffer are overwritten
pub data Depth : Type 0 where
  levels : ℕ → Depth
  overrun : Depth

-- The loop of `path_depth_cnt`, with the name that was parsed last. The name's buffer is clear
-- before each further call, so that an empty name ends the loop.
unfoldable pub depth_loop : ℕ → List ℕ × Option (List ℕ) → ℕ → Option Depth
depth_loop zero p depth = none
depth_loop (suc fuel) ([], p) depth = some (levels depth)
depth_loop (suc fuel) (c ∷ name, none) depth =
    some (if leb (length name) 15 then levels (depth + 1) else overrun)
depth_loop (suc fuel) (c ∷ name, some p) depth =
    let rest = depth_loop fuel (path_parse p) (depth + 1) in
    if leb (length name) 15 then rest else some overrun

-- The buffer is not clear before the first call, so that for a path without a name its first byte
-- decides whether the loop runs once.
unfoldable pub first_depth : ℕ → ℕ → List ℕ × Option (List ℕ) → Option Depth
first_depth fuel first_byte ([], p) = some (levels (if first_byte == 0 then 0 else 1))
first_depth fuel first_byte (c ∷ name, p) = depth_loop fuel (c ∷ name, p) 0

unfoldable pub path_depth_cnt : ℕ → ℕ → List ℕ → Option Depth
path_depth_cnt fuel first_byte pathname = first_depth fuel first_byte (path_parse pathname)
