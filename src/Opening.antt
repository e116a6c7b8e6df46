-- ===== src/Opening.antt =====
-- fs/inode.c and fs/file.c: `inode_open` and `file_open` on the partition `cur_part`, with the table
-- of files, the inodes in memory and the disk. The address that `sys_malloc` gives to an inode and
-- the memory that is read into are arguments.
pub mod Release
pub mod Freed
pub mod Released
pub mod Writers
mod Tests
use elephant_os.Base.{
  ℕ, zero, suc, ◌+◌, Bool, true, false, not, ◌&&◌, ◌||◌, Option, none, some, List, [], ◌∷◌, ◌==◌,
  if◌then◌else◌, bit_and, u32, Mem, Outcome, done, panic, ◌>>=◌,
}
use elephant_os.Files.{
  Inode, File, Files, set_file, set_inode, get_free_slot_in_global, pcb_fd_install,
}
use elephant_os.Disk.{Partition, read_inode}

-- the open inode with this number, searched from the front of the list
unfoldable pub find_open : (ℕ → Inode) → List ℕ → ℕ → Option ℕ
find_open inodes [] inode_no = none
find_open inodes (a ∷ rest) inode_no =
    let found = find_open inodes rest inode_no in
    if (inodes a).i_no == inode_no then some a else found

-- the state after one more opening of the inode at `a`
abbrev pub reopened : Files → ℕ → Files
reopened s a =
    let i : Inode = record (s.inodes a) { i_open_cnts = u32 ((s.inodes a).i_open_cnts + 1) } in
    set_inode s a i

-- the state with an inode that was read from the disk, at the front of the list
abbrev pub opened : Files → ℕ → Inode → Files
opened s fresh i =
    let j : Inode = record i { i_open_cnts = 1 } in
    record (set_inode s fresh j) { open_inodes = fresh ∷ s.open_inodes }

unfoldable pub inode_open : Partition → Files → ℕ → ℕ → Mem → Outcome (ℕ × Files)
inode_open part s inode_no fresh inode_buf = elim (find_open s.inodes s.open_inodes inode_no) [
  | some a ↦ done (a, reopened s a)
  | none ↦ do i ← read_inode part inode_no inode_buf; done (fresh, opened s fresh i)
]

-- `flag & O_WRONLY || flag & O_RDWR`
abbrev pub is_writing : ℕ → Bool
is_writing flag = not (bit_and flag 1 == 0) || not (bit_and flag 2 == 0)

abbrev pub deny : Files → ℕ → Files
deny s a = let i : Inode = record (s.inodes a) { write_deny = true } in set_inode s a i

-- `file_open` behind `inode_open`; interrupts are off for the test of `write_deny`
unfoldable pub claim_file : Files → ℕ → ℕ → ℕ → Option ℕ × Files
claim_file s a fd_idx flag =
    let s1 = set_file s fd_idx (record { fd_pos = 0; fd_flag = flag; fd_inode = a }) in
    if is_writing flag
    then (if (s1.inodes a).write_deny then (none, s1) else pcb_fd_install (deny s1 a) fd_idx)
    else pcb_fd_install s1 fd_idx

-- `none` is -1
unfoldable pub file_open : Partition → Files → ℕ → ℕ → ℕ → Mem → Outcome (Option ℕ × Files)
file_open part s inode_no flag fresh inode_buf = elim (get_free_slot_in_global s) [
  | none ↦ done (none, s)
  | some fd_idx ↦ do
    r ← inode_open part s inode_no fresh inode_buf
    done (claim_file r.1 r.0 fd_idx flag)
]
