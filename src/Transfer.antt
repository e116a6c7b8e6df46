-- ===== src/Transfer.antt =====
-- fs/fs.c: `sys_write` and `sys_read`, through a task's descriptor to an open file, and `sys_readdir`.
-- The memory that `sys_malloc` gives the calls below is an argument, as in the part on file data.
pub mod RoundTrip
mod Tests
use elephant_os.Base.{
  ℕ, true, false, Option, none, some, if◌then◌else◌, ◌==◌, Mem, Outcome, done, ◌>>=◌,
}
use elephant_os.Files.{File, Files, set_file, set_inode, is_negative, fd_local2global}
use elephant_os.Opening.{is_writing}
use elephant_os.Disk.{copy}
use elephant_os.FileData.{OpenFile, file_write, file_read}
use elephant_os.Directory.{DirEntry, dir_read}
use elephant_os.Lookup.{Fs, OpenDir}

-- the open file of a row of `file_table`, and the state after a call has changed it
abbrev pub view : Fs → ℕ → OpenFile
view fs g =
    let f = fs.files.file_table g in
    record { part = fs.part; inode = fs.files.inodes f.fd_inode; fd_pos = f.fd_pos }

abbrev pub store : Fs → ℕ → OpenFile → Fs
store fs g o =
    let f = fs.files.file_table g in
    let files =
      set_file (set_inode fs.files f.fd_inode o.inode) g (record f { fd_pos = o.fd_pos }) in
    record fs { part = o.part; files = files }

abbrev pub stdout_no : ℕ
stdout_no = 1

-- What a call of `sys_write` does besides its result: the text for the console, or the new state.
pub data Effect : Type 0 where
  shown : Mem → Effect
  changed : Fs → Effect

-- `none` is -1. `tmp_buf` has 1024 bytes and is followed by other memory of the stack, which a
-- longer text overwrites.
unfoldable pub sys_write :
    Option Mem → Option (ℕ → ℕ) → Fs → ℕ → Mem → ℕ → Outcome (Option ℕ × Effect)
sys_write io_buf all_blocks fs fd buf count =
    if is_negative fd
    then done (none, changed fs)
    else if fd == stdout_no
    then done (some count, shown (copy (λ x. 0) 0 buf count))
    else (do
      g ← fd_local2global fs.files fd
      let wr_file = fs.files.file_table g
      if is_writing wr_file.fd_flag
          then (do
            (bytes_written, o) ← file_write io_buf all_blocks (view fs g) buf count
            done (bytes_written, changed (store fs g o)))
          else done (none, changed fs))

-- the result, the buffer and the new state
unfoldable pub sys_read : Option (ℕ → ℕ) → Fs → ℕ → Mem → ℕ → Outcome (Option ℕ × Mem × Fs)
sys_read all_blocks fs fd buf count = if is_negative fd then done (none, buf, fs) else (do
  g ← fd_local2global fs.files fd
  (bytes_read, buf', o) ← file_read all_blocks (view fs g) buf count
  done (bytes_read, buf', store fs g o))

unfoldable pub sys_readdir : Fs → OpenDir → Outcome (Option DirEntry × OpenDir)
sys_readdir fs dir = do
  (e, pos) ← dir_read fs.part (fs.files.inodes dir.inode) dir.dir_pos
  done (e, record dir { dir_pos = pos })
