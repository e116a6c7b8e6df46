-- ===== src/Transfer/RoundTrip.antt =====
-- What was written through a descriptor is read back through it.
use elephant_os.Base.{ℕ, ◌^◌, ◌<◌, ◌≡◌, true, false, some, ◌==◌}
use elephant_os.Files.{Files}
use elephant_os.Opening.{is_writing}
use elephant_os.Lookup.{Fs}
use elephant_os.Transfer.{stdout_no}

-- a descriptor of a task for a file that is open for writing
pub record IsOpen (fs : Fs) (fd g : ℕ) : Type 0 where
  pub file : fd < 2 ^ 31
  pub not_stdout : (fd == stdout_no) ≡ false
  pub row : fs.files.fd_table fd ≡ some g
  pub in_table : g < 32
  pub for_writing : is_writing (fs.files.file_table g).fd_flag ≡ true
