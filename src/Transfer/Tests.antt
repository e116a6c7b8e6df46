-- ===== src/Transfer/Tests.antt =====
-- Instances of the theorems about system calls on open files, with the file of the tests on file data.
use elephant_os.Base.{◌+◌, ◌*◌, some, none, [], ◌∷◌, ◌==◌, if◌then◌else◌}
use elephant_os.Files.{Files}
use elephant_os.Lookup.{Fs}
use elephant_os.FileData.Tests.{short_file, small_part}

-- descriptor 3 is row 5 of the table, open for reading and writing, with its inode at 5000
abbrev fs : Fs
fs = record {
  part = small_part;
  files = record {
    file_table = λ g. record { fd_pos = 4; fd_flag = 2; fd_inode = 5000 };
    fd_table = λ fd. if fd == 3 then some 5 else none;
    inodes = λ a. short_file.inode;
    open_inodes = 5000 ∷ [];
  };
  root_inode = 6000;
  malloc = λ n. 0xc0100000 + n * 4096;
  allocs = 0;
  cwd_inode_nr = 0;
}
