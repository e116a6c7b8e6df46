-- ===== src/Files/Tests.antt =====
-- Instances of the theorems about files and paths.
use elephant_os.Base.{
  ℕ, ◌≤◌, ◌≡◌, ◌≢◌, refl, true, false, [], ◌∷◌, none, some, ◌==◌, if◌then◌else◌, arith, done,
}
use elephant_os.Files.{levels, Files, pcb_fd_install, fd_local2global, sys_close, path_depth_cnt}
use elephant_os.Files.Descriptors.{pcb_fd_install-sys_close}
use elephant_os.Files.Paths.{path_depth_cnt-names}

-- Slot 3 of the table holds a file of 1000 bytes at position 400, and descriptor 3 stands for it.
abbrev one_file : Files
one_file = record {
  file_table = λ g.
      if g == 3
      then record { fd_pos = 400; fd_flag = 0; fd_inode = 0x5000 }
      else record { fd_pos = 0; fd_flag = 0; fd_inode = 0 };
  fd_table = λ fd. if fd == 3 then some 3 else none;
  inodes = λ a. record {
    i_no = 7;
    i_size = 1000;
    i_open_cnts = 1;
    write_deny = true;
    i_sectors = λ n. 0;
  };
  open_inodes = 0x5000 ∷ [];
}

pcb_fd_install-sys_close_example :
    (r : ℕ) × (s1 s2 : Files) × (pcb_fd_install one_file 3 ≡ (some r, s1))
    × (3 ≤ r)
    × (r ≤ 4)
    × (fd_local2global s1 r ≡ done 3)
    × (sys_close s1 r ≡ done (true, s2))
    × ((x : ℕ) → s2.fd_table x ≡ one_file.fd_table x)
    × ((s2.file_table 3).fd_inode ≡ 0)
    × ((s2.inodes 0x5000).write_deny ≡ false)
    × ((x : ℕ) → x ≢ 3 → s2.file_table x ≡ one_file.file_table x)
pcb_fd_install-sys_close_example =
    pcb_fd_install-sys_close one_file 3 4 (omega arith) (omega arith) (omega arith) refl

-- "//a/b/"
path_depth_cnt-names_example :
    path_depth_cnt 9 7 (47 ∷ 47 ∷ 97 ∷ 47 ∷ 98 ∷ 47 ∷ []) ≡ some (levels 2)
path_depth_cnt-names_example =
    path_depth_cnt-names 9 7 (47 ∷ 47 ∷ 97 ∷ 47 ∷ 98 ∷ 47 ∷ []) (omega arith)
