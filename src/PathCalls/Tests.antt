-- ===== src/PathCalls/Tests.antt =====
-- Instances of the theorems about the system calls on paths.
use elephant_os.Base.{
  ℕ, ◌+◌, ◌*◌, ◌≡◌, refl, arith, inr, false, none, some, List, [], ◌∷◌, ◌==◌, if◌then◌else◌,
}
use elephant_os.Base.Flow.{returns}
use elephant_os.Files.{path_parse, split_name, skip_slashes}
use elephant_os.Disk.{Partition, read_sectors, copy, word_at}
use elephant_os.Directory.{
  search_dir_entry, dir_blocks, search_loop, entry_or, find_name, is_name, entry_from,
}
use elephant_os.Lookup.{Fs, Found, root_dir, walk_loop, search_file, dir_close}
use elephant_os.PathCalls.{sys_unlink, sys_rmdir, rmdir_found}
use elephant_os.PathCalls.Errors.{IsOpen, sys_unlink_in_use, remove_failed}

-- a root directory with the file "a", which is inode 5
abbrev part : Partition
part = record {
  start_lba = 0;
  sec_cnt = 2000;
  sb = record {
    block_bitmap_lba = 10;
    inode_bitmap_lba = 20;
    inode_table_lba = 30;
    data_start_lba = 700;
    dir_entry_size = 24;
    magic = 0x19590318;
    sec_cnt = 2000;
    inode_cnt = 4096;
    part_lba_base = 0;
    block_bitmap_sects = 1;
    inode_bitmap_sects = 1;
    inode_table_sects = 608;
    root_inode_no = 0;
  };
  block_bitmap = record { btmp_bytes_len = 2; bits = λ i. 0 };
  inode_bitmap = record { btmp_bytes_len = 2; bits = λ i. 0 };
  disk = λ a. if a == 358400 then 97 else if a == 358416 then 5 else if a == 358420 then 1 else 0;
}

-- the file is open in slot 3
abbrev file_open_in_3 : Fs
file_open_in_3 = record {
  part = part;
  files = record {
    file_table = λ g. record { fd_pos = 0; fd_flag = 0; fd_inode = if g == 3 then 0x2000 else 0 };
    fd_table = λ fd. none;
    inodes = λ a. record {
      i_no = if a == 0x1000 then 0 else 5;
      i_size = 48;
      i_open_cnts = 1;
      write_deny = false;
      i_sectors = λ n. if n == 0 then 700 else 0;
    };
    open_inodes = 0x2000 ∷ 0x1000 ∷ [];
  };
  root_inode = 0x1000;
  malloc = λ n. 0x3000 + 0x100 * n;
  allocs = 0;
  cwd_inode_nr = 0;
}

abbrev slash_a : List ℕ
slash_a = 47 ∷ 97 ∷ []

abbrev found : Found
found = record {
  inode_no = some 5;
  searched = record {
    searched_path = slash_a;
    parent_dir = root_dir file_open_in_3;
    file_type = 1;
  };
  fs = file_open_in_3;
}

found_a : search_file file_open_in_3 slash_a ≡ returns found
unfolding search_file walk_loop path_parse split_name skip_slashes search_dir_entry dir_blocks
    search_loop read_sectors entry_or find_name is_name copy entry_from word_at
found_a = refl

a-IsOpen : IsOpen file_open_in_3.files 5
a-IsOpen = record { slot = 3; in_table = omega arith; used = ground arith; numbered = refl }

sys_unlink_in_use_example :
    (fs' : Fs) × (sys_unlink file_open_in_3 slash_a 1000 ≡ returns (false, fs')) × (fs'.part ≡ part)
sys_unlink_in_use_example =
    sys_unlink_in_use file_open_in_3 slash_a 1000 5 found (omega arith) found_a refl (ground arith)
      a-IsOpen

a_is_no_directory : sys_rmdir file_open_in_3 slash_a 1000 ≡ returns (false, file_open_in_3)
unfolding sys_rmdir rmdir_found dir_close
a_is_no_directory = rw (sys_rmdir, found_a) refl

remove_failed_example : file_open_in_3.part ≡ file_open_in_3.part
remove_failed_example =
    remove_failed file_open_in_3 file_open_in_3 slash_a 1000 (inr a_is_no_directory)
