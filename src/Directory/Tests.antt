-- ===== src/Directory/Tests.antt =====
-- Instances of the theorems about directories.
use elephant_os.Base.{
  ℕ, ◌+◌, ◌*◌, ◌≡◌, refl, true, false, none, some, [], ◌∷◌, length, get_or, arith, ltb, ◌==◌,
  if◌then◌else◌, Mem, done,
}
use elephant_os.Bitmap.{bitmap_set}
use elephant_os.Bitmap.Set.{set_bit}
use elephant_os.Files.{Inode}
use elephant_os.Disk.{Partition, copy, word_at, bitmap_sync, write_sectors}
use elephant_os.Directory.{DirEntry, is_name, dir_blocks, search_dir_entry, dir_read}
use elephant_os.Directory.Search.{sector, Searched, BlocksOnDisk, search_dir_entry_lem}
use elephant_os.Directory.Entries.{used_entries}
use elephant_os.Directory.Listing.{listing, block_cnt, dir_read_lem}
use elephant_os.Directory.Update.{Dir, find_free, sync_dir_entry}
use elephant_os.Directory.Delete.{free_block, remove_entry}
use elephant_os.Directory.Created.{HasSlot, IsNew, IsEntry, search_dir_entry-sync_dir_entry}
use elephant_os.Directory.Indirect.{remove_entry_never}

-- Block 701 has the entries "." in slot 0 and "a", inode 3, in slot 2.
abbrev two_entries : Mem
two_entries a =
    if a == 358912
    then 46
    else if a == 358932
    then 2
    else if a == 358960
    then 97
    else if a == 358976
    then 3
    else if a == 358980
    then 1
    else 0

abbrev part : Partition
part = record {
  start_lba = 0;
  sec_cnt = 2000;
  sb = record {
    block_bitmap_lba = 10;
    inode_bitmap_lba = 20;
    inode_table_lba = 30;
    data_start_lba = 700;
    dir_entry_size = 24;
    magic = 0x19590318;
    sec_cnt = 2000;
    inode_cnt = 4096;
    part_lba_base = 0;
    block_bitmap_sects = 1;
    inode_bitmap_sects = 1;
    inode_table_sects = 608;
    root_inode_no = 0;
  };
  block_bitmap = record { btmp_bytes_len = 8; bits = λ i. 0 };
  inode_bitmap = record { btmp_bytes_len = 8; bits = λ i. 0 };
  disk = two_entries;
}

abbrev one_block : ℕ → ℕ
one_block b = if b == 0 then 701 else 0

abbrev dir_inode : Inode
dir_inode = record {
  i_no = 0;
  i_size = 48;
  i_open_cnts = 1;
  write_deny = false;
  i_sectors = one_block;
}

abbrev collected_blocks : ℕ → ℕ
collected_blocks n = if ltb n 12 then one_block n else 0

collected : dir_blocks part dir_inode (λ b. 0) ≡ done collected_blocks
unfolding dir_blocks
collected = refl

collected_blocks-BlocksOnDisk : BlocksOnDisk collected_blocks
unfolding BlocksOnDisk
collected_blocks-BlocksOnDisk b lt ne = ground arith

search_dir_entry_lem_example :
    Searched two_entries collected_blocks 21
      (97 ∷ [])
      0
      140
      (search_dir_entry part dir_inode (some (λ b. 0)) (97 ∷ []))
search_dir_entry_lem_example =
    search_dir_entry_lem part dir_inode (λ b. 0) collected_blocks (97 ∷ []) collected
      collected_blocks-BlocksOnDisk refl

two_used : 48 ≡ 24 * length (listing 12 0 two_entries collected_blocks)
unfolding listing used_entries word_at copy
two_used = refl

abbrev no_entry : DirEntry
no_entry = record { filename = λ x. 0; i_no = 0; f_type = 0 }

dir_read_lem_example :
    dir_read part dir_inode (24 * 1)
    ≡ done (
        if ltb 1 (length (listing (block_cnt dir_inode) 0 two_entries collected_blocks))
        then (
          some (get_or (listing (block_cnt dir_inode) 0 two_entries collected_blocks) 1 no_entry),
          24 * 2,
        )
        else (none, 24 * 1))
dir_read_lem_example =
    dir_read_lem part dir_inode collected_blocks 1 no_entry collected collected_blocks-BlocksOnDisk
      refl (omega arith) two_used

abbrev dir : Dir
dir = record { part = part; inode = dir_inode }

-- file "b" with inode 4
abbrev new_entry : DirEntry
new_entry = record { filename = λ x. if x == 0 then 98 else 0; i_no = 4; f_type = 1 }

slot_one_free : find_free 21 0 (sector two_entries 701) ≡ some 1
unfolding find_free word_at copy
slot_one_free = refl

-- block 701 is bit 1 of the map
abbrev freed_dir : Dir
freed_dir =
    let b = set_bit part.block_bitmap 1 false in
    let p : Partition = record part {
      block_bitmap = b;
      disk = copy two_entries (10 * 512) (λ x. b.bits (0 + x)) (1 * 512);
    } in
    record { part = p; inode = dir_inode }

free_block_701 : free_block dir 701 ≡ done freed_dir
unfolding free_block bitmap_set bitmap_sync write_sectors set_bit
free_block_701 = refl

remove_entry_never_example :
    remove_entry 1000 dir
      (λ n. 701)
      12
      two_entries
      (record { is_dir_first_block = false; dir_entry_cnt = 1; dir_entry_found = some 0 })
      0
    ≡ done none
remove_entry_never_example =
    remove_entry_never 1000 dir freed_dir (λ n. 701) 12 two_entries
      (record { is_dir_first_block = false; dir_entry_cnt = 1; dir_entry_found = some 0 }) 0 refl
      refl (omega arith) free_block_701

slot_one-HasSlot : HasSlot dir 0 1
slot_one-HasSlot = record {
  size = refl;
  whole = refl;
  direct = omega arith;
  no_table = refl;
  on_disk = λ i lt. ground arith;
  present = λ i le. ground arith;
  full = λ i lt. absurd (omega arith);
  free = slot_one_free;
}

b-IsNew : IsNew dir (98 ∷ [])
unfolding is_name copy
b-IsNew i j lt ne lt' = ground arith

new_entry-IsEntry : IsEntry new_entry (98 ∷ [])
unfolding is_name
new_entry-IsEntry = record {
  named = refl;
  short = omega arith;
  no_small = omega arith;
  type_small = omega arith;
}

search_dir_entry-sync_dir_entry_example :
    (d' : Dir) × (g : DirEntry) × (sync_dir_entry dir new_entry ≡ done (true, d'))
    × (search_dir_entry d'.part d'.inode (some (λ n. 0)) (98 ∷ []) ≡ done (some g))
    × (g.i_no ≡ 4)
    × (g.f_type ≡ 1)
search_dir_entry-sync_dir_entry_example =
    search_dir_entry-sync_dir_entry dir new_entry 0 1 (98 ∷ []) slot_one-HasSlot b-IsNew
      new_entry-IsEntry
