-- ===== src/Directory.antt =====
-- fs/dir.c: the entries of a directory in the blocks of its inode. An entry is 24 bytes on the disk:
-- a name of 16 bytes, the number of an inode and a type. Only
-- `search_dir_entry` has the failure of a `sys_malloc` call.
pub mod Search
pub mod Entries
pub mod Listing
pub mod Update
pub mod Delete
pub mod Insert
pub mod Indirect
pub mod Created
mod Tests
use elephant_os.Base.{
  ℕ, zero, suc, ◌+◌, ◌-◌, ◌*◌, ◌/◌, ◌%◌, ◌^◌, Bool, true, false, not, ◌&&◌, ◌||◌, Option, none,
  some, List, [], ◌∷◌, ◌==◌, ltb, leb, if◌then◌else◌, update, u32, sub32, length, get_or, Mem,
  Outcome, done, panic, ◌>>=◌, ◌>>◌, assert,
}
use elephant_os.Bitmap.{Bitmap, bitmap_set}
use elephant_os.Files.{Inode}
use elephant_os.Disk.{
  Partition, SuperBlock, BitmapType, copy, read_sectors, write_sectors, word_at, bytes_of,
  inode_sync, bitmap_sync, block_bitmap_alloc,
}
use elephant_os.FileData.{read_table}

pub record DirEntry : Type 0 where
  pub filename : Mem
  pub i_no : ℕ
  pub f_type : ℕ

abbrev pub max_file_name_len : ℕ
max_file_name_len = 16

-- `sizeof(struct dir_entry)`
abbrev pub entry_size : ℕ
entry_size = 24

-- `!strcmp(filename, name)` for a string `name`
unfoldable pub is_name : Mem → ℕ → List ℕ → Bool
is_name m a [] = m a == 0
is_name m a (c ∷ name) = let rest = is_name m (a + 1) name in if m a == c then rest else false

unfoldable pub entry_from : Mem → ℕ → DirEntry
entry_from m a = record {
  filename = λ x. m (a + x);
  i_no = word_at m (a + 16);
  f_type = word_at m (a + 20);
}

-- an entry as bytes
unfoldable pub entry_bytes : DirEntry → Mem
entry_bytes e x =
    if ltb x 16 then e.filename x else bytes_of (λ n. if n == 0 then e.i_no else e.f_type) (x - 16)

-- all addresses of the directory's blocks; the rest of the array is as `all_blocks`
unfoldable pub dir_blocks : Partition → Inode → (ℕ → ℕ) → Outcome (ℕ → ℕ)
dir_blocks part inode all_blocks =
    let direct : ℕ → ℕ = λ n. if ltb n 12 then inode.i_sectors n else all_blocks n in
    if inode.i_sectors 12 == 0
    then done direct
    else read_table part.disk (inode.i_sectors 12) direct

-- the loop over the entries of one sector
unfoldable pub find_name : ℕ → ℕ → Mem → List ℕ → Option ℕ
find_name zero dir_entry_idx buf name = none
find_name (suc left) dir_entry_idx buf name =
    let rest = find_name left (dir_entry_idx + 1) buf name in
    if is_name buf (dir_entry_idx * entry_size) name then some dir_entry_idx else rest

-- the entry that was found in a sector, or what the other blocks give
unfoldable pub entry_or : Mem → Option ℕ → Outcome (Option DirEntry) → Outcome (Option DirEntry)
entry_or buf (some dir_entry_idx) others = done (some (entry_from buf (dir_entry_idx * entry_size)))
entry_or buf none others = others

-- the loop over the blocks that are left
unfoldable pub search_loop : ℕ → ℕ → Mem → (ℕ → ℕ) → ℕ → List ℕ → Outcome (Option DirEntry)
search_loop zero block_idx disk all_blocks dir_entry_cnt name = done none
search_loop (suc left) block_idx disk all_blocks dir_entry_cnt name =
    elim (all_blocks block_idx == 0) [
      | true ↦ search_loop left (block_idx + 1) disk all_blocks dir_entry_cnt name
      | false ↦ do
        buf ← read_sectors disk (all_blocks block_idx) (λ x. 0) 1
        entry_or buf (find_name dir_entry_cnt 0 buf name)
            (search_loop left (block_idx + 1) disk all_blocks dir_entry_cnt name)
    ]

-- `none` is `false`; `all_blocks` is the memory that `sys_malloc` returns, or `NULL`
unfoldable pub search_dir_entry :
    Partition → Inode → Option (ℕ → ℕ) → List ℕ → Outcome (Option DirEntry)
search_dir_entry part inode none name = done none
search_dir_entry part inode (some all_blocks) name = do
  all ← dir_blocks part inode all_blocks
  search_loop 140 0 part.disk all (512 / part.sb.dir_entry_size) name

unfoldable pub create_dir_entry : List ℕ → ℕ → ℕ → DirEntry → Outcome DirEntry
create_dir_entry filename inode_no file_type p_de = do
  assert (leb (length filename) max_file_name_len)
  done (record {
    filename = λ x. get_or filename x (p_de.filename x);
    i_no = inode_no;
    f_type = file_type;
  })

abbrev pub is_used : Mem → ℕ → Bool
is_used buf dir_entry_idx = not (word_at buf (dir_entry_idx * entry_size + 20) == 0)

-- The entries of one sector in `dir_read`: the entry that is returned, or the position reached.
pub data Reading : Type 0 where
  found : ℕ → Reading
  reached : ℕ → Reading

unfoldable pub read_entries : ℕ → ℕ → Mem → ℕ → ℕ → ℕ → Outcome Reading
read_entries zero dir_entry_idx buf dir_entry_size dir_pos cur = done (reached cur)
read_entries (suc left) dir_entry_idx buf dir_entry_size dir_pos cur =
    elim (is_used buf dir_entry_idx) [
      | false ↦ read_entries left (dir_entry_idx + 1) buf dir_entry_size dir_pos cur
      | true ↦ elim (ltb cur dir_pos) [
        | true ↦
            read_entries left (dir_entry_idx + 1) buf dir_entry_size dir_pos
              (u32 (cur + dir_entry_size))
        | false ↦ do assert (cur == dir_pos); done (found dir_entry_idx)
      ]
    ]

-- the entry that was found in a sector, or what the other blocks give
unfoldable pub after_sector :
    Mem → ℕ → ℕ → Reading → (ℕ → Outcome (Option DirEntry × ℕ)) → Outcome (Option DirEntry × ℕ)
after_sector buf size dir_pos (found dir_entry_idx) others =
    done (some (entry_from buf (dir_entry_idx * entry_size)), u32 (dir_pos + size))
after_sector buf size dir_pos (reached cur) others = others cur

unfoldable pub read_dir_loop :
    ℕ → ℕ → Partition → Inode → (ℕ → ℕ) → ℕ → ℕ → Outcome (Option DirEntry × ℕ)
read_dir_loop zero block_idx part inode all_blocks dir_pos cur = done (none, dir_pos)
read_dir_loop (suc left) block_idx part inode all_blocks dir_pos cur =
    let size = part.sb.dir_entry_size in
    elim (leb inode.i_size dir_pos) [
      | true ↦ done (none, dir_pos)
      | false ↦ elim (all_blocks block_idx == 0) [
        | true ↦ read_dir_loop left (block_idx + 1) part inode all_blocks dir_pos cur
        | false ↦ do
          buf ← read_sectors part.disk (all_blocks block_idx) (λ x. 0) 1
          r ← read_entries (512 / size) 0 buf size dir_pos cur
          after_sector buf size dir_pos r
              (λ cur'. read_dir_loop left (block_idx + 1) part inode all_blocks dir_pos cur')
      ]
    ]

-- the entry and the new `dir_pos`
unfoldable pub dir_read : Partition → Inode → ℕ → Outcome (Option DirEntry × ℕ)
dir_read part inode dir_pos = do
  all ← dir_blocks part inode (λ n. 0)
  read_dir_loop (if inode.i_sectors 12 == 0 then 12 else 140) 0 part inode all dir_pos 0

unfoldable pub dir_is_empty : Partition → Inode → Bool
dir_is_empty part inode = inode.i_size == part.sb.dir_entry_size * 2

-- The loop of `delete_dir_entry` that counts the indirect blocks; its index does not change. `none`
-- is that the fuel is not enough.
unfoldable pub count_indirect : ℕ → (ℕ → ℕ) → ℕ → ℕ → Option ℕ
count_indirect zero all_blocks indirect_block_idx indirect_blocks =
    if ltb indirect_block_idx 140 then none else some indirect_blocks
count_indirect (suc fuel) all_blocks indirect_block_idx indirect_blocks =
    let rest =
      count_indirect fuel all_blocks indirect_block_idx (
        if all_blocks indirect_block_idx == 0
        then indirect_blocks
        else u32 (indirect_blocks + 1)) in
    if ltb indirect_block_idx 140 then rest else some indirect_blocks
