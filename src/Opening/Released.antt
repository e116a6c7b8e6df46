-- ===== src/Opening/Released.antt =====
-- fs/inode.c: what `inode_release` does to the maps and the table of inodes.
use elephant_os.Base.{
  ℕ, ◌+◌, ◌*◌, ◌/◌, ◌%◌, ◌^◌, ◌<◌, ◌≤◌, ◌≡◌, ◌⊎◌, refl, ◌∙◌, ap, inl, inr, Bool, true, false, not,
  ◌&&◌, ◌||◌, arith, ◌==◌, leb, if◌then◌else◌, ==_self, lt→ltb, Mem, done,
}
use elephant_os.Base.Bits.{bit_set}
use elephant_os.Bitmap.{bitmap_scan_test}
use elephant_os.Bitmap.Set.{IsValid, set_bit, scan_test-set_bit, bitmap_set_zero}
use elephant_os.Files.{Files, inode_size, inode_close}
use elephant_os.Directory.{dir_blocks}
use elephant_os.Disk.{Partition, max_lba, copy, bitmap_sync, inode_delete, write_sectors}
use elephant_os.Disk.Bytes.{copy-inside, copy-before}
use elephant_os.Disk.Alloc.{Agrees, synced, HasBlocks, set_bit-Agrees, set_bit_len}
use elephant_os.Disk.Inodes.{HasTable, inode_addr, put_inode-patched}
use elephant_os.Opening.{inode_open}
use elephant_os.Opening.Freed.{Freed, IsBlock, listed, release_blocks_lem}
use elephant_os.Opening.Release.{release_number, inode_release}

-- The map of the blocks, the map of the inodes and the table of inodes follow each other on the disk,
-- the disk's copies of the maps are those in memory, and `n` is the number of an inode.
pub record HasMaps (p : Partition) (n : ℕ) : Type 0 where
  pub blocks : HasBlocks p
  pub table : HasTable p
  pub map : IsValid p.inode_bitmap
  pub number : n < 4096
  pub in_map : n < p.inode_bitmap.btmp_bytes_len * 8
  pub one_sector : p.inode_bitmap.btmp_bytes_len ≤ 512
  pub blocks_first :
      p.sb.block_bitmap_lba + (p.block_bitmap.btmp_bytes_len + 511) / 512 ≤ p.sb.inode_bitmap_lba
  pub map_first : p.sb.inode_bitmap_lba + 1 ≤ p.sb.inode_table_lba
  pub agrees : Agrees p.disk p.sb.block_bitmap_lba p.block_bitmap
  pub agrees_inodes : Agrees p.disk p.sb.inode_bitmap_lba p.inode_bitmap

-- Inode `n` is free in both copies of the map, its bytes on the disk are 0, and nothing else changes
-- in the map of the blocks, in the table, or behind it.
pub record Cleared (p p' : Partition) (n : ℕ) : Type 0 where
  pub same_sb : p'.sb ≡ p.sb
  pub same_blocks : p'.block_bitmap ≡ p.block_bitmap
  pub agrees : Agrees p'.disk p.sb.block_bitmap_lba p'.block_bitmap
  pub agrees_inodes : Agrees p'.disk p.sb.inode_bitmap_lba p'.inode_bitmap
  pub bits :
      (j : ℕ)
      → bitmap_scan_test p'.inode_bitmap j
        ≡ (if n == j then false else bitmap_scan_test p.inode_bitmap j)
  pub bytes : (x : ℕ) → x < inode_size → p'.disk (inode_addr p n + x) ≡ 0
  pub others :
      (a : ℕ)
      → p.sb.inode_table_lba * 512 ≤ a
      → (a < inode_addr p n) ⊎ (inode_addr p n + inode_size ≤ a)
      → p'.disk a ≡ p.disk a

module _ (p : Partition) (n : ℕ) (h : HasMaps p n) where
  abbrev unnumbered : Partition
  unnumbered =
      let b = set_bit p.inode_bitmap n false in
      record p { inode_bitmap = b; disk = synced p.disk p.sb.inode_bitmap_lba b n }

  abbrev cleared : Partition
  cleared = record unnumbered { disk = copy unnumbered.disk (inode_addr p n) (λ x. 0) inode_size }

  first_sector : n / 4096 ≡ 0
  first_sector = omega (arith, h.number)

  release_number_run : release_number p n ≡ done unnumbered
  unfolding release_number bitmap_sync write_sectors
  release_number_run =
      let near : leb (p.sb.inode_bitmap_lba + n / 4096) max_lba ≡ true =
        ground (arith, h.table.on_disk, h.map_first, first_sector) in
      let small : (p.sb.inode_bitmap_lba + n / 4096) % 2 ^ 32 ≡ p.sb.inode_bitmap_lba + n / 4096 =
        ground (arith, h.table.on_disk, h.map_first, first_sector) in
      rw (release_number, bitmap_set_zero p.inode_bitmap n, small, near) refl

  inode_delete_run : (io_buf : Mem) → inode_delete unnumbered n io_buf ≡ done cleared
  unfolding inode_delete
  inode_delete_run io_buf =
      let t : HasTable unnumbered = record {
        on_disk = h.table.on_disk;
        in_partition = h.table.in_partition;
        small = h.table.small;
      } in
      rw (lt→ltb n 4096 h.number) (put_inode-patched unnumbered t n h.number (λ x. 0) io_buf)

  -- below the table the disk changes only in the sector of the map
  cleared-disk :
      (a : ℕ)
      → (a < p.sb.inode_bitmap_lba * 512) ⊎ ((p.sb.inode_bitmap_lba + 1) * 512 ≤ a)
      → (a < inode_addr p n) ⊎ (inode_addr p n + inode_size ≤ a)
      → cleared.disk a ≡ p.disk a
  unfolding copy
  cleared-disk a map entry = ground (arith, map, entry, first_sector)

  cleared-Cleared : Cleared p cleared n
  unfolding Agrees bitmap_scan_test
  cleared-Cleared = record {
    same_sb = refl;
    same_blocks = refl;
    agrees = λ j lt.
        ap (λ m. bit_set m (j % 8))
          (cleared-disk (p.sb.block_bitmap_lba * 512 + j / 8) (inl (omega (arith, h.blocks_first)))
            (inl (omega (arith, h.blocks_first, h.map_first))))
        ∙ h.agrees j lt;
    agrees_inodes = λ j lt.
        let inside : j < p.inode_bitmap.btmp_bytes_len * 8 =
          rw (set_bit_len p.inode_bitmap n false) at lt in
        ap (λ m. bit_set m (j % 8))
          (copy-before unnumbered.disk (λ x. 0) (inode_addr p n) inode_size
            (p.sb.inode_bitmap_lba * 512 + j / 8) (omega (arith, h.map_first, h.one_sector)))
        ∙ set_bit-Agrees p.disk p.sb.inode_bitmap_lba p.inode_bitmap n false h.map h.agrees_inodes j
            lt;
    bits = λ j. scan_test-set_bit p.inode_bitmap n j false h.map;
    bytes = λ x lt.
        copy-inside unnumbered.disk (λ y. 0) (inode_addr p n) inode_size (inode_addr p n + x)
          (omega arith) (omega arith);
    others = λ a le out. cleared-disk a (inr (omega (arith, h.map_first))) out;
  }

-- What the blocks give back leaves the rest of the partition as it was.
HasMaps-Freed :
    {gone : ℕ → Bool} (p q : Partition) (n : ℕ) → Freed p q gone → HasMaps p n → HasMaps q n
unfolding Agrees
HasMaps-Freed p q n freed h = record {
  blocks = freed.blocks;
  table = freed.table h.table;
  map = rw freed.same_inodes h.map;
  number = h.number;
  in_map = rw freed.same_inodes h.in_map;
  one_sector = rw freed.same_inodes h.one_sector;
  blocks_first = rw (freed.same_sb, freed.same_len) h.blocks_first;
  map_first = rw freed.same_sb h.map_first;
  agrees = freed.agrees;
  agrees_inodes = λ j lt.
      let lt' : j < p.inode_bitmap.btmp_bytes_len * 8 = rw freed.same_inodes at lt in
      rw (freed.same_sb, freed.same_inodes)
        (ap (λ m. bit_set m (j % 8))
            (freed.behind (p.sb.inode_bitmap_lba * 512 + j / 8) (omega (arith, h.blocks_first)))
          ∙ h.agrees_inodes j lt');
}

-- On a partition whose map of blocks, map of inodes (one sector) and table of inodes (608 sectors)
-- follow each other on the disk, where the maps are valid and the disk's copies of them are those
-- in memory, let `n` be a number below 4096 with a bit in the map of inodes, let `inode_open` give
-- an inode whose number is `n`, and let the addresses of its blocks and of its table be readable
-- and each 0 or that of a block that is not the first. Then `inode_release` succeeds and closes
-- the inode. First exactly these blocks and the table become free, then the number does, and the
-- inode's bytes on the disk become 0; no other bit of the maps changes, the disk's copies of the
-- maps are again those in memory, and no other byte from the table of inodes on changes.
pub inode_release_lem :
    (p : Partition) (s s1 : Files) (n fresh a : ℕ) (inode_buf io_buf : Mem) (all : ℕ → ℕ)
    → HasMaps p n
    → inode_open p s n fresh inode_buf ≡ done (a, s1)
    → (s1.inodes a).i_no ≡ n
    → dir_blocks p (s1.inodes a) (λ k. 0) ≡ done all
    → ((k : ℕ) → (all k ≡ 0) ⊎ IsBlock p (all k))
    → ((s1.inodes a).i_sectors 12 ≡ 0) ⊎ IsBlock p ((s1.inodes a).i_sectors 12)
    → let table = (s1.inodes a).i_sectors 12 in
      (p1 p' : Partition) × (inode_release p s n fresh inode_buf io_buf
        ≡ done (p', inode_close s1 a))
      × Freed p p1 (λ j.
        (not (table == 0) && (p.sb.data_start_lba + j == table))
        || listed (if table == 0 then 12 else 140) 0 all (p.sb.data_start_lba + j))
      × Cleared p1 p' n
unfolding inode_release
inode_release_lem p s s1 n fresh a inode_buf io_buf all h open_run same_no read fit table =
    let (p1, run, freed) =
      release_blocks_lem p (s1.inodes a) all h.blocks h.agrees read fit table in
    let h1 = HasMaps-Freed p p1 n freed h in
    let known : ((s1.inodes a).i_no == n) ≡ true = rw same_no (==_self n) in
    (
      p1,
      cleared p1 n h1,
      rw (open_run, known, run, release_number_run p1 n h1, inode_delete_run p1 n h1 io_buf) refl,
      freed,
      cleared-Cleared p1 n h1,
    )
