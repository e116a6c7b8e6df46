-- ===== src/Format/Fresh.antt =====
-- What a partition holds after it is formatted and mounted.
use mathlib.Core.Path.{subst}
use elephant_os.Base.{
  ℕ, ◌+◌, ◌*◌, ◌/◌, ◌%◌, ◌<◌, ◌≡◌, ◌∙◌, sym, ap, arith, ◌||◌, ◌==◌, ltb, Mem, done, inl, inr,
  Bool-cases,
}
use elephant_os.Base.Bits.{bit_set, bit_set_ends}
use elephant_os.Bitmap.{bitmap_scan_test}
use elephant_os.Bitmap.Set.{IsValid}
use elephant_os.Disk.{Partition, bytes_of, inode_words, inode_from}
use elephant_os.Disk.Bytes.{copy-start, copy-behind}
use elephant_os.Disk.Encoding.{
  SameInode, SameInode-trans, inode_from-SameInode, inode_from-inode_words,
}
use elephant_os.Disk.Inodes.{HasTable, inode_addr}
use elephant_os.Disk.Alloc.{HasBlocks, Agrees}
use elephant_os.Format.{
  block_count, layout, block_map, inode_map, root_inode, root_entries, partition_format,
  mount_partition,
}
use elephant_os.Format.Layout.{Fits, map_sects, layout_lem, map_sects_lem}
use elephant_os.Format.Maps.{block_map_lem, bit_set-one}
use elephant_os.Format.Mounted.{
  formatted, here, mounted, blocks_region, inodes_region, table_region, root_region, format_lem,
  mount_lem,
}

-- an empty file system
pub record IsFresh (p : Partition) : Type 0 where
  pub laid_out : p.sb ≡ layout p.start_lba p.sec_cnt
  pub blocks : HasBlocks p
  pub table : HasTable p
  pub agrees : Agrees p.disk p.sb.block_bitmap_lba p.block_bitmap
  pub block_bits :
      (j : ℕ)
      → j < p.block_bitmap.btmp_bytes_len * 8
      → bitmap_scan_test p.block_bitmap j ≡ ((j == 0) || ltb (block_count p.sec_cnt) j)
  pub inode_bits : (j : ℕ) → j < 4096 → bitmap_scan_test p.inode_bitmap j ≡ (j == 0)
  pub root : SameInode (inode_from p.disk (inode_addr p 0)) (root_inode p.sb)
  pub entries : (k : ℕ) → k < 512 → p.disk (p.sb.data_start_lba * 512 + k) ≡ root_entries k

module _ (p : Partition) (fits : Fits p.start_lba p.sec_cnt) (block_bits inode_bits : Mem) where
  m : Partition
  m = mounted p fits block_bits inode_bits

  map_byte :
      (i : ℕ)
      → i < map_sects p.sec_cnt * 512
      → m.block_bitmap.bits i ≡ block_map (block_count p.sec_cnt) i
  unfolding m
  map_byte i lt =
      copy-start block_bits (λ x. formatted p fits ((p.start_lba + 2) * 512 + x))
        (map_sects p.sec_cnt * 512) i lt
      ∙ blocks_region p.disk p.start_lba (map_sects p.sec_cnt) _ _ _ _ _ i lt

  map_bit :
      (j : ℕ)
      → j < map_sects p.sec_cnt * 512 * 8
      → (bitmap_scan_test m.block_bitmap j ≡ ((j == 0) || ltb (block_count p.sec_cnt) j))
        × (m.block_bitmap.bits (j / 8) < 256)
  unfolding bitmap_scan_test
  map_bit j lt =
      let (some, one, upper, lower, last) = map_sects_lem p.start_lba p.sec_cnt fits in
      rw (map_byte (j / 8) (omega arith))
        (block_map_lem (block_count p.sec_cnt) j some (omega (arith, lower)))

  valid : ((i : ℕ) → block_bits i < 256) → IsValid m.block_bitmap
  unfolding m
  valid bytes = record {
    bytes = λ i. elim (Bool-cases (ltb i (map_sects p.sec_cnt * 512))) [
      | inl inside ↦
          let at : i * 8 / 8 ≡ i = omega arith in
          subst (λ k. m.block_bitmap.bits k < 256) at (map_bit (i * 8) (ground arith)).1
      | inr outside ↦
          let same : m.block_bitmap.bits i ≡ block_bits i =
            copy-behind block_bits _ 0 (map_sects p.sec_cnt * 512) i (ground arith) in
          rw same (bytes i)
    ];
    small = omega (arith, map_sects_lem p.start_lba p.sec_cnt fits, fits.on_disk);
  }

  inode_bit : (j : ℕ) → j < 4096 → bitmap_scan_test m.inode_bitmap j ≡ (j == 0)
  unfolding bitmap_scan_test m
  inode_bit j lt =
      let byte : m.inode_bitmap.bits (j / 8) ≡ inode_map (j / 8) =
        copy-start inode_bits
          (λ x. formatted p fits ((p.start_lba + 2 + map_sects p.sec_cnt) * 512 + x)) 512 (j / 8)
          (omega arith)
        ∙ inodes_region p.disk p.start_lba (map_sects p.sec_cnt) _ _ _ _ _ (j / 8) (omega arith) in
      rw byte (elim (Bool-cases (j / 8 == 0)) [
        | inl first ↦ rw first (ground (arith, bit_set-one (j % 8) (omega arith)))
        | inr later ↦ rw later (ground (arith, bit_set_ends (j % 8) (omega arith)))
      ])

  agrees : Agrees m.disk m.sb.block_bitmap_lba m.block_bitmap
  unfolding Agrees bitmap_scan_test m
  agrees j lt =
      ap (λ b. bit_set b (j % 8))
        (blocks_region p.disk p.start_lba (map_sects p.sec_cnt) _ _ _ _ _ (j / 8) (omega arith)
          ∙ sym (map_byte (j / 8) (omega arith)))

  root_is : SameInode (inode_from m.disk (inode_addr m 0)) (root_inode m.sb)
  unfolding m
  root_is =
      let (some, one, upper, lower, last) = map_sects_lem p.start_lba p.sec_cnt fits in
      SameInode-trans
        (inode_from-SameInode m.disk (bytes_of (inode_words (root_inode (here p fits))))
          (inode_addr m 0) 0
          (λ k lt.
            ap m.disk (omega arith)
            ∙ table_region p.disk p.start_lba (map_sects p.sec_cnt) _ _ _ _ _ k (omega arith)
            ∙ ap (bytes_of (inode_words (root_inode (here p fits)))) (omega arith)))
        (inode_from-inode_words (root_inode (here p fits)) (record {
          no_small = omega arith;
          size_small = omega arith;
          cnts_small = omega arith;
          sectors_small = λ n lt. ground (arith, last, fits.on_disk);
        }))

  fresh : ((i : ℕ) → block_bits i < 256) → IsFresh m
  unfolding m
  fresh bytes =
      let (some, one, upper, lower, last) = map_sects_lem p.start_lba p.sec_cnt fits in
      record {
        laid_out = sym (layout_lem p.start_lba p.sec_cnt fits);
        blocks = record {
          valid = valid bytes;
          on_disk = omega (arith, last, some, fits.on_disk);
          in_range = omega (arith, last, some, fits.on_disk);
        };
        table = record {
          on_disk = omega (arith, last, some, fits.on_disk);
          in_partition = omega (arith, last, some, fits.on_disk);
          small = omega (arith, fits.on_disk);
        };
        agrees = agrees;
        block_bits = λ j lt. (map_bit j lt).0;
        inode_bits = inode_bit;
        root = root_is;
        entries = λ k lt. root_region p.disk p.start_lba (map_sects p.sec_cnt) _ _ _ _ _ k lt;
      }

-- A partition of at least 640 sectors that lies on the disk can be formatted and then mounted, with
-- any contents of the memory that the maps are read into. Mounting finds the super block that was
-- computed, maps that agree with the disk, the root directory as the only inode, with the entries
-- "." and "..", and as the only block in use; but the bit behind those of the blocks is clear too.
pub mount_partition-partition_format :
    (p : Partition) (block_bits inode_bits : Mem)
    → Fits p.start_lba p.sec_cnt
    → ((i : ℕ) → block_bits i < 256)
    → (p1 p2 : Partition) × (partition_format p ≡ done p1)
      × (mount_partition p1 block_bits inode_bits ≡ done p2)
      × IsFresh p2
mount_partition-partition_format p block_bits inode_bits fits bytes = (
  record p { disk = formatted p fits },
  mounted p fits block_bits inode_bits,
  format_lem p fits,
  mount_lem p fits block_bits inode_bits,
  unfold m in fresh p fits block_bits inode_bits bytes,
)
