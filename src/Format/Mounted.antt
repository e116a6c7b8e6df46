-- ===== src/Format/Mounted.antt =====
-- Mounting a partition that was just formatted.
use elephant_os.Base.{
  ℕ, ◌+◌, ◌*◌, ◌%◌, ◌^◌, ◌<◌, ◌≤◌, ◌≡◌, refl, ◌∙◌, ap, arith, true, ltb, leb, Mem, done,
}
use elephant_os.Disk.{
  Partition, SuperBlock, max_lba, copy, read_sectors, write_sectors, bytes_of, inode_words,
}
use elephant_os.Disk.Bytes.{copy-inside, copy-before, copy-start}
use elephant_os.Format.{
  block_count, sb_words, sb_from, block_map, inode_map, root_inode, root_entries, partition_format,
  mount_partition,
}
use elephant_os.Format.Layout.{Fits, map_sects, plain, layout_lem, map_sects_lem, sb_from-sb_words}

write_sectors_done :
    (disk : Mem) (lba : ℕ) (buf : Mem) (cnt : ℕ)
    → lba ≤ max_lba
    → 0 < cnt
    → write_sectors disk lba buf cnt ≡ done (copy disk (lba * 512) buf (cnt * 512))
unfolding write_sectors
write_sectors_done disk lba buf cnt near some =
    let a : leb lba max_lba ≡ true = ground (arith, near) in
    let b : ltb 0 cnt ≡ true = ground (arith, some) in rw (a, b) refl

read_sectors_done :
    (disk : Mem) (lba : ℕ) (buf : Mem) (cnt : ℕ)
    → lba ≤ max_lba
    → 0 < cnt
    → read_sectors disk lba buf cnt ≡ done (copy buf 0 (λ x. disk (lba * 512 + x)) (cnt * 512))
unfolding read_sectors
read_sectors_done disk lba buf cnt near some =
    let a : leb lba max_lba ≡ true = ground (arith, near) in
    let b : ltb 0 cnt ≡ true = ground (arith, some) in rw (a, b) refl

-- the disk after each write, for a partition from `start` on with a map of `m` sectors
module _ (disk : Mem) (start m : ℕ) (super blocks inodes table root : Mem) where
  abbrev pub disk1 : Mem
  disk1 = copy disk ((start + 1) * 512) super (1 * 512)

  abbrev pub disk2 : Mem
  disk2 = copy disk1 ((start + 2) * 512) blocks (m * 512)

  abbrev pub disk3 : Mem
  disk3 = copy disk2 ((start + 2 + m) * 512) inodes (1 * 512)

  abbrev pub disk4 : Mem
  disk4 = copy disk3 ((start + 3 + m) * 512) table (608 * 512)

  abbrev pub disk5 : Mem
  disk5 = copy disk4 ((start + 611 + m) * 512) root (1 * 512)

  from_disk4 : (a : ℕ) → a < (start + 611 + m) * 512 → disk5 a ≡ disk4 a
  from_disk4 a lt = copy-before disk4 root ((start + 611 + m) * 512) (1 * 512) a lt

  from_disk3 : (a : ℕ) → a < (start + 3 + m) * 512 → disk5 a ≡ disk3 a
  from_disk3 a lt =
      from_disk4 a (omega arith) ∙ copy-before disk3 table ((start + 3 + m) * 512) (608 * 512) a lt

  from_disk2 : (a : ℕ) → a < (start + 2 + m) * 512 → disk5 a ≡ disk2 a
  from_disk2 a lt =
      from_disk3 a (omega arith) ∙ copy-before disk2 inodes ((start + 2 + m) * 512) (1 * 512) a lt

  from_disk1 : (a : ℕ) → a < (start + 2) * 512 → disk5 a ≡ disk1 a
  from_disk1 a lt =
      from_disk2 a (omega arith) ∙ copy-before disk1 blocks ((start + 2) * 512) (m * 512) a lt

  -- Each write lies behind those before it.
  pub super_region : (k : ℕ) → k < 512 → disk5 ((start + 1) * 512 + k) ≡ super k
  super_region k lt =
      from_disk1 _ (omega arith)
      ∙ copy-inside disk super ((start + 1) * 512) (1 * 512) _ (omega arith) (omega arith)
      ∙ ap super (omega arith)

  pub blocks_region : (k : ℕ) → k < m * 512 → disk5 ((start + 2) * 512 + k) ≡ blocks k
  blocks_region k lt =
      from_disk2 _ (omega arith)
      ∙ copy-inside disk1 blocks ((start + 2) * 512) (m * 512) _ (omega arith) (omega arith)
      ∙ ap blocks (omega arith)

  pub inodes_region : (k : ℕ) → k < 512 → disk5 ((start + 2 + m) * 512 + k) ≡ inodes k
  inodes_region k lt =
      from_disk3 _ (omega arith)
      ∙ copy-inside disk2 inodes ((start + 2 + m) * 512) (1 * 512) _ (omega arith) (omega arith)
      ∙ ap inodes (omega arith)

  pub table_region : (k : ℕ) → k < 608 * 512 → disk5 ((start + 3 + m) * 512 + k) ≡ table k
  table_region k lt =
      from_disk4 _ (omega arith)
      ∙ copy-inside disk3 table ((start + 3 + m) * 512) (608 * 512) _ (omega arith) (omega arith)
      ∙ ap table (omega arith)

  pub root_region : (k : ℕ) → k < 512 → disk5 ((start + 611 + m) * 512 + k) ≡ root k
  root_region k lt =
      copy-inside disk4 root ((start + 611 + m) * 512) (1 * 512) _ (omega arith) (omega arith)
      ∙ ap root (omega arith)

module _ (p : Partition) (fits : Fits p.start_lba p.sec_cnt) where
  abbrev pub here : SuperBlock
  here = plain p.start_lba p.sec_cnt

  abbrev pub formatted : Mem
  formatted =
      disk5 p.disk p.start_lba (map_sects p.sec_cnt) (bytes_of (sb_words here))
        (block_map (block_count p.sec_cnt)) inode_map (bytes_of (inode_words (root_inode here)))
        root_entries

  pub format_lem : partition_format p ≡ done (record p { disk = formatted })
  unfolding partition_format
  format_lem =
      let (some, one, upper, lower, last) = map_sects_lem p.start_lba p.sec_cnt fits in
      let first : (p.start_lba + 1) % 2 ^ 32 ≡ p.start_lba + 1 =
        omega (arith, last, fits.on_disk) in
      rw
        (
          partition_format,
          layout_lem p.start_lba p.sec_cnt fits,
          first,
          write_sectors_done _ (p.start_lba + 1) _ 1 (omega (arith, last, fits.on_disk))
              (omega arith),
          write_sectors_done _ (p.start_lba + 2) _ (map_sects p.sec_cnt)
              (omega (arith, last, fits.on_disk)) (omega (arith, one)),
          write_sectors_done _ (p.start_lba + 2 + map_sects p.sec_cnt) _ 1
              (omega (arith, last, fits.on_disk)) (omega arith),
          write_sectors_done _ (p.start_lba + 3 + map_sects p.sec_cnt) _ 608
              (omega (arith, last, fits.on_disk)) (omega arith),
          write_sectors_done _ (p.start_lba + 611 + map_sects p.sec_cnt) _ 1
              (omega (arith, last, fits.on_disk, some)) (omega arith),
        )
        refl

  module _ (block_bits inode_bits : Mem) where
    abbrev pub mounted : Partition
    mounted = record p {
      sb = here;
      block_bitmap = record {
        btmp_bytes_len = map_sects p.sec_cnt * 512;
        bits =
            copy block_bits 0 (λ x. formatted ((p.start_lba + 2) * 512 + x))
              (map_sects p.sec_cnt * 512);
      };
      inode_bitmap = record {
        btmp_bytes_len = 512;
        bits =
            copy inode_bits 0 (λ x. formatted ((p.start_lba + 2 + map_sects p.sec_cnt) * 512 + x))
              (1 * 512);
      };
      disk = formatted;
    }

    sb_lem :
        sb_from (copy (λ x. 0) 0 (λ x. formatted ((p.start_lba + 1) * 512 + x)) (1 * 512)) ≡ here
    sb_lem = sb_from-sb_words p.start_lba p.sec_cnt fits _ (λ k lt.
        copy-start (λ x. 0) (λ x. formatted ((p.start_lba + 1) * 512 + x)) (1 * 512) k lt
        ∙ super_region p.disk p.start_lba (map_sects p.sec_cnt) _ _ _ _ _ k lt)

    pub mount_lem :
        mount_partition (record p { disk = formatted }) block_bits inode_bits ≡ done mounted
    unfolding mount_partition
    mount_lem =
        let (some, one, upper, lower, last) = map_sects_lem p.start_lba p.sec_cnt fits in
        let first : (p.start_lba + 1) % 2 ^ 32 ≡ p.start_lba + 1 =
          omega (arith, last, fits.on_disk) in
        let len : map_sects p.sec_cnt * 512 % 2 ^ 32 ≡ map_sects p.sec_cnt * 512 =
          omega (arith, last, fits.on_disk) in
        rw
          (
            mount_partition,
            first,
            read_sectors_done formatted (p.start_lba + 1) (λ x. 0) 1
                (omega (arith, last, fits.on_disk)) (omega arith),
            sb_lem,
            read_sectors_done formatted (p.start_lba + 2) block_bits (map_sects p.sec_cnt)
                (omega (arith, last, fits.on_disk)) (omega (arith, one)),
            read_sectors_done formatted (p.start_lba + 2 + map_sects p.sec_cnt) inode_bits 1
                (omega (arith, last, fits.on_disk)) (omega arith),
            len,
          )
          refl
