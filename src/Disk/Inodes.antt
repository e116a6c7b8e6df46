-- ===== src/Disk/Inodes.antt =====
-- What lies in the table of inodes after `inode_sync` and `inode_delete`.
use elephant_os.Base.{
  ℕ, ◌+◌, ◌-◌, ◌*◌, ◌/◌, ◌%◌, ◌^◌, ◌<◌, ◌≤◌, ◌≡◌, refl, ◌∙◌, ap, inl, inr, true, false, arith, ltb,
  lt→ltb, leb, ◌==◌, if◌then◌else◌, Mem, done, Bool-cases,
}
use elephant_os.Files.{Inode, inode_locate, inode_size}
use elephant_os.Disk.{
  Partition, max_lba, copy, read_sectors, write_sectors, word_at, inode_from, put_inode, inode_sync,
  inode_delete, read_inode,
}
use elephant_os.Disk.Bytes.{copy-inside, copy-before, copy-behind, copy-through}
use elephant_os.Disk.Encoding.{
  SameInode, IsWord, inode_from-SameInode, inode_from-inode_words, SameInode-trans, SameInode-sym,
  SameInode-if,
}

-- the table of 4096 inodes lies inside the partition and the disk
pub record HasTable (p : Partition) : Type 0 where
  pub on_disk : p.sb.inode_table_lba + 608 ≤ max_lba
  pub in_partition : p.sb.inode_table_lba + 608 ≤ p.start_lba + p.sec_cnt
  pub small : p.start_lba + p.sec_cnt < 2 ^ 32

abbrev pub inode_addr : Partition → ℕ → ℕ
inode_addr p n = p.sb.inode_table_lba * 512 + n * inode_size

-- the partition with other bytes for the inode
abbrev pub patched : Partition → ℕ → Mem → Partition
patched p n bytes = record p { disk = copy p.disk (inode_addr p n) bytes inode_size }

module _ (p : Partition) (t : HasTable p) (n : ℕ) (small : n < 4096) where
  sector_lem :
      (p.sb.inode_table_lba + n * inode_size / 512) % 2 ^ 32
      ≡ p.sb.inode_table_lba + n * inode_size / 512
  sector_lem = omega (arith, t.in_partition, t.small)

  addr_lem :
      (p.sb.inode_table_lba + n * inode_size / 512) * 512 + n * inode_size % 512 ≡ inode_addr p n
  addr_lem = omega arith

  pub put_inode-patched : (bytes buf : Mem) → put_inode p n bytes buf ≡ done (patched p n bytes)
  unfolding put_inode inode_locate read_sectors write_sectors
  put_inode-patched bytes buf =
      let at = p.sb.inode_table_lba + n * inode_size / 512 in
      let off = n * inode_size % 512 in
      let below : at ≤ p.sb.inode_table_lba + 608 = omega arith in
      let within : leb at ((p.start_lba + p.sec_cnt) % 2 ^ 32) ≡ true =
        ground (arith, t.in_partition, t.small) in
      let near : leb at max_lba ≡ true = ground (arith, t.on_disk) in
      let place : at * 512 + off ≡ inode_addr p n = addr_lem in
      let through : (room : ℕ)
          → off + inode_size ≤ room
          → copy p.disk (at * 512)
              (copy (copy buf 0 (λ x. p.disk (at * 512 + x)) room) off bytes inode_size) room
            ≡ copy p.disk (inode_addr p n) bytes inode_size =
        λ room le.
          copy-through p.disk buf bytes (at * 512) off inode_size room le
          ∙ ap (λ a. copy p.disk a bytes inode_size) place in
      elim (Bool-cases (ltb (512 - off) inode_size)) [
        | inl two ↦
            rw (lt→ltb n 4096 small, sector_lem, within, near, two)
              (ap (λ d. done (record p { disk = d })) (through 1024 (omega arith)))
        | inr one ↦
            rw (lt→ltb n 4096 small, sector_lem, within, near, one)
              (ap (λ d. done (record p { disk = d })) (through 512 (ground arith)))
      ]

  pub read_inode_lem :
      (buf : Mem)
      → (i : Inode) × (read_inode p n buf ≡ done i)
        × SameInode i (inode_from p.disk (inode_addr p n))
  unfolding read_inode inode_locate read_sectors
  read_inode_lem buf =
      let at = p.sb.inode_table_lba + n * inode_size / 512 in
      let off = n * inode_size % 512 in
      let near : leb at max_lba ≡ true = ground (arith, t.on_disk) in
      let same : (room : ℕ)
          → off + inode_size ≤ room
          → SameInode (inode_from (copy buf 0 (λ x. p.disk (at * 512 + x)) room) off)
              (inode_from p.disk (inode_addr p n)) =
        λ room le. inode_from-SameInode _ p.disk off (inode_addr p n) (λ k lt.
          copy-inside buf (λ x. p.disk (at * 512 + x)) 0 room (off + k) (omega arith) (omega arith)
          ∙ ap p.disk (omega arith)) in
      elim (Bool-cases (ltb (512 - off) inode_size)) [
        | inl two ↦
            (_, rw (lt→ltb n 4096 small, sector_lem, near, two) refl, same 1024 (omega arith))
        | inr one ↦
            (_, rw (lt→ltb n 4096 small, sector_lem, near, one) refl, same 512 (ground arith))
      ]

abbrev pub closed : Inode → Inode
closed i = record i { i_open_cnts = 0; write_deny = false }

-- What is read of inode `n` once the bytes of inode `k` are replaced.
pub inode_from-patched :
    (p : Partition) (k n : ℕ) (bytes : Mem)
    → SameInode
        (inode_from (patched p k bytes).disk (inode_addr p n))
        (if n == k then inode_from bytes 0 else inode_from p.disk (inode_addr p n))
inode_from-patched p k n bytes = elim (Bool-cases (n == k)) [
  | inl same ↦
      let e : n ≡ k = ground arith in
      rw same (
        inode_from-SameInode _ bytes (inode_addr p n) 0 (λ x lt.
          copy-inside p.disk bytes (inode_addr p k) inode_size (inode_addr p n + x) (omega arith)
            (omega arith)
          ∙ ap bytes (omega arith)))
  | inr other ↦ rw other (
      inode_from-SameInode _ p.disk (inode_addr p n) (inode_addr p n) (λ x lt.
        elim (Bool-cases (ltb n k)) [
          | inl before ↦
              copy-before p.disk bytes (inode_addr p k) inode_size (inode_addr p n + x)
                (ground arith)
          | inr behind ↦
              copy-behind p.disk bytes (inode_addr p k) inode_size (inode_addr p n + x)
                (ground arith)
        ]))
]

module _ (p : Partition) (t : HasTable p) (k n : ℕ) (small : k < 4096) (small' : n < 4096) where
  put_inode-read_inode :
      (bytes : Mem) (new : Inode) (buf : Mem)
      → SameInode (inode_from bytes 0) new
      → (p' : Partition) × (j j0 : Inode) × (put_inode p k bytes buf ≡ done p')
        × (read_inode p' n buf ≡ done j)
        × (read_inode p n buf ≡ done j0)
        × SameInode j (if n == k then new else j0)
  put_inode-read_inode bytes new buf e =
      let t' : HasTable (patched p k bytes) = record {
        on_disk = t.on_disk;
        in_partition = t.in_partition;
        small = t.small;
      } in
      let (j, got, same) = read_inode_lem (patched p k bytes) t' n small' buf in
      let (j0, got0, same0) = read_inode_lem p t n small' buf in
      (
        patched p k bytes,
        j,
        j0,
        put_inode-patched p t k small bytes buf,
        got,
        got0,
        SameInode-trans (SameInode-trans same (inode_from-patched p k n bytes))
            (SameInode-if (n == k) e (SameInode-sym same0)),
      )

-- On a partition that has room for its table of inodes, `inode_sync` succeeds, and an inode that is
-- read from the disk behind it is the one that was written, closed, if its number is the number of
-- the written inode modulo 256, and the one that was there before otherwise.
pub inode_sync-read_inode :
    (p : Partition) (i : Inode) (n : ℕ) (buf : Mem)
    → HasTable p
    → IsWord i
    → n < 4096
    → (p' : Partition) × (j j0 : Inode) × (inode_sync p i buf ≡ done p')
      × (read_inode p' n buf ≡ done j)
      × (read_inode p n buf ≡ done j0)
      × SameInode j (if n == i.i_no % 256 then closed i else j0)
unfolding inode_sync
inode_sync-read_inode p i n buf t w small =
    put_inode-read_inode p t (i.i_no % 256) n (omega arith) small _ (closed i) buf (
      inode_from-inode_words (closed i) (record {
        no_small = w.no_small;
        size_small = w.size_small;
        cnts_small = omega arith;
        sectors_small = w.sectors_small;
      }))

-- the inode that `inode_delete` leaves
abbrev blank : Inode
blank = record { i_no = 0; i_size = 0; i_open_cnts = 0; write_deny = false; i_sectors = λ n. 0 }

inode_from_zero : SameInode (inode_from (λ x. 0) 0) blank
unfolding inode_from word_at
inode_from_zero = record {
  same_no = refl;
  same_size = refl;
  same_open_cnts = refl;
  same_write_deny = refl;
  same_sectors = λ n lt. refl;
}

-- On a partition that has room for its table of inodes, `inode_delete` succeeds for a number below
-- 4096; it clears that inode on the disk and no other.
inode_delete-read_inode :
    (p : Partition) (k n : ℕ) (buf : Mem)
    → HasTable p
    → k < 4096
    → n < 4096
    → (p' : Partition) × (j j0 : Inode) × (inode_delete p k buf ≡ done p')
      × (read_inode p' n buf ≡ done j)
      × (read_inode p n buf ≡ done j0)
      × SameInode j (if n == k then blank else j0)
unfolding inode_delete
inode_delete-read_inode p k n buf t small small' =
    let put = put_inode-read_inode p t k n small small' (λ x. 0) blank buf inode_from_zero in
    rw (lt→ltb k 4096 small) put
