-- ===== src/FileData/Data.antt =====
-- The data that `file_write` puts into the planned blocks, for files of at most 12 blocks.
use elephant_os.Base.{
  ℕ, ◌+◌, ◌-◌, ◌*◌, ◌/◌, ◌%◌, ◌^◌, ◌<◌, ◌≤◌, ◌≡◌, ◌≢◌, refl, ◌∙◌, sym, ap, inl, inr, true, arith,
  ltb, leb, ◌==◌, ==_self, u32, Mem, done, Bool-cases,
}
use elephant_os.Base.Bits.{bit_set}
use elephant_os.Files.{Inode, inode_size}
use elephant_os.Disk.{Partition, block_size, inode_sync, read_inode, bytes_of, inode_words}
use elephant_os.Disk.Bytes.{copy-behind, copy-before}
use elephant_os.Disk.Inodes.{
  HasTable, closed, patched, inode_addr, put_inode-patched, read_inode_lem, inode_from-patched,
}
use elephant_os.Disk.Encoding.{IsWord, SameInode, inode_from-inode_words, SameInode-trans}
use elephant_os.Disk.Alloc.{Agrees}
use elephant_os.Disk.Layout.{IsLaidOut, InUse, Owns}
use elephant_os.FileData.{OpenFile}
use elephant_os.FileData.Plan.{Grown}
use elephant_os.FileData.ReadLoop.{address, content, OnDisk}
use elephant_os.FileData.Rounds.{Apart, Kept}
use elephant_os.FileData.Planned.{has_used, will_use, last_old, IsFile}

-- What `file_write` makes of a file: `count` more bytes, which are those of the buffer, behind the
-- old ones; the inode on the disk is the new one.
pub record Written (f : OpenFile) (buf : Mem) (count : ℕ) (f' : OpenFile) : Type 0 where
  pub size : f'.inode.i_size ≡ f.inode.i_size + count
  pub same_number : f'.inode.i_no ≡ f.inode.i_no
  pub new_bytes :
      (k : ℕ) → k < count → content f'.part.disk f'.inode.i_sectors (f.inode.i_size + k) ≡ buf k
  pub old_bytes :
      (x : ℕ)
      → x < f.inode.i_size
      → content f'.part.disk f'.inode.i_sectors x ≡ content f.part.disk f.inode.i_sectors x
  pub laid_out : IsLaidOut f'.part
  pub agrees : Agrees f'.part.disk f'.part.sb.block_bitmap_lba f'.part.block_bitmap
  pub is_file : IsFile f'
  pub synced :
      (io_buf : Mem)
      → (j : Inode) × (read_inode f'.part f'.inode.i_no io_buf ≡ done j)
        × SameInode j (closed f'.inode)

-- The data, once the blocks are planned.
module _ (f : OpenFile) (all : ℕ → ℕ) (buf : Mem) (count : ℕ) (h : IsLaidOut f.part) (w : IsFile f)
    (room : (f.inode.i_size + count) / block_size + 1 ≤ 12) (p' : Partition) (sectors' all' : ℕ → ℕ)
    (g : Grown f.part f.inode.i_sectors
      (last_old f all)
      (has_used f)
      (will_use f count - has_used f)
      p'
      sectors'
      all') where
  abbrev last : ℕ
  last = (f.inode.i_size + count) / 512

  owns_all : (j : ℕ) → j ≤ last → InUse p' (sectors' j)
  owns_all j le = g.owns.in_use j (omega arith)

  apart_all : (i j : ℕ) → i < j → j ≤ last → sectors' i ≢ sectors' j
  apart_all i j lt le = g.owns.apart i j lt (omega arith)

  all_sectors : (j : ℕ) → f.inode.i_size / 512 ≤ j → j ≤ last → all' j ≡ sectors' j
  all_sectors j lo hi = elim (Bool-cases (j == f.inode.i_size / 512)) [
    | inl e ↦
        let at : j ≡ f.inode.i_size / 512 = ground arith in
        rw at (
          g.old_all (f.inode.i_size / 512) (omega arith)
          ∙ rw (==_self (f.inode.i_size / 512))
              (sym (g.old_sectors (f.inode.i_size / 512) (omega arith))))
    | inr e ↦ g.new_all j (ground arith) (omega arith)
  ]

  pub OnDisk-all : OnDisk all' f.inode.i_size count
  unfolding OnDisk
  OnDisk-all x lo hi =
      rw (all_sectors (x / 512) (omega arith) (omega arith))
        (omega (arith, (owns_all (x / 512) (omega arith)).inside, g.laid_out.on_disk))

  pub Apart-all : Apart all' f.inode.i_size count
  unfolding Apart
  Apart-all x y lo lt hi ne =
      rw
        (
          all_sectors (x / 512) (omega arith) (omega arith),
          all_sectors (y / 512) (omega arith) (omega arith),
        )
        (apart_all (x / 512) (y / 512) (omega arith) (omega arith))

  -- A byte of the file as it was is in no block that is written, or before its end.
  Kept-old : (x : ℕ) → x < f.inode.i_size → Kept all' f.inode.i_size count (address sectors' x)
  unfolding Kept
  Kept-old x lt y lo hi e =
      let at : address sectors' x / 512 ≡ sectors' (x / 512) = omega arith in
      let rest : address sectors' x % 512 ≡ x % 512 = omega arith in
      let meets : sectors' (x / 512) ≡ sectors' (y / 512) =
        sym at ∙ e ∙ all_sectors (y / 512) (omega arith) (omega arith) in
      let same : x / 512 ≡ y / 512 = elim (Bool-cases (ltb (x / 512) (y / 512))) [
        | inl less ↦ absurd (apart_all (x / 512) (y / 512) (ground arith) (omega arith) meets)
        | inr other ↦ ground arith
      ] in
      (omega arith, rw rest (omega arith))

  Kept-before : (a : ℕ) → a < p'.sb.inode_table_lba * 512 → Kept all' f.inode.i_size count a
  unfolding Kept
  Kept-before a lt x lo hi e =
      let block = all_sectors (x / 512) (omega arith) (omega arith) in
      absurd (omega (arith, (owns_all (x / 512) (omega arith)).from_start, g.laid_out.data_last))

  module _ (word : IsWord f.inode) (d' : Mem) (fd_pos : ℕ)
      (bytes : (k : ℕ) → k < count → content d' all' (f.inode.i_size + k) ≡ buf k)
      (kept : (a : ℕ) → Kept all' f.inode.i_size count a → d' a ≡ p'.disk a) where
    abbrev data_part : Partition
    data_part = record p' { disk = d' }

    abbrev pub new_inode : Inode
    new_inode = record f.inode { i_size = u32 (f.inode.i_size + count); i_sectors = sectors' }

    abbrev pub end_part : Partition
    end_part = patched data_part (new_inode.i_no % 256) (bytes_of (inode_words (closed new_inode)))

    abbrev pub end_file : OpenFile
    end_file = record { part = end_part; inode = new_inode; fd_pos = fd_pos }

    HasTable-data : HasTable data_part
    HasTable-data = record {
      on_disk = g.laid_out.table.on_disk;
      in_partition = g.laid_out.table.in_partition;
      small = g.laid_out.table.small;
    }

    pub inode_sync_end : (io_buf : Mem) → inode_sync data_part new_inode io_buf ≡ done end_part
    unfolding inode_sync
    inode_sync_end io_buf =
        put_inode-patched data_part HasTable-data (new_inode.i_no % 256) (omega arith)
          (bytes_of (inode_words (closed new_inode))) io_buf

    -- the blocks lie behind the table of inodes
    data_kept : (a : ℕ) → p'.sb.data_start_lba * 512 ≤ a → end_part.disk a ≡ d' a
    data_kept a le =
        copy-behind d' (bytes_of (inode_words (closed new_inode)))
          (inode_addr p' (new_inode.i_no % 256)) inode_size a (omega (arith, g.laid_out.data_last))

    in_data : (x : ℕ) → x / 512 ≤ last → p'.sb.data_start_lba * 512 ≤ address sectors' x
    in_data x le = omega (arith, (owns_all (x / 512) le).from_start)

    new_size : (f.inode.i_size + count) % 2 ^ 32 ≡ f.inode.i_size + count
    new_size = omega arith

    sectors_small_new : (n : ℕ) → n < 13 → sectors' n < 2 ^ 32
    sectors_small_new n lt = elim (Bool-cases (leb n last)) [
      | inl le ↦ omega (arith, (owns_all n (ground arith)).inside, g.laid_out.blocks.in_range)
      | inr gt ↦ elim (Bool-cases (n == 12)) [
        | inl e ↦
            let at : n ≡ 12 = ground arith in
            rw (at, g.outside 12 (omega (arith, w.direct))) w.table_sector
        | inr e ↦ rw (g.rest_empty n (ground (arith, w.direct)) (ground arith)) (omega arith)
      ]
    ]

    IsWord-new : IsWord (closed new_inode)
    IsWord-new = record {
      no_small = word.no_small;
      size_small = omega arith;
      cnts_small = omega arith;
      sectors_small = sectors_small_new;
    }

    above_table :
        (x : ℕ) → x < f.inode.i_size → f.part.sb.inode_table_lba * 512 ≤ address sectors' x
    above_table x lt =
        let same : p'.sb.inode_table_lba ≡ f.part.sb.inode_table_lba =
          ap (λ s. s.inode_table_lba) g.same_sb in
        omega (arith, in_data x (omega arith), g.laid_out.data_last)

    owned_end : Owns end_part sectors' (has_used end_file)
    owned_end = record {
      in_use = λ j lt.
          let u = owns_all j (omega (arith, new_size)) in
          record { from_start = u.from_start; inside = u.inside; is_taken = u.is_taken };
      apart = λ i j less lt. apart_all i j less (omega (arith, new_size));
    }

    IsLaidOut-end : IsLaidOut end_part
    IsLaidOut-end = record {
      blocks = record {
        valid = g.laid_out.blocks.valid;
        on_disk = g.laid_out.blocks.on_disk;
        in_range = g.laid_out.blocks.in_range;
      };
      table = record {
        on_disk = g.laid_out.table.on_disk;
        in_partition = g.laid_out.table.in_partition;
        small = g.laid_out.table.small;
      };
      bitmap_first = g.laid_out.bitmap_first;
      data_last = g.laid_out.data_last;
      on_disk = g.laid_out.on_disk;
    }

    -- what lies before the table of inodes is not written
    before_kept : (a : ℕ) → a < p'.sb.inode_table_lba * 512 → end_part.disk a ≡ p'.disk a
    before_kept a lt =
        copy-before d' (bytes_of (inode_words (closed new_inode)))
          (inode_addr p' (new_inode.i_no % 256)) inode_size a (omega arith)
        ∙ kept a (Kept-before a lt)

    Agrees-end : Agrees end_part.disk end_part.sb.block_bitmap_lba end_part.block_bitmap
    unfolding Agrees
    Agrees-end j lt =
        ap (λ m. bit_set m (j % 8))
          (before_kept (p'.sb.block_bitmap_lba * 512 + j / 8)
            (omega (arith, g.laid_out.bitmap_first)))
        ∙ g.agrees j lt

    synced_end :
        (io_buf : Mem)
        → (j : Inode) × (read_inode end_part f.inode.i_no io_buf ≡ done j)
          × SameInode j (closed new_inode)
    synced_end io_buf =
        let k = f.inode.i_no % 256 in
        let words = bytes_of (inode_words (closed new_inode)) in
        let same : (f.inode.i_no == k) ≡ true = ground (arith, w.number) in
        let (j, got, read) =
          read_inode_lem end_part
            (record {
              on_disk = g.laid_out.table.on_disk;
              in_partition = g.laid_out.table.in_partition;
              small = g.laid_out.table.small;
            })
            f.inode.i_no (omega (arith, w.number)) io_buf in
        (
          j,
          got,
          SameInode-trans read (
              SameInode-trans (rw same at (inode_from-patched data_part k f.inode.i_no words))
                (inode_from-inode_words (closed new_inode) IsWord-new)),
        )

    pub Written-end : Written f buf count end_file
    Written-end = record {
      size = new_size;
      same_number = refl;
      new_bytes = λ k lt.
          data_kept _ (in_data (f.inode.i_size + k) (omega arith))
          ∙ ap (λ b. d' (b * 512 + (f.inode.i_size + k) % 512))
              (sym (all_sectors ((f.inode.i_size + k) / 512) (omega arith) (omega arith)))
          ∙ bytes k lt;
      old_bytes = λ x lt.
          data_kept _ (in_data x (omega arith))
          ∙ kept (address sectors' x) (Kept-old x lt)
          ∙ g.disk_kept (address sectors' x) (above_table x lt)
          ∙ ap (λ b. f.part.disk (b * 512 + x % 512)) (g.old_sectors (x / 512) (omega arith));
      laid_out = IsLaidOut-end;
      agrees = Agrees-end;
      is_file = record {
        owns = owned_end;
        rest_empty = λ j le lt. g.rest_empty j (omega (arith, new_size)) lt;
        direct = omega (arith, new_size);
        number = w.number;
        table_sector = rw (g.outside 12 (omega (arith, w.direct))) w.table_sector;
      };
      synced = synced_end;
    }
