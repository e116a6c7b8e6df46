-- ===== src/FileData/Plan.antt =====
-- The blocks that `file_write` allocates for a file of at most 12 blocks.
use elephant_os.Base.{
  ℕ, zero, suc, ◌+◌, ◌-◌, ◌*◌, ◌%◌, ◌^◌, ◌<◌, ◌≤◌, ◌≡◌, refl, ◌∙◌, sym, inl, inr, true, false, some,
  arith, leb, lt→ltb, ◌==◌, update, done, Bool-cases,
}
use elephant_os.Files.{Inode}
use elephant_os.Bitmap.{bitmap_scan_test}
use elephant_os.Disk.{Partition, BitmapType, bitmap_sync, block_bitmap_alloc}
use elephant_os.Disk.Alloc.{Agrees, with_block, after_alloc, alloc_block, set_bit-Agrees}
use elephant_os.Disk.Free.{free_blocks, free_count-some, free_blocks-set_bit}
use elephant_os.FileData.{OpenFile, alloc_loop}
use elephant_os.Disk.Layout.{
  IsLaidOut, Owns, IsLaidOut-after_alloc, InUse-after_alloc, InUse-new, InUse-apart,
  disk_kept-after_alloc,
}

-- What the allocation of the blocks from `idx` to `idx + left` makes of a partition, the sectors of
-- the inode and `all_blocks`.
pub record Grown (p : Partition) (sectors all : ℕ → ℕ) (idx left : ℕ) (p' : Partition)
    (sectors' all' : ℕ → ℕ) : Type 0 where
  pub laid_out : IsLaidOut p'
  pub owns : Owns p' sectors' (idx + left)
  pub rest_empty : (j : ℕ) → idx + left ≤ j → j < 12 → sectors' j ≡ 0
  pub old_sectors : (j : ℕ) → j < idx → sectors' j ≡ sectors j
  pub outside : (j : ℕ) → idx + left ≤ j → sectors' j ≡ sectors j
  pub old_all : (j : ℕ) → j < idx → all' j ≡ all j
  pub new_all : (j : ℕ) → idx ≤ j → j < idx + left → all' j ≡ sectors' j
  pub disk_kept : (a : ℕ) → p.sb.inode_table_lba * 512 ≤ a → p'.disk a ≡ p.disk a
  pub same_sb : p'.sb ≡ p.sb
  pub agrees : Agrees p'.disk p'.sb.block_bitmap_lba p'.block_bitmap

-- the file with another partition and other sectors
abbrev pub placed : OpenFile → Partition → (ℕ → ℕ) → OpenFile
placed f p sectors =
    let i : Inode = record f.inode { i_sectors = sectors } in record f { part = p; inode = i }

alloc_round :
    (left idx : ℕ) (f : OpenFile) (all : ℕ → ℕ) (r : ℕ)
    → IsLaidOut f.part
    → r < f.part.block_bitmap.btmp_bytes_len * 8
    → idx < 12
    → f.inode.i_sectors idx ≡ 0
    → block_bitmap_alloc f.part
      ≡ done (some (f.part.sb.data_start_lba + r), with_block f.part r true)
    → bitmap_sync (with_block f.part r true) r BitmapType.block_bitmap_type
      ≡ done (after_alloc f.part r)
    → alloc_loop (suc left) idx f all
      ≡ alloc_loop left
          (idx + 1)
          (placed f
            (after_alloc f.part r)
            (update f.inode.i_sectors idx (f.part.sb.data_start_lba + r)))
          (update all idx (f.part.sb.data_start_lba + r))
unfolding alloc_loop
alloc_round left idx f all r h lt small empty alloc sync =
    let back : (f.part.sb.data_start_lba + r + 2 ^ 32 - f.part.sb.data_start_lba) % 2 ^ 32 ≡ r =
      omega (arith, h.blocks.in_range) in
    let direct : leb 12 idx ≡ false = ground arith in
    rw (alloc_loop, alloc, direct, empty, lt→ltb idx 12 small, back, sync) refl

-- The allocation of one block extends what the inode owns.
Owns-update :
    (p : Partition) (sectors : ℕ → ℕ) (idx r : ℕ)
    → IsLaidOut p
    → r < p.block_bitmap.btmp_bytes_len * 8
    → bitmap_scan_test p.block_bitmap r ≡ false
    → Owns p sectors idx
    → Owns (after_alloc p r) (update sectors idx (p.sb.data_start_lba + r)) (idx + 1)
Owns-update p sectors idx r h lt clear o = record {
  in_use = λ j less. elim (Bool-cases (j == idx)) [
    | inl e ↦ rw e (InUse-new p r h lt)
    | inr e ↦ rw e (InUse-after_alloc p r h (sectors j) (o.in_use j (ground arith)))
  ];
  apart = λ i j before less.
      let old : (i == idx) ≡ false = ground arith in
      elim (Bool-cases (j == idx)) [
        | inl e ↦ rw (old, e) (InUse-apart p r h (sectors i) (o.in_use i (omega arith)) clear)
        | inr e ↦ rw (old, e) (o.apart i j before (ground arith))
      ];
}

pub Grown-none :
    (p : Partition) (sectors all : ℕ → ℕ) (idx : ℕ)
    → IsLaidOut p
    → Owns p sectors idx
    → ((j : ℕ) → idx ≤ j → j < 12 → sectors j ≡ 0)
    → Agrees p.disk p.sb.block_bitmap_lba p.block_bitmap
    → Grown p sectors all idx 0 p sectors all
Grown-none p sectors all idx h o z agrees = record {
  laid_out = h;
  owns = record {
    in_use = λ j lt. o.in_use j (omega arith);
    apart = λ i j lt less. o.apart i j lt (omega arith);
  };
  rest_empty = λ j le lt. z j (omega arith) lt;
  old_sectors = λ j lt. refl;
  outside = λ j le. refl;
  old_all = λ j lt. refl;
  new_all = λ j le lt. absurd (omega arith);
  disk_kept = λ a le. refl;
  same_sb = refl;
  agrees = agrees;
}

-- One block and then the others.
Grown-step :
    (p : Partition) (sectors all : ℕ → ℕ) (idx left r : ℕ) (p' : Partition) (sectors' all' : ℕ → ℕ)
    → IsLaidOut p
    → r < p.block_bitmap.btmp_bytes_len * 8
    → Grown
        (after_alloc p r)
        (update sectors idx (p.sb.data_start_lba + r))
        (update all idx (p.sb.data_start_lba + r))
        (idx + 1)
        left
        p'
        sectors'
        all'
    → Grown p sectors all idx (suc left) p' sectors' all'
Grown-step p sectors all idx left r p' sectors' all' h lt g =
    let shift : idx + 1 + left ≡ idx + suc left = omega arith in
    record {
      laid_out = g.laid_out;
      owns = rw shift at g.owns;
      rest_empty = λ j le less. g.rest_empty j (omega arith) less;
      old_sectors = λ j less.
          let other : (j == idx) ≡ false = ground arith in
          g.old_sectors j (omega arith) ∙ rw other refl;
      outside = λ j le.
          let other : (j == idx) ≡ false = ground arith in
          g.outside j (omega arith) ∙ rw other refl;
      old_all = λ j less.
          let other : (j == idx) ≡ false = ground arith in
          g.old_all j (omega arith) ∙ rw other refl;
      new_all = λ j le less. elim (Bool-cases (j == idx)) [
        | inl e ↦
            g.old_all j (ground arith) ∙ rw e (sym (g.old_sectors j (ground arith) ∙ rw e refl))
        | inr e ↦ g.new_all j (ground arith) (omega arith)
      ];
      disk_kept = λ a le. g.disk_kept a le ∙ disk_kept-after_alloc p r h a lt le;
      same_sb = g.same_sb;
      agrees = g.agrees;
    }

-- From a file whose first `idx` blocks are allocated and whose other direct blocks are not, the
-- loop allocates `left` blocks if as many are free.
pub alloc_loop_lem :
    (left idx : ℕ) (f : OpenFile) (all : ℕ → ℕ)
    → IsLaidOut f.part
    → Owns f.part f.inode.i_sectors idx
    → ((j : ℕ) → idx ≤ j → j < 12 → f.inode.i_sectors j ≡ 0)
    → Agrees f.part.disk f.part.sb.block_bitmap_lba f.part.block_bitmap
    → idx + left ≤ 12
    → left ≤ free_blocks f.part.block_bitmap
    → (p' : Partition) × (sectors' all' : ℕ → ℕ) × (alloc_loop left idx f all
        ≡ done (true, placed f p' sectors', all'))
      × Grown f.part f.inode.i_sectors all idx left p' sectors' all'
unfolding alloc_loop
alloc_loop_lem zero idx f all h o z agrees room free =
    (f.part, f.inode.i_sectors, all, refl, Grown-none f.part f.inode.i_sectors all idx h o z agrees)
alloc_loop_lem (suc left) idx f all h o z agrees room free =
    let len = f.part.block_bitmap.btmp_bytes_len * 8 in
    let (s, inside, clear_s) = free_count-some f.part.block_bitmap len (omega arith) in
    let (r, alloc, sync, below, clear) = alloc_block f.part s h.blocks inside clear_s in
    let lt : r < len = omega arith in
    let lba = f.part.sb.data_start_lba + r in
    let left_free = free_blocks-set_bit f.part.block_bitmap r left h.blocks.valid lt clear free in
    let (p', sectors', all', run, grown) =
      alloc_loop_lem left (idx + 1)
        (placed f (after_alloc f.part r) (update f.inode.i_sectors idx lba)) (update all idx lba)
        (IsLaidOut-after_alloc f.part r h) (Owns-update f.part f.inode.i_sectors idx r h lt clear o)
        (λ j le less.
          let other : (j == idx) ≡ false = ground arith in rw other (z j (omega arith) less))
        (set_bit-Agrees f.part.disk f.part.sb.block_bitmap_lba f.part.block_bitmap r true
          h.blocks.valid agrees)
        (omega arith) left_free in
    (
      p',
      sectors',
      all',
      alloc_round left idx f all r h lt (omega arith) (z idx (omega arith) (omega arith)) alloc sync
          ∙ run,
      Grown-step f.part f.inode.i_sectors all idx left r p' sectors' all' h lt grown,
    )
