-- ===== src/FileData/Planned.antt =====
-- The plan of `file_write` for files of at most 12 blocks.
use elephant_os.Base.{
  ℕ, ◌+◌, ◌-◌, ◌/◌, ◌%◌, ◌^◌, ◌<◌, ◌≤◌, ◌≡◌, ◌≢◌, refl, ◌∙◌, inl, inr, true, false, arith, leb,
  ◌==◌, update, sub32, done, Bool-cases,
}
use elephant_os.Disk.{Partition, block_size}
use elephant_os.Disk.Alloc.{Agrees}
use elephant_os.Disk.Free.{free_blocks}
use elephant_os.Disk.Layout.{IsLaidOut, Owns}
use elephant_os.FileData.{OpenFile, alloc_loop, first_block, plan_same, plan_direct, plan_blocks}
use elephant_os.FileData.Plan.{Grown, Grown-none, placed, alloc_loop_lem}

abbrev pub has_used : OpenFile → ℕ
has_used f = f.inode.i_size / block_size + 1

-- a file of at most 12 blocks, the first of which is allocated
pub record IsFile (f : OpenFile) : Type 0 where
  pub owns : Owns f.part f.inode.i_sectors (has_used f)
  pub rest_empty : (j : ℕ) → has_used f ≤ j → j < 12 → f.inode.i_sectors j ≡ 0
  pub direct : has_used f ≤ 12
  pub number : f.inode.i_no < 256
  pub table_sector : f.inode.i_sectors 12 < 2 ^ 32

abbrev pub will_use : OpenFile → ℕ → ℕ
will_use f count = (f.inode.i_size + count) / block_size + 1

-- `all_blocks` with the last block of the file
abbrev pub last_old : OpenFile → (ℕ → ℕ) → ℕ → ℕ
last_old f all =
    update all (f.inode.i_size / block_size) (f.inode.i_sectors (f.inode.i_size / block_size))

-- what is left of the plan when `count` bytes more still fit into 12 blocks
module _ (f : OpenFile) (all : ℕ → ℕ) (count : ℕ) (h : IsLaidOut f.part) (w : IsFile f)
    (agrees : Agrees f.part.disk f.part.sb.block_bitmap_lba f.part.block_bitmap)
    (room : (f.inode.i_size + count) / block_size + 1 ≤ 12)
    (free : (f.inode.i_size + count) / block_size - f.inode.i_size / block_size
      ≤ free_blocks f.part.block_bitmap) where
  sector_nonzero : (j : ℕ) → j < has_used f → (f.inode.i_sectors j == 0) ≡ false
  sector_nonzero j lt = ground (arith, (w.owns.in_use j lt).from_start, h.data_last)

  pub first_block_lem : first_block f ≡ done (true, f)
  unfolding first_block
  first_block_lem = rw (sector_nonzero 0 (omega arith)) refl

  back : (f.inode.i_size / 512 + 1 + 2 ^ 32 - 1) % 2 ^ 32 ≡ f.inode.i_size / 512
  back = omega (arith, w.direct)

  plan_same_run :
      f.inode.i_size / 512 ≡ (f.inode.i_size + count) / 512
      → plan_blocks f (has_used f) (will_use f count) all ≡ done (true, f, last_old f all)
  unfolding plan_blocks plan_same
  plan_same_run same =
      let direct : leb (f.inode.i_size / 512 + 1) 12 ≡ true = ground (arith, w.direct) in
      let added : (sub32 (will_use f count) (has_used f) == 0) ≡ true = ground arith in
      rw (plan_blocks, added, plan_same, direct, back) refl

  plan_direct_run :
      f.inode.i_size / 512 ≢ (f.inode.i_size + count) / 512
      → plan_blocks f (has_used f) (will_use f count) all
        ≡ alloc_loop (will_use f count - has_used f) (has_used f) f (last_old f all)
  unfolding plan_blocks plan_direct
  plan_direct_run more =
      let added : (sub32 (will_use f count) (has_used f) == 0) ≡ false = ground arith in
      let fits : leb (will_use f count) 12 ≡ true = ground arith in
      rw
        (
          plan_blocks,
          added,
          fits,
          plan_direct,
          back,
          sector_nonzero (f.inode.i_size / 512) (omega arith),
        )
        refl

  pub plan_blocks_lem :
      (p' : Partition) × (sectors' all' : ℕ → ℕ) × (plan_blocks f
          (has_used f)
          (will_use f count)
          all
        ≡ done (true, placed f p' sectors', all'))
      × Grown f.part f.inode.i_sectors
          (last_old f all)
          (has_used f)
          (will_use f count - has_used f)
          p'
          sectors'
          all'
  plan_blocks_lem = elim (Bool-cases (f.inode.i_size / 512 == (f.inode.i_size + count) / 512)) [
    | inl same ↦
        let none_added : will_use f count - has_used f ≡ 0 = ground arith in
        (
          f.part,
          f.inode.i_sectors,
          last_old f all,
          plan_same_run (ground arith),
          rw none_added (
              Grown-none f.part f.inode.i_sectors (last_old f all) (has_used f) h w.owns
                w.rest_empty agrees),
        )
    | inr more ↦
        let (p', sectors', all', run, grown) =
          alloc_loop_lem (will_use f count - has_used f) (has_used f) f (last_old f all) h w.owns
            w.rest_empty agrees (omega arith) (omega arith) in
        (p', sectors', all', plan_direct_run (ground arith) ∙ run, grown)
  ]
