-- ===== src/Directory/Indirect.antt =====
-- The loop of `delete_dir_entry` over the indirect blocks.
use elephant_os.Base.{ℕ, zero, suc, ◌<◌, ◌≤◌, ◌≡◌, refl, true, false, none, arith, ltb, Mem, done}
use elephant_os.Directory.{count_indirect}
use elephant_os.Directory.Update.{Dir}
use elephant_os.Directory.Delete.{Census, free_block, drop_block, shrink_if, remove_entry}

-- no number of rounds is enough
count_indirect_never :
    (fuel : ℕ) (all_blocks : ℕ → ℕ) (idx count : ℕ)
    → idx < 140
    → count_indirect fuel all_blocks idx count ≡ none
unfolding count_indirect
count_indirect_never zero all_blocks idx count lt = ground arith
count_indirect_never (suc fuel) all_blocks idx count lt =
    let inside : ltb idx 140 ≡ true = ground arith in
    rw (count_indirect, inside) (count_indirect_never fuel all_blocks idx _ lt)

-- If the entry that is deleted is the only one of an indirect block, which is not the first block of
-- the directory, and the block can be given back, then the deletion never ends: no number of rounds
-- is enough for its loop over the indirect blocks.
pub remove_entry_never :
    (fuel : ℕ) (d d1 : Dir) (all_blocks : ℕ → ℕ) (block_idx : ℕ) (io_buf : Mem) (c : Census) (k : ℕ)
    → c.dir_entry_cnt ≡ 1
    → c.is_dir_first_block ≡ false
    → 12 ≤ block_idx
    → free_block d (all_blocks block_idx) ≡ done d1
    → remove_entry fuel d all_blocks block_idx io_buf c k ≡ done none
unfolding remove_entry drop_block shrink_if
remove_entry_never fuel d d1 all_blocks block_idx io_buf c k one later indirect freed =
    let behind : ltb block_idx 12 ≡ false = ground arith in
    rw
      (
        remove_entry,
        one,
        later,
        freed,
        drop_block,
        behind,
        count_indirect_never fuel all_blocks 12 0 (omega arith),
      )
      refl
