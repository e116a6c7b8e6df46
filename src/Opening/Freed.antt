-- ===== src/Opening/Freed.antt =====
-- Which blocks `inode_release` gives back.
use mathlib.Core.Path.{subst}
use elephant_os.Base.{
  ℕ, zero, suc, ◌+◌, ◌*◌, ◌/◌, ◌<◌, ◌≤◌, ◌≡◌, ◌⊎◌, refl, ◌∙◌, sym, ap, inl, inr, Bool, true, false,
  not, ◌&&◌, ◌||◌, arith, ◌==◌, ltb, if◌then◌else◌, sub32, done,
}
use elephant_os.Bitmap.{bitmap_scan_test}
use elephant_os.Bitmap.Set.{set_bit, scan_test-set_bit, bitmap_set_zero}
use elephant_os.Files.{Inode}
use elephant_os.Directory.{dir_blocks}
use elephant_os.Disk.{Partition}
use elephant_os.Disk.Alloc.{
  Agrees, synced, HasBlocks, with_block, with_disk, HasBlocks-with_block, set_bit-Agrees,
  set_bit_len, bitmap_sync_block,
}
use elephant_os.Disk.Bytes.{copy-behind}
use elephant_os.Disk.Inodes.{HasTable}
use elephant_os.Opening.Release.{unmark_block, release_if, release_loop, release_blocks}

-- the state of the block bitmap, in memory and on the disk, without the blocks of `gone`; the rest of
-- the partition is as it was
pub record Freed (p p' : Partition) (gone : ℕ → Bool) : Type 0 where
  pub same_sb : p'.sb ≡ p.sb
  pub same_len : p'.block_bitmap.btmp_bytes_len ≡ p.block_bitmap.btmp_bytes_len
  pub blocks : HasBlocks p'
  pub table : HasTable p → HasTable p'
  pub same_inodes : p'.inode_bitmap ≡ p.inode_bitmap
  pub agrees : Agrees p'.disk p'.sb.block_bitmap_lba p'.block_bitmap
  pub behind :
      (a : ℕ)
      → (p.sb.block_bitmap_lba + (p.block_bitmap.btmp_bytes_len + 511) / 512) * 512 ≤ a
      → p'.disk a ≡ p.disk a
  pub bits :
      (j : ℕ)
      → bitmap_scan_test p'.block_bitmap j ≡ (bitmap_scan_test p.block_bitmap j && not (gone j))

-- the address of a block of the bitmap that is not the first
pub record IsBlock (p : Partition) (lba : ℕ) : Type 0 where
  pub block : ℕ
  pub at : lba ≡ p.sb.data_start_lba + block
  pub positive : 0 < block
  pub inside : block < p.block_bitmap.btmp_bytes_len * 8

abbrev freed : Partition → ℕ → Partition
freed p r =
    with_disk (with_block p r false)
      (synced p.disk p.sb.block_bitmap_lba (set_bit p.block_bitmap r false) r)

unmark_block_lem :
    (p : Partition) (lba : ℕ)
    → HasBlocks p
    → Agrees p.disk p.sb.block_bitmap_lba p.block_bitmap
    → (b : IsBlock p lba)
    → (unmark_block p lba ≡ done (freed p b.block))
      × Freed p (freed p b.block) (λ j. p.sb.data_start_lba + j == lba)
unfolding unmark_block
unmark_block_lem p lba h agrees b =
    let r = b.block in
    let idx : sub32 lba p.sb.data_start_lba ≡ r = ground (arith, b.at, b.inside, h.in_range) in
    let pos : ltb 0 r ≡ true = ground (arith, b.positive) in
    let sync =
      bitmap_sync_block (with_block p r false) r (HasBlocks-with_block p r false h)
        (rw (set_bit_len p.block_bitmap r false) b.inside) in
    let h' = HasBlocks-with_block p r false h in
    (
      rw (unmark_block, idx, pos, bitmap_set_zero p.block_bitmap r, sync) refl,
      record {
        same_sb = refl;
        same_len = set_bit_len p.block_bitmap r false;
        blocks = record { valid = h'.valid; on_disk = h'.on_disk; in_range = h'.in_range };
        table = λ t. record { on_disk = t.on_disk; in_partition = t.in_partition; small = t.small };
        same_inodes = refl;
        behind = λ a le.
            copy-behind p.disk _ ((p.sb.block_bitmap_lba + r / 4096) * 512) 512 a
              (omega (arith, b.inside));
        agrees = set_bit-Agrees p.disk p.sb.block_bitmap_lba p.block_bitmap r false h.valid agrees;
        bits = λ j. ground (arith, b.at, scan_test-set_bit p.block_bitmap r j false h.valid);
      },
    )

Freed-trans :
    {f g : ℕ → Bool} (p q r : Partition) → Freed p q f → Freed q r g → Freed p r (λ j. f j || g j)
Freed-trans {f} {g} p q r first second = record {
  same_sb = second.same_sb ∙ first.same_sb;
  same_len = second.same_len ∙ first.same_len;
  blocks = second.blocks;
  table = λ t. second.table (first.table t);
  same_inodes = second.same_inodes ∙ first.same_inodes;
  behind = λ a le. second.behind a (rw (first.same_sb, first.same_len) le) ∙ first.behind a le;
  agrees = second.agrees;
  bits = λ j. ground (arith, second.bits j, first.bits j);
}

IsBlock-Freed :
    {f : ℕ → Bool} (p q : Partition) (lba : ℕ) → Freed p q f → IsBlock p lba → IsBlock q lba
IsBlock-Freed p q lba freed b = record {
  block = b.block;
  at = b.at ∙ ap (λ s. s.data_start_lba + b.block) (sym freed.same_sb);
  positive = b.positive;
  inside = rw freed.same_len b.inside;
}

IsBlock-all :
    {f : ℕ → Bool} (p q : Partition) (all : ℕ → ℕ)
    → Freed p q f
    → ((k : ℕ) → (all k ≡ 0) ⊎ IsBlock p (all k))
    → (k : ℕ) → (all k ≡ 0) ⊎ IsBlock q (all k)
IsBlock-all p q all freed fit k = elim (fit k) [
  | inl e ↦ inl e
  | inr b ↦ inr (IsBlock-Freed p q (all k) freed b)
]

-- one address of the array
release_if_lem :
    (p : Partition) (lba : ℕ)
    → HasBlocks p
    → Agrees p.disk p.sb.block_bitmap_lba p.block_bitmap
    → (lba ≡ 0) ⊎ IsBlock p lba
    → (p' : Partition) × (release_if p lba ≡ done p')
      × Freed p p' (λ j. not (lba == 0) && (p.sb.data_start_lba + j == lba))
unfolding release_if
release_if_lem p lba h agrees (inl e) =
    let zero_lba : (lba == 0) ≡ true = ground (arith, e) in
    (
      p,
      rw (release_if, zero_lba) refl,
      record {
        same_sb = refl;
        same_len = refl;
        blocks = h;
        table = λ t. t;
        same_inodes = refl;
        behind = λ a le. refl;
        agrees = agrees;
        bits = λ j. ground (arith, zero_lba);
      },
    )
release_if_lem p lba h agrees (inr b) =
    let some_lba : (lba == 0) ≡ false = ground (arith, b.at, b.positive) in
    let (run, gone) = unmark_block_lem p lba h agrees b in
    (
      freed p b.block,
      rw (release_if, some_lba) run,
      record {
        same_sb = gone.same_sb;
        same_len = gone.same_len;
        blocks = gone.blocks;
        table = gone.table;
        same_inodes = gone.same_inodes;
        behind = gone.behind;
        agrees = gone.agrees;
        bits = λ j. ground (arith, some_lba, gone.bits j);
      },
    )

-- whether one of `left` addresses from `idx` on is `lba`, where 0 stands for no block
unfoldable pub listed : ℕ → ℕ → (ℕ → ℕ) → ℕ → Bool
listed zero idx all lba = false
listed (suc left) idx all lba =
    (not (all idx == 0) && (lba == all idx)) || listed left (idx + 1) all lba

-- With every address in the array 0 or that of a block, the loop ends; then exactly the blocks of
-- the array are free in addition, in memory and on the disk.
release_loop_lem :
    (left idx : ℕ) (p : Partition) (all : ℕ → ℕ)
    → HasBlocks p
    → Agrees p.disk p.sb.block_bitmap_lba p.block_bitmap
    → ((k : ℕ) → (all k ≡ 0) ⊎ IsBlock p (all k))
    → (p' : Partition) × (release_loop left idx p all ≡ done p')
      × Freed p p' (λ j. listed left idx all (p.sb.data_start_lba + j))
unfolding release_loop listed
release_loop_lem zero idx p all h agrees fit = (
  p,
  refl,
  record {
    same_sb = refl;
    same_len = refl;
    blocks = h;
    table = λ t. t;
    same_inodes = refl;
    behind = λ a le. refl;
    agrees = agrees;
    bits = λ j. ground arith;
  },
)
release_loop_lem (suc left) idx p all h agrees fit =
    let (q, run, gone) = release_if_lem p (all idx) h agrees (fit idx) in
    let fit' : (k : ℕ) → (all k ≡ 0) ⊎ IsBlock q (all k) = IsBlock-all p q all gone fit in
    let (r, rest, gone') = release_loop_lem left (idx + 1) q all gone.blocks gone.agrees fit' in
    let gone'' =
      subst (λ s. Freed q r (λ j. listed left (idx + 1) all (s.data_start_lba + j))) gone.same_sb
        gone' in
    (r, rw (release_loop, run) rest, Freed-trans p q r gone gone'')

-- If the addresses of an inode's blocks and of its table can be read, and each is 0 or that of a
-- block that is not the first, then `release_blocks` gives back exactly these blocks and the table:
-- no other bit of the bitmap changes, and the disk's copy of the bitmap is the one in memory.
pub release_blocks_lem :
    (p : Partition) (i : Inode) (all : ℕ → ℕ)
    → HasBlocks p
    → Agrees p.disk p.sb.block_bitmap_lba p.block_bitmap
    → dir_blocks p i (λ n. 0) ≡ done all
    → ((k : ℕ) → (all k ≡ 0) ⊎ IsBlock p (all k))
    → (i.i_sectors 12 ≡ 0) ⊎ IsBlock p (i.i_sectors 12)
    → (p' : Partition) × (release_blocks p i ≡ done p')
      × Freed p p' (λ j.
        (not (i.i_sectors 12 == 0) && (p.sb.data_start_lba + j == i.i_sectors 12))
        || listed (if i.i_sectors 12 == 0 then 12 else 140) 0 all (p.sb.data_start_lba + j))
unfolding release_blocks
release_blocks_lem p i all h agrees read fit table =
    let (q, run, gone) = release_if_lem p (i.i_sectors 12) h agrees table in
    let fit' : (k : ℕ) → (all k ≡ 0) ⊎ IsBlock q (all k) = IsBlock-all p q all gone fit in
    let left = if i.i_sectors 12 == 0 then 12 else 140 in
    let (r, rest, gone') = release_loop_lem left 0 q all gone.blocks gone.agrees fit' in
    let gone'' =
      subst (λ s. Freed q r (λ j. listed left 0 all (s.data_start_lba + j))) gone.same_sb gone' in
    (r, rw (release_blocks, read, run) rest, Freed-trans p q r gone gone'')
