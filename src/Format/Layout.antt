-- ===== src/Format/Layout.antt =====
-- Where `partition_format` puts the parts of a partition.
use elephant_os.Base.{
  ℕ, zero, suc, ◌+◌, ◌-◌, ◌*◌, ◌/◌, ◌%◌, ◌^◌, ◌<◌, ◌≤◌, ◌≡◌, refl, ◌∙◌, ap, arith, List, [], ◌∷◌,
  get_or, Mem,
}
use elephant_os.Disk.{SuperBlock, max_lba, word_at, bytes_of}
use elephant_os.Disk.Bytes.{word_at-bytes_of, word_at-same}
use elephant_os.Format.{block_count, layout, sb_list, sb_words, sb_from}

-- a partition that holds the tables and a few blocks, and lies on the disk
pub record Fits (start cnt : ℕ) : Type 0 where
  pub holds : 640 ≤ cnt
  pub on_disk : start + cnt ≤ max_lba + 1

-- the sectors of the map of the blocks
unfoldable pub map_sects : ℕ → ℕ
map_sects cnt = (block_count cnt + 4095) / 4096

-- the super block without the wrap-around of the sums
abbrev pub plain : ℕ → ℕ → SuperBlock
plain start cnt = record {
  magic = 0x19590318;
  sec_cnt = cnt;
  inode_cnt = 4096;
  part_lba_base = start;
  block_bitmap_lba = start + 2;
  block_bitmap_sects = map_sects cnt;
  inode_bitmap_lba = start + 2 + map_sects cnt;
  inode_bitmap_sects = 1;
  inode_table_lba = start + 3 + map_sects cnt;
  inode_table_sects = 608;
  data_start_lba = start + 611 + map_sects cnt;
  root_inode_no = 0;
  dir_entry_size = 24;
}

abbrev AllSmall : List ℕ → Type 0
AllSmall [] = 0 < 1
AllSmall (x ∷ l) = (x < 2 ^ 32) × AllSmall l

small_get : (l : List ℕ) (n : ℕ) → AllSmall l → get_or l n 0 < 2 ^ 32
small_get [] n all = omega arith
small_get (x ∷ l) zero (small, all) = small
small_get (x ∷ l) (suc n) (small, all) = small_get l n all

module _ (start cnt : ℕ) (fits : Fits start cnt) where
  pub block_count_lem : block_count cnt ≡ cnt - 611 - (cnt - 611 + 4095) / 4096
  unfolding block_count
  block_count_lem = omega (arith, fits.holds, fits.on_disk)

  pub map_sects_lem :
      (8 ≤ block_count cnt)
      × (1 ≤ map_sects cnt)
      × (block_count cnt ≤ map_sects cnt * 4096)
      × (map_sects cnt ≤ (block_count cnt / 4096 + 1))
      × (start + 611 + map_sects cnt + block_count cnt ≤ start + cnt)
  unfolding map_sects
  map_sects_lem =
      let n = block_count_lem in
      (
        omega (arith, n, fits.holds, fits.on_disk),
        omega (arith, n, fits.holds, fits.on_disk),
        omega (arith, n, fits.holds, fits.on_disk),
        omega (arith, n, fits.holds, fits.on_disk),
        omega (arith, n, fits.holds, fits.on_disk),
      )

  pub layout_lem : layout start cnt ≡ plain start cnt
  unfolding layout
  layout_lem =
      let (some, one, upper, lower, last) = map_sects_lem in
      let s : (block_count cnt + 4096 - 1) % 2 ^ 32 / 4096 ≡ map_sects cnt =
        unfold map_sects in omega (arith, fits.on_disk, last) in
      let a : (start + 2) % 2 ^ 32 ≡ start + 2 = omega (arith, fits.on_disk) in
      let b : (start + 2 + map_sects cnt) % 2 ^ 32 ≡ start + 2 + map_sects cnt =
        omega (arith, last, fits.on_disk) in
      let c : (start + 2 + map_sects cnt + 1) % 2 ^ 32 ≡ start + 3 + map_sects cnt =
        omega (arith, last, fits.on_disk) in
      let d : (start + 3 + map_sects cnt + 608) % 2 ^ 32 ≡ start + 611 + map_sects cnt =
        omega (arith, last, fits.on_disk) in
      rw (layout, s, a, b, c, d) refl

  small_lem : (n : ℕ) → sb_words (plain start cnt) n < 2 ^ 32
  unfolding sb_words
  small_lem n =
      let (some, one, upper, lower, last) = map_sects_lem in
      let bound : start + 611 + map_sects cnt < 2 ^ 32 = omega (arith, last, fits.on_disk) in
      let count : cnt < 2 ^ 32 = omega (arith, fits.on_disk) in
      small_get (sb_list (plain start cnt)) n (
        omega arith,
        (
          count,
          (
            omega arith,
            (
              omega (arith, bound),
              (
                omega (arith, bound),
                (
                  omega (arith, bound),
                  (
                    omega (arith, bound),
                    (
                      omega arith,
                      (
                        omega (arith, bound),
                        (
                          omega arith,
                          (omega (arith, bound), (omega arith, (omega arith, omega arith))),
                        ),
                      ),
                    ),
                  ),
                ),
              ),
            ),
          ),
        ),
      )

  -- The super block is read back from its bytes.
  pub sb_from-sb_words :
      (m : Mem)
      → ((k : ℕ) → k < 512 → m k ≡ bytes_of (sb_words (plain start cnt)) k)
      → sb_from m ≡ plain start cnt
  unfolding sb_from
  sb_from-sb_words m same =
      let word : (n a : ℕ) → a ≡ 4 * n → n < 13 → word_at m a ≡ sb_words (plain start cnt) n =
        λ n a e lt.
          word_at-same m (bytes_of (sb_words (plain start cnt))) a (4 * n) (λ k lt'.
            same (a + k) (omega arith) ∙ ap (λ x. bytes_of (sb_words (plain start cnt)) (x + k)) e)
          ∙ word_at-bytes_of (sb_words (plain start cnt)) n (small_lem n) in
      unfold sb_words in
      rw
        (
          sb_from,
          word 0 0 refl (omega arith),
          word 1 4 refl (omega arith),
          word 2 8 refl (omega arith),
          word 3 12 refl (omega arith),
          word 4 16 refl (omega arith),
          word 5 20 refl (omega arith),
          word 6 24 refl (omega arith),
          word 7 28 refl (omega arith),
          word 8 32 refl (omega arith),
          word 9 36 refl (omega arith),
          word 10 40 refl (omega arith),
          word 11 44 refl (omega arith),
          word 12 48 refl (omega arith),
        )
        refl
