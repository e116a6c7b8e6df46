-- ===== src/Partitions/Chain.antt =====
-- The logical partitions of a disk, as a chain of tables.
use elephant_os.Base.{
  ℕ, zero, suc, ◌+◌, ◌*◌, ◌<◌, ◌≤◌, ◌≡◌, ◌≢◌, refl, ◌∙◌, arith, true, false, Option, some, List, [],
  ◌∷◌, ◌==◌, leb, ==_of_ne, length, u32, Mem, Outcome, done,
}
use elephant_os.Disk.{max_lba, copy, read_sectors}
use elephant_os.Partitions.{
  Part, Scan, fs_type, entry_start, entry_part, add_logical, scan_extended, scan_entries,
  partition_scan,
}

-- the table in sector `lba`, as it is read
abbrev pub table : Mem → ℕ → Mem
table disk lba = copy (λ x. 0) 0 (λ x. disk (lba * 512 + x)) 512

-- the first entry of a table is a logical partition, and the last two are free
pub record HasLogical (disk : Mem) (lba : ℕ) : Type 0 where
  pub not_first : lba ≢ 0
  pub on_disk : lba ≤ max_lba
  pub not_extended : fs_type (table disk lba) 0 ≢ 5
  pub in_use : fs_type (table disk lba) 0 ≢ 0
  pub third : fs_type (table disk lba) 2 ≡ 0
  pub fourth : fs_type (table disk lba) 3 ≡ 0

-- The tables from `lba` on list the partitions: the second entry of each table but the last points
-- to the next, from the start of the extended partition.
pub data IsChain (disk : Mem) (base : ℕ) : ℕ → List Part → Type 0 where
  one :
      (lba : ℕ)
      → HasLogical disk lba
      → fs_type (table disk lba) 1 ≡ 0
      → IsChain disk base lba (entry_part (table disk lba) 0 lba ∷ [])
  more :
      (lba : ℕ) (parts : List Part)
      → HasLogical disk lba
      → fs_type (table disk lba) 1 ≡ 5
      → IsChain disk base (u32 (entry_start (table disk lba) 1 + base)) parts
      → IsChain disk base lba (entry_part (table disk lba) 0 lba ∷ parts)

-- the state after all these partitions are added in their order
abbrev pub add_all : Scan → List Part → Scan
add_all s [] = s
add_all s (p ∷ parts) = add_all (add_logical s p) parts

module _ (scan : ℕ → Scan → Outcome (Option Scan)) (bs : Mem) (lba left i : ℕ) (s : Scan) where
  free_step :
      fs_type bs i ≡ 0
      → scan_entries scan bs lba (suc left) i s ≡ scan_entries scan bs lba left (i + 1) s
  unfolding scan_entries
  free_step e =
      let a : (fs_type bs i == 5) ≡ false = ground (arith, e) in
      let b : (fs_type bs i == 0) ≡ true = ground (arith, e) in rw (scan_entries, a, b) refl

  logical_step :
      lba ≢ 0
      → fs_type bs i ≢ 5
      → fs_type bs i ≢ 0
      → s.l_no < 7
      → scan_entries scan bs lba (suc left) i s
        ≡ scan_entries scan bs lba left (i + 1) (add_logical s (entry_part bs i lba))
  unfolding scan_entries
  logical_step not_first not_extended in_use lt =
      let room : leb 8 (s.l_no + 1) ≡ false = ground arith in
      rw
        (scan_entries, ==_of_ne _ _ not_extended, ==_of_ne _ _ in_use, ==_of_ne _ _ not_first, room)
        refl

  extended_step :
      (s' : Scan)
      → fs_type bs i ≡ 5
      → s.ext_lba_base ≢ 0
      → scan (u32 (entry_start bs i + s.ext_lba_base)) s ≡ done (some s')
      → scan_entries scan bs lba (suc left) i s ≡ scan_entries scan bs lba left (i + 1) s'
  unfolding scan_entries scan_extended
  extended_step s' e base run =
      let a : (fs_type bs i == 5) ≡ true = ground (arith, e) in
      rw (scan_entries, a, scan_extended, ==_of_ne _ _ base, run) refl

partition_scan_table :
    (fuel : ℕ) (disk : Mem) (lba : ℕ) (s : Scan)
    → lba ≤ max_lba
    → partition_scan (suc fuel) disk lba s
      ≡ scan_entries (partition_scan fuel disk) (table disk lba) lba 4 0 s
unfolding partition_scan read_sectors
partition_scan_table fuel disk lba s near =
    let a : leb lba max_lba ≡ true = ground (arith, near) in rw a refl

-- With as much fuel as there are partitions, the scan of a chain of tables adds the partitions of
-- the chain in their order, where there are fewer than 8 logical partitions with those found before.
pub partition_scan_lem :
    (fuel : ℕ) (disk : Mem) (lba : ℕ) (s : Scan) (parts : List Part)
    → IsChain disk s.ext_lba_base lba parts
    → s.ext_lba_base ≢ 0
    → s.l_no + length parts < 8
    → length parts ≤ fuel
    → partition_scan fuel disk lba s ≡ done (some (add_all s parts))
unfolding scan_entries
partition_scan_lem zero disk _ s _ (one lba h e) base few enough = absurd (omega arith)
partition_scan_lem zero disk _ s _ (more lba rest h e c) base few enough = absurd (omega arith)
partition_scan_lem (suc fuel) disk _ s _ (one lba h e) base few enough =
    let scan = partition_scan fuel disk in
    let bs = table disk lba in
    let s1 = add_logical s (entry_part bs 0 lba) in
    partition_scan_table fuel disk lba s h.on_disk
    ∙ logical_step scan bs lba 3 0 s h.not_first h.not_extended h.in_use (omega arith)
    ∙ free_step scan bs lba 2 1 s1 e
    ∙ free_step scan bs lba 1 2 s1 h.third
    ∙ free_step scan bs lba 0 3 s1 h.fourth
partition_scan_lem (suc fuel) disk _ s _ (more lba rest h e c) base few enough =
    let scan = partition_scan fuel disk in
    let bs = table disk lba in
    let s1 = add_logical s (entry_part bs 0 lba) in
    let s2 = add_all s1 rest in
    let run =
      partition_scan_lem fuel disk (u32 (entry_start bs 1 + s.ext_lba_base)) s1 rest c base
        (omega arith) (omega arith) in
    partition_scan_table fuel disk lba s h.on_disk
    ∙ logical_step scan bs lba 3 0 s h.not_first h.not_extended h.in_use (omega arith)
    ∙ extended_step scan bs lba 2 1 s1 s2 e base run
    ∙ free_step scan bs lba 1 2 s2 h.third
    ∙ free_step scan bs lba 0 3 s2 h.fourth
