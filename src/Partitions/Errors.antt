-- ===== src/Partitions/Errors.antt =====
-- Disks on which the scan and the formatting fail.
use elephant_os.Base.{
  ℕ, suc, ◌+◌, ◌*◌, ◌<◌, ◌≤◌, ◌≡◌, ◌≢◌, refl, ◌∙◌, ap, arith, true, false, Option, List, [], ◌∷◌,
  ltb, ==_of_ne, Mem, Outcome, done, panic,
}
use elephant_os.Disk.{copy, read_sectors}
use elephant_os.Disk.Bytes.{copy-start}
use elephant_os.Partitions.{
  Scan, Drive, fs_type, entry_part, add_primary, scan_entries, partition_scan, parts_loop,
  drives_loop,
}

-- an entry of a primary partition
pub record IsPrimary (bs : Mem) (i : ℕ) : Type 0 where
  pub not_extended : fs_type bs i ≢ 5
  pub in_use : fs_type bs i ≢ 0

primary_step :
    (scan : ℕ → Scan → Outcome (Option Scan)) (bs : Mem) (left i : ℕ) (s : Scan)
    → IsPrimary bs i
    → s.p_no < 3
    → scan_entries scan bs 0 (suc left) i s
      ≡ scan_entries scan bs 0 left (i + 1) (add_primary s (entry_part bs i 0))
unfolding scan_entries
primary_step scan bs left i s e lt =
    let room : ltb (s.p_no + 1) 4 ≡ true = ground arith in
    rw (scan_entries, ==_of_ne _ _ e.not_extended, ==_of_ne _ _ e.in_use, room) refl

primary_last :
    (scan : ℕ → Scan → Outcome (Option Scan)) (bs : Mem) (left i : ℕ) (s : Scan)
    → IsPrimary bs i
    → 3 ≤ s.p_no
    → scan_entries scan bs 0 (suc left) i s ≡ panic
unfolding scan_entries
primary_last scan bs left i s e le =
    let full : ltb (s.p_no + 1) 4 ≡ false = ground arith in
    rw (scan_entries, ==_of_ne _ _ e.not_extended, ==_of_ne _ _ e.in_use, full) refl

-- the boot sector as it is read
abbrev boot : Mem → Mem
boot disk = copy (λ x. 0) 0 (λ x. disk (0 * 512 + x)) 512

boot-IsPrimary : (disk : Mem) (i : ℕ) → i < 4 → IsPrimary disk i → IsPrimary (boot disk) i
boot-IsPrimary disk i lt e =
    let same : fs_type (boot disk) i ≡ fs_type disk i =
      copy-start (λ x. 0) (λ x. disk (0 * 512 + x)) 512 (446 + 16 * i + 4) (omega arith)
      ∙ ap disk (omega arith) in
    record { not_extended = rw same e.not_extended; in_use = rw same e.in_use }

-- A disk with four primary partitions stops the kernel, with any fuel but none.
pub partition_scan_four :
    (fuel : ℕ) (disk : Mem) (s : Scan)
    → ((i : ℕ) → i < 4 → IsPrimary disk i)
    → s.p_no ≡ 0
    → partition_scan (suc fuel) disk 0 s ≡ panic
unfolding partition_scan read_sectors
partition_scan_four fuel disk s all none_yet =
    let e : (i : ℕ) → i < 4 → IsPrimary (boot disk) i =
      λ i lt. boot-IsPrimary disk i lt (all i lt) in
    let scan = partition_scan fuel disk in
    let s1 = add_primary s (entry_part (boot disk) 0 0) in
    let s2 = add_primary s1 (entry_part (boot disk) 1 0) in
    let s3 = add_primary s2 (entry_part (boot disk) 2 0) in
    primary_step scan (boot disk) 3 0 s (e 0 (omega arith)) (omega arith)
    ∙ primary_step scan (boot disk) 2 1 s1 (e 1 (omega arith)) (omega arith)
    ∙ primary_step scan (boot disk) 1 2 s2 (e 2 (omega arith)) (omega arith)
    ∙ primary_last scan (boot disk) 0 3 s3 (e 3 (omega arith)) (omega arith)

drives_loop-past : (drives : List Drive) → drives_loop 12 drives ≡ done drives
unfolding drives_loop parts_loop
drives_loop-past [] = refl
drives_loop-past (d ∷ drives) = rw (drives_loop-past drives) refl

-- Whatever the formatting of the first disk's partitions does, the loop over the disks leaves every
-- further disk as it is, because the index of the partition stays behind the last one.
drives_loop_first :
    (d d' : Drive) (drives : List Drive)
    → parts_loop 12 0 d ≡ done d'
    → drives_loop 0 (d ∷ drives) ≡ done (d' ∷ drives)
unfolding drives_loop
drives_loop_first d d' drives first = rw (drives_loop, first, drives_loop-past drives) refl
