-- ===== src/Partitions/Tests.antt =====
-- Instances of the theorems about the scan for partitions.
use elephant_os.Base.{
  ℕ, ◌<◌, ◌≡◌, refl, arith, some, List, [], ◌∷◌, ◌==◌, if◌then◌else◌, Mem, done, panic,
}
use elephant_os.Disk.{copy, word_at}
use elephant_os.Partitions.{Part, Scan, entry_part, partition_scan}
use elephant_os.Partitions.Chain.{IsChain, HasLogical, table, add_all, partition_scan_lem}
use elephant_os.Partitions.Errors.{IsPrimary, partition_scan_four}

abbrev nowhere : Part
nowhere = record { start_lba = 0; sec_cnt = 0 }

abbrev start : ℕ → Scan
start base = record {
  ext_lba_base = base;
  p_no = 0;
  l_no = 0;
  prim_parts = λ i. nowhere;
  logic_parts = λ i. nowhere;
  partition_list = [];
}

-- an extended partition from sector 100 on, with tables in the sectors 100 and 160
abbrev two_tables : Mem
two_tables a =
    if a == 51650
    then 0x83
    else if a == 51654
    then 2
    else if a == 51658
    then 50
    else if a == 51666
    then 5
    else if a == 51670
    then 60
    else if a == 82370
    then 0x83
    else if a == 82374
    then 2
    else if a == 82378
    then 40
    else 0

first : HasLogical two_tables 100
unfolding copy
first = record {
  not_first = ground arith;
  on_disk = omega arith;
  not_extended = ground arith;
  in_use = ground arith;
  third = refl;
  fourth = refl;
}

second : HasLogical two_tables 160
unfolding copy
second = record {
  not_first = ground arith;
  on_disk = omega arith;
  not_extended = ground arith;
  in_use = ground arith;
  third = refl;
  fourth = refl;
}

abbrev two_parts : List Part
two_parts = entry_part (table two_tables 100) 0 100 ∷ entry_part (table two_tables 160) 0 160 ∷ []

two_tables-IsChain : IsChain two_tables 100 100 two_parts
unfolding copy word_at
two_tables-IsChain =
    IsChain.more 100 (entry_part (table two_tables 160) 0 160 ∷ []) first refl
      (IsChain.one 160 second refl)

partition_scan_lem_example :
    partition_scan 2 two_tables 100 (start 100) ≡ done (some (add_all (start 100) two_parts))
partition_scan_lem_example =
    partition_scan_lem 2 two_tables 100 (start 100) two_parts two_tables-IsChain (ground arith)
      (omega arith) (omega arith)

all_used : (i : ℕ) → i < 4 → IsPrimary (λ a. 0x83) i
all_used i lt = record { not_extended = ground arith; in_use = ground arith }

partition_scan_four_example : partition_scan 1 (λ a. 0x83) 0 (start 0) ≡ panic
partition_scan_four_example = partition_scan_four 0 (λ a. 0x83) (start 0) all_used refl
