-- ===== src/Partitions.antt =====
-- device/ide.c: `partition_scan`, which finds the partitions of a disk, and the loop of `filesys_init`
-- (fs/fs.c) over them. The scan calls itself as the disk's tables tell it, so that it has fuel;
-- `none` is that the fuel is not enough. The names of partitions are left out. An index
-- behind the end of an array stands for the memory that follows it.
pub mod Chain
pub mod Errors
mod Tests
use elephant_os.Base.{
  ℕ, zero, suc, ◌+◌, ◌-◌, ◌*◌, ◌/◌, ◌%◌, ◌^◌, Bool, true, false, Option, none, some, List, [], ◌∷◌,
  ◌++◌, ◌==◌, ltb, leb, if◌then◌else◌, update, u32, Mem, Outcome, done, panic, ◌>>=◌, ◌>>◌, assert,
}
use elephant_os.Disk.{Partition, SuperBlock, read_sectors, word_at}
use elephant_os.Format.{layout, sb_from, partition_format}

-- the part of `struct partition` that the scan fills in
pub record Part : Type 0 where
  pub start_lba : ℕ
  pub sec_cnt : ℕ

-- an element of `partition_list`, by its place in one of the two arrays
pub data Listed : Type 0 where
  primary logical : ℕ → Listed

pub record Scan : Type 0 where
  pub ext_lba_base : ℕ
  pub p_no : ℕ
  pub l_no : ℕ
  pub prim_parts : ℕ → Part
  pub logic_parts : ℕ → Part
  pub partition_list : List Listed

-- `struct partition_table_entry` number `i` of a boot sector
abbrev pub fs_type : Mem → ℕ → ℕ
fs_type bs i = bs (446 + 16 * i + 4)

abbrev pub entry_start : Mem → ℕ → ℕ
entry_start bs i = word_at bs (446 + 16 * i + 8)

abbrev pub entry_part : Mem → ℕ → ℕ → Part
entry_part bs i ext_lba = record {
  start_lba = u32 (ext_lba + entry_start bs i);
  sec_cnt = word_at bs (446 + 16 * i + 12);
}

abbrev pub add_primary : Scan → Part → Scan
add_primary s p = record s {
  prim_parts = update s.prim_parts s.p_no p;
  partition_list = s.partition_list ++ (primary s.p_no ∷ []);
  p_no = s.p_no + 1;
}

abbrev pub add_logical : Scan → Part → Scan
add_logical s p = record s {
  logic_parts = update s.logic_parts s.l_no p;
  partition_list = s.partition_list ++ (logical s.l_no ∷ []);
  l_no = s.l_no + 1;
}

-- the scan of the table that an extended partition points to
unfoldable pub scan_extended : (ℕ → Scan → Outcome (Option Scan)) → ℕ → Scan → Outcome (Option Scan)
scan_extended scan start s =
    if s.ext_lba_base == 0
    then scan start (record s { ext_lba_base = start })
    else scan (u32 (start + s.ext_lba_base)) s

-- the loop over the entries from `i` on; `scan` is the recursive call
unfoldable pub scan_entries :
    (ℕ → Scan → Outcome (Option Scan)) → Mem → ℕ → ℕ → ℕ → Scan → Outcome (Option Scan)
scan_entries scan bs ext_lba zero i s = done (some s)
scan_entries scan bs ext_lba (suc left) i s = elim (fs_type bs i == 5) [
  | true ↦ do
    r ← scan_extended scan (entry_start bs i) s
    elim r [ none ↦ done none | some s' ↦ scan_entries scan bs ext_lba left (i + 1) s' ]
  | false ↦ elim (fs_type bs i == 0) [
    | true ↦ scan_entries scan bs ext_lba left (i + 1) s
    | false ↦ elim (ext_lba == 0) [
      | true ↦ do
        let s' = add_primary s (entry_part bs i ext_lba)
        assert (ltb s'.p_no 4)
        scan_entries scan bs ext_lba left (i + 1) s'
      | false ↦
          let s' = add_logical s (entry_part bs i ext_lba) in
          elim (leb 8 s'.l_no) [
            | true ↦ done (some s')
            | false ↦ scan_entries scan bs ext_lba left (i + 1) s'
          ]
    ]
  ]
]

unfoldable pub partition_scan : ℕ → Mem → ℕ → Scan → Outcome (Option Scan)
partition_scan zero disk ext_lba s = done none
partition_scan (suc fuel) disk ext_lba s = do
  bs ← read_sectors disk ext_lba (λ x. 0) 1
  scan_entries (partition_scan fuel disk) bs ext_lba 4 0 s

-- a disk with the partitions that were found on it
pub record Drive : Type 0 where
  pub prim : ℕ → Part
  pub logic : ℕ → Part
  pub bytes : Mem

abbrev pub drive_part : Drive → ℕ → Part
drive_part d idx = if ltb idx 4 then d.prim idx else d.logic (idx - 4)

-- A partition without a file system is formatted.
unfoldable pub format_part : Part → Mem → Outcome Mem
format_part part disk = elim (part.sec_cnt == 0) [
  | true ↦ done disk
  | false ↦ do
    buf ← read_sectors disk (u32 (part.start_lba + 1)) (λ x. 0) 1
    elim ((sb_from buf).magic == 0x19590318) [
      | true ↦ done disk
      | false ↦ do
        p ← partition_format (record {
          start_lba = part.start_lba;
          sec_cnt = part.sec_cnt;
          sb = sb_from (λ x. 0);
          block_bitmap = record { btmp_bytes_len = 0; bits = λ x. 0 };
          inode_bitmap = record { btmp_bytes_len = 0; bits = λ x. 0 };
          disk = disk;
        })
        done p.disk
    ]
]

-- the loop `while (part_idx < 12)`
unfoldable pub parts_loop : ℕ → ℕ → Drive → Outcome Drive
parts_loop zero part_idx d = done d
parts_loop (suc left) part_idx d = do
  bytes ← format_part (drive_part d part_idx) d.bytes
  parts_loop left (part_idx + 1) (record d { bytes = bytes })

-- The loop over the channels, of which only the second disk is looked at; `part_idx` is not reset.
unfoldable pub drives_loop : ℕ → List Drive → Outcome (List Drive)
drives_loop part_idx [] = done []
drives_loop part_idx (d ∷ drives) = do
  d' ← parts_loop (12 - part_idx) part_idx d
  rest ← drives_loop (if ltb part_idx 12 then 12 else part_idx) drives
  done (d' ∷ rest)
