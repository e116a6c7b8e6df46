-- ===== src/Directory/Insert.antt =====
-- Where `sync_dir_entry` puts an entry.
use elephant_os.Base.{
  ℕ, zero, suc, ◌+◌, ◌*◌, ◌%◌, ◌<◌, ◌≤◌, ◌≡◌, refl, ◌∙◌, ap, inl, inr, Bool, true, false, Option,
  none, some, arith, ltb, leb, ◌==◌, if◌then◌else◌, u32, Mem, Outcome, done, Bool-cases,
}
use elephant_os.Disk.{max_lba, copy, write_sectors}
use elephant_os.Disk.Bytes.{copy-through}
use elephant_os.Directory.{DirEntry, entry_size, entry_bytes, is_used}
use elephant_os.Directory.Search.{sector, read_sectors-sector}
use elephant_os.Directory.Update.{Dir, resized, find_free, put_entry, insert_loop, sync_dir_entry}

pub find_free-below :
    (left idx : ℕ) (buf : Mem) (k : ℕ) → find_free left idx buf ≡ some k → k < idx + left
unfolding find_free
find_free-below zero idx buf k e = absurd (ground arith)
find_free-below (suc left) idx buf k e = elim (Bool-cases (is_used buf idx)) [
  | inl used ↦
      let rest : find_free left (idx + 1) buf ≡ some k = rw used at e in
      let lt = find_free-below left (idx + 1) buf k rest in omega arith
  | inr free ↦ let here : some idx ≡ some k = rw free at e in ground arith
]

module _ (d : Dir) (p_de : DirEntry) (size : d.part.sb.dir_entry_size ≡ 24) where
  -- the directory with the entry in slot `k` of a block
  abbrev pub with_entry : ℕ → ℕ → Dir
  with_entry lba k =
      resized d (copy d.part.disk (lba * 512 + k * entry_size) (entry_bytes p_de) 24)
        (u32 (d.inode.i_size + 24))

  insert_round :
      (left idx : ℕ) (all : ℕ → ℕ) (slot : Option ℕ)
      → (all idx == 0) ≡ false
      → all idx ≤ max_lba
      → find_free 21 0 (sector d.part.disk (all idx)) ≡ slot
      → insert_loop (suc left) idx d all p_de
        ≡ put_entry d 24
            (all idx)
            (sector d.part.disk (all idx))
            p_de
            slot
            (insert_loop left (idx + 1) d all p_de)
  unfolding insert_loop
  insert_round left idx all slot block near found =
      rw (insert_loop, block, read_sectors-sector d.part.disk (all idx) near, size, found) refl

  put_entry-slot :
      (lba k : ℕ) (others : Outcome (Bool × Dir))
      → lba ≤ max_lba
      → k < 21
      → put_entry d 24 lba (sector d.part.disk lba) p_de (some k) others
        ≡ done (true, with_entry lba k)
  unfolding put_entry write_sectors
  put_entry-slot lba k others near lt =
      let fits : leb lba max_lba ≡ true = ground arith in
      rw (put_entry, fits)
        (ap (λ m. done (true, resized d m (u32 (d.inode.i_size + 24))))
          (copy-through d.part.disk (λ x. 0) (entry_bytes p_de) (lba * 512) (k * entry_size) 24 512
            (omega arith)))

  insert_loop_lem :
      (left idx b k : ℕ) (all : ℕ → ℕ)
      → idx ≤ b
      → b < idx + left
      → ((i : ℕ) → idx ≤ i → i ≤ b → ((all i == 0) ≡ false) × (all i ≤ max_lba))
      → ((i : ℕ) → idx ≤ i → i < b → find_free 21 0 (sector d.part.disk (all i)) ≡ none)
      → find_free 21 0 (sector d.part.disk (all b)) ≡ some k
      → insert_loop left idx d all p_de ≡ done (true, with_entry (all b) k)
  unfolding put_entry
  insert_loop_lem zero idx b k all le lt blocks full free = absurd (omega arith)
  insert_loop_lem (suc left) idx b k all le lt blocks full free = elim (Bool-cases (idx == b)) [
    | inl same ↦
        let at : idx ≡ b = ground arith in
        let (present, near) = blocks b le (omega arith) in
        rw at (
          insert_round left b all (some k) present near free
          ∙ put_entry-slot (all b) k (insert_loop left (b + 1) d all p_de) near
              (find_free-below 21 0 _ k free))
    | inr later ↦
        let before : idx < b = ground arith in
        let (present, near) = blocks idx (omega arith) le in
        insert_round left idx all none present near (full idx (omega arith) before)
        ∙ insert_loop_lem left (idx + 1) b k all (omega arith) (omega arith)
            (λ i lo hi. blocks i (omega arith) hi) (λ i lo hi. full i (omega arith) hi) free
  ]

sync_dir_entry-insert_loop :
    (d : Dir) (p_de : DirEntry)
    → d.part.sb.dir_entry_size ≡ 24
    → (d.inode.i_size % 24 == 0) ≡ true
    → sync_dir_entry d p_de
      ≡ insert_loop 140 0 d (λ n. if ltb n 12 then d.inode.i_sectors n else 0) p_de
unfolding sync_dir_entry
sync_dir_entry-insert_loop d p_de size aligned = rw (sync_dir_entry, size, aligned) refl

-- If an entry has 24 bytes, the size of the directory is a multiple of that, and the first of its
-- direct blocks with a free slot is block `b`, all blocks up to it being there and on the disk, then
-- `sync_dir_entry` writes the entry over the first free slot of that block and nothing else of the
-- disk, and the size of the directory grows by an entry.
pub sync_dir_entry_lem :
    (d : Dir) (p_de : DirEntry) (b k : ℕ)
    → (size : d.part.sb.dir_entry_size ≡ 24) → d.inode.i_size % 24 ≡ 0
    → b < 12
    → ((i : ℕ) → i ≤ b → ((d.inode.i_sectors i == 0) ≡ false) × (d.inode.i_sectors i ≤ max_lba))
    → ((i : ℕ) → i < b → find_free 21 0 (sector d.part.disk (d.inode.i_sectors i)) ≡ none)
    → find_free 21 0 (sector d.part.disk (d.inode.i_sectors b)) ≡ some k
    → sync_dir_entry d p_de
      ≡ done (
        true,
        resized d
            (copy d.part.disk (d.inode.i_sectors b * 512 + k * entry_size) (entry_bytes p_de) 24)
            (u32 (d.inode.i_size + 24)),
      )
sync_dir_entry_lem d p_de b k size whole few blocks full free =
    let all : ℕ → ℕ = λ n. if ltb n 12 then d.inode.i_sectors n else 0 in
    let direct : (i : ℕ) → i ≤ b → all i ≡ d.inode.i_sectors i = λ i le. ground arith in
    let aligned : (d.inode.i_size % 24 == 0) ≡ true = ground arith in
    sync_dir_entry-insert_loop d p_de size aligned
    ∙ insert_loop_lem d p_de size 140 0 b k all (omega arith) (omega arith)
        (λ i lo hi. rw (direct i hi) (blocks i hi))
        (λ i lo hi. rw (direct i (omega arith)) (full i hi)) (rw (direct b (omega arith)) free)
    ∙ ap (λ lba. done (true, with_entry d p_de size lba k)) (direct b (omega arith))
