-- ===== src/Directory/Search.antt =====
-- What `search_dir_entry` finds.
use elephant_os.Base.{
  ℕ, zero, suc, ◌+◌, ◌*◌, ◌<◌, ◌≤◌, ◌≡◌, ◌≢◌, ◌⊎◌, refl, ◌∙◌, inl, inr, Bool, true, false, Option,
  none, some, List, arith, leb, ◌==◌, Mem, Outcome, done, Bool-cases,
}
use elephant_os.Files.{Inode}
use elephant_os.Disk.{Partition, max_lba, copy, read_sectors}
use elephant_os.Directory.{
  DirEntry, entry_size, is_name, entry_from, dir_blocks, find_name, entry_or, search_loop,
  search_dir_entry,
}

-- a sector of the disk as a buffer
abbrev pub sector : Mem → ℕ → Mem
sector disk lba = copy (λ x. 0) 0 (λ x. disk (lba * 512 + x)) 512

-- entry `k` of block `b` has this name
abbrev pub has_name : Mem → (ℕ → ℕ) → List ℕ → ℕ → ℕ → Bool
has_name disk blocks name b k = is_name (sector disk (blocks b)) (k * entry_size) name

-- the blocks that are there lie on the disk
unfoldable pub BlocksOnDisk : (ℕ → ℕ) → Type 0
BlocksOnDisk blocks = (b : ℕ) → b < 140 → blocks b ≢ 0 → blocks b ≤ max_lba

pub read_sectors-sector :
    (disk : Mem) (lba : ℕ)
    → lba ≤ max_lba
    → read_sectors disk lba (λ x. 0) 1 ≡ done (sector disk lba)
unfolding read_sectors
read_sectors-sector disk lba near = let fits : leb lba max_lba ≡ true = ground arith in rw fits refl

find_name_lem :
    (left idx : ℕ) (buf : Mem) (name : List ℕ)
    → ((k : ℕ) × (find_name left idx buf name ≡ some k)
        × (k < idx + left)
        × (is_name buf (k * entry_size) name ≡ true))
      ⊎ ((find_name left idx buf name ≡ none)
          × ((k : ℕ) → idx ≤ k → k < idx + left → is_name buf (k * entry_size) name ≡ false))
unfolding find_name
find_name_lem zero idx buf name = inr (refl, λ k lo hi. absurd (omega arith))
find_name_lem (suc left) idx buf name = elim (Bool-cases (is_name buf (idx * entry_size) name)) [
  | inl hit ↦ inl (idx, rw hit refl, omega arith, hit)
  | inr miss ↦ elim (find_name_lem left (idx + 1) buf name) [
    | inl there ↦ let (k, run, lt, e) = there in inl (k, rw miss run, omega arith, e)
    | inr nowhere ↦ inr (
      rw miss nowhere.0,
      λ k lo hi. elim (Bool-cases (k == idx)) [
        | inl same ↦ let at : k ≡ idx = ground arith in rw at miss
        | inr other ↦ nowhere.1 k (ground arith) (omega arith)
      ],
    )
  ]
]

-- What a search over these blocks gives: an entry with the name, or none where there is none.
unfoldable pub Searched : Mem → (ℕ → ℕ) → ℕ → List ℕ → ℕ → ℕ → Outcome (Option DirEntry) → Type 0
Searched disk blocks cnt name first last result =
    ((b k : ℕ) × (result ≡ done (some (entry_from (sector disk (blocks b)) (k * entry_size))))
      × (first ≤ b)
      × (b < last)
      × (blocks b ≢ 0)
      × (k < cnt)
      × (has_name disk blocks name b k ≡ true))
    ⊎ ((result ≡ done none)
        × ((b k : ℕ)
            → first ≤ b
            → b < last
            → blocks b ≢ 0
            → k < cnt
            → has_name disk blocks name b k ≡ false))

search_round :
    (left idx : ℕ) (disk : Mem) (blocks : ℕ → ℕ) (cnt : ℕ) (name : List ℕ)
    → (blocks idx == 0) ≡ false
    → blocks idx ≤ max_lba
    → search_loop (suc left) idx disk blocks cnt name
      ≡ entry_or
          (sector disk (blocks idx))
          (find_name cnt 0 (sector disk (blocks idx)) name)
          (search_loop left (idx + 1) disk blocks cnt name)
unfolding search_loop
search_round left idx disk blocks cnt name block near =
    rw (search_loop, block, read_sectors-sector disk (blocks idx) near) refl

search_loop_lem :
    (left idx : ℕ) (disk : Mem) (blocks : ℕ → ℕ) (cnt : ℕ) (name : List ℕ)
    → BlocksOnDisk blocks
    → idx + left ≤ 140
    → Searched disk blocks cnt name idx (idx + left) (search_loop left idx disk blocks cnt name)
unfolding search_loop entry_or Searched BlocksOnDisk
search_loop_lem zero idx disk blocks cnt name near few =
    inr (refl, λ b k lo hi ne lt. absurd (omega arith))
search_loop_lem (suc left) idx disk blocks cnt name near few = elim (Bool-cases (blocks idx == 0)) [
  | inl empty ↦ elim (search_loop_lem left (idx + 1) disk blocks cnt name near (omega arith)) [
    | inl there ↦
        let (b, k, run, lo, hi, ne, lt, e) = there in
        inl (b, k, rw (search_loop, empty) run, omega arith, omega arith, ne, lt, e)
    | inr nowhere ↦ inr (
      rw (search_loop, empty) nowhere.0,
      λ b k lo hi ne lt. elim (Bool-cases (b == idx)) [
        | inl same ↦ absurd (ne (ground arith))
        | inr other ↦ nowhere.1 b k (ground arith) (omega arith) ne lt
      ],
    )
  ]
  | inr block ↦
      let present : blocks idx ≢ 0 = ground arith in
      let round =
        search_round left idx disk blocks cnt name block (near idx (omega arith) present) in
      elim (find_name_lem cnt 0 (sector disk (blocks idx)) name) [
        | inl hit ↦
            let (k, found, lt, e) = hit in
            inl (
              idx,
              k,
              round ∙ rw (found, entry_or) refl,
              omega arith,
              omega arith,
              present,
              omega arith,
              e,
            )
        | inr miss ↦ elim (search_loop_lem left (idx + 1) disk blocks cnt name near (omega arith)) [
          | inl there ↦
              let (b, k, run, lo, hi, ne, lt, e) = there in
              inl (b, k, round ∙ rw (miss.0, entry_or) run, omega arith, omega arith, ne, lt, e)
          | inr nowhere ↦ inr (
            round ∙ rw (miss.0, entry_or) nowhere.0,
            λ b k lo hi ne lt. elim (Bool-cases (b == idx)) [
              | inl same ↦
                  let at : b ≡ idx = ground arith in rw at (miss.1 k (omega arith) (omega arith))
              | inr other ↦ nowhere.1 b k (ground arith) (omega arith) ne lt
            ],
          )
        ]
      ]
]

-- When `sys_malloc` succeeds, the directory's blocks are collected and lie on the disk, and an entry
-- has 24 bytes, `search_dir_entry` returns an entry of one of them that has the name, or `false` if
-- there is none.
pub search_dir_entry_lem :
    (part : Partition) (inode : Inode) (all_blocks blocks : ℕ → ℕ) (name : List ℕ)
    → dir_blocks part inode all_blocks ≡ done blocks
    → BlocksOnDisk blocks
    → part.sb.dir_entry_size ≡ entry_size
    → Searched part.disk blocks 21 name 0 140 (search_dir_entry part inode (some all_blocks) name)
unfolding search_dir_entry
search_dir_entry_lem part inode all_blocks blocks name collected near size =
    rw (search_dir_entry, collected, size)
      (search_loop_lem 140 0 part.disk blocks 21 name near (omega arith))
