-- ===== src/Directory/Listing.antt =====
-- The entries that `dir_read` goes through, one call after the other.
use elephant_os.Base.{
  ℕ, zero, suc, ◌+◌, ◌-◌, ◌*◌, ◌%◌, ◌^◌, ◌<◌, ◌≤◌, ◌≡◌, refl, ◌∙◌, sym, ap, inl, inr, true, false,
  Option, none, some, List, [], ◌++◌, length, get_or, length-append, arith, ltb, leb, ◌==◌,
  if◌then◌else◌, Mem, Outcome, done, Bool-cases,
}
use elephant_os.Files.{Inode}
use elephant_os.Disk.{Partition, max_lba}
use elephant_os.Directory.{
  DirEntry, dir_blocks, Reading, read_entries, after_sector, read_dir_loop, dir_read,
}
use elephant_os.Directory.Search.{sector, BlocksOnDisk, read_sectors-sector}
use elephant_os.Directory.Entries.{used_entries, get_or-append, read_entries_lem}

-- the used entries of the blocks, in order
unfoldable pub listing : ℕ → ℕ → Mem → (ℕ → ℕ) → List DirEntry
listing zero idx disk blocks = []
listing (suc left) idx disk blocks =
    let rest = listing left (idx + 1) disk blocks in
    if blocks idx == 0 then rest else used_entries 21 0 (sector disk (blocks idx)) ++ rest

module _ (part : Partition) (inode : Inode) (blocks : ℕ → ℕ) (n : ℕ) (d : DirEntry)
    (near : BlocksOnDisk blocks) (size : part.sb.dir_entry_size ≡ 24) (more : 24 * n < inode.i_size)
    (small : n < 2 ^ 24) where
  -- entry number `i` and the next position, or the end
  unfoldable answer : List DirEntry → ℕ → Outcome (Option DirEntry × ℕ)
  answer entries i =
      done (
        if ltb i (length entries)
        then (some (get_or entries i d), 24 * (n + 1))
        else (none, 24 * n))

  answer-here :
      (xs ys : List DirEntry) (i : ℕ)
      → i < length xs
      → answer (xs ++ ys) i ≡ done (some (get_or xs i d), 24 * (n + 1))
  unfolding answer
  answer-here xs ys i lt =
      let inside : ltb i (length (xs ++ ys)) ≡ true = ground (arith, length-append xs ys) in
      let first : ltb i (length xs) ≡ true = ground arith in
      rw (inside, get_or-append xs ys i d, first) refl

  answer-others :
      (xs ys : List DirEntry) (i : ℕ)
      → length xs ≤ i
      → answer (xs ++ ys) i ≡ answer ys (i - length xs)
  unfolding answer
  answer-others xs ys i le =
      let same : ltb i (length (xs ++ ys)) ≡ ltb (i - length xs) (length ys) =
        ground (arith, length-append xs ys) in
      let first : ltb i (length xs) ≡ false = ground arith in
      rw (same, get_or-append xs ys i d, first) refl

  listing-block :
      (left idx : ℕ)
      → (blocks idx == 0) ≡ false
      → listing (suc left) idx part.disk blocks
        ≡ used_entries 21 0 (sector part.disk (blocks idx))
          ++ listing left (idx + 1) part.disk blocks
  unfolding listing
  listing-block left idx block = rw (listing, block) refl

  read_dir_round :
      (left idx c : ℕ) (r : Reading)
      → (blocks idx == 0) ≡ false
      → blocks idx ≤ max_lba
      → read_entries 21 0 (sector part.disk (blocks idx)) 24 (24 * n) (24 * c) ≡ done r
      → read_dir_loop (suc left) idx part inode blocks (24 * n) (24 * c)
        ≡ after_sector
            (sector part.disk (blocks idx))
            24
            (24 * n)
            r
            (λ cur. read_dir_loop left (idx + 1) part inode blocks (24 * n) cur)
  unfolding read_dir_loop
  read_dir_round left idx c r block fits run =
      let open_end : leb inode.i_size (24 * n) ≡ false = ground arith in
      rw
        (read_dir_loop, open_end, block, read_sectors-sector part.disk (blocks idx) fits, size, run)
        refl

  read_dir_loop_lem :
      (left idx c : ℕ)
      → c ≤ n
      → idx + left ≤ 140
      → read_dir_loop left idx part inode blocks (24 * n) (24 * c)
        ≡ answer (listing left idx part.disk blocks) (n - c)
  unfolding read_dir_loop listing after_sector answer BlocksOnDisk
  read_dir_loop_lem zero idx c le few = ground arith
  read_dir_loop_lem (suc left) idx c le few = elim (Bool-cases (blocks idx == 0)) [
    | inl empty ↦
        let open_end : leb inode.i_size (24 * n) ≡ false = ground arith in
        rw (read_dir_loop, open_end, empty, listing)
          (read_dir_loop_lem left (idx + 1) c le (omega arith))
    | inr block ↦
        let fits = near idx (omega arith) (ground arith) in
        let here = used_entries 21 0 (sector part.disk (blocks idx)) in
        let others = listing left (idx + 1) part.disk blocks in
        elim (read_entries_lem 21 0 (sector part.disk (blocks idx)) n c d le (omega arith)) [
          | inl there ↦
              let (k, run, lt, e) = there in
              let next : (24 * n + 24) % 2 ^ 32 ≡ 24 * (n + 1) = omega arith in
              read_dir_round left idx c (Reading.found k) block fits run
              ∙ rw (next, e) refl
              ∙ sym (answer-here here others (n - c) lt)
              ∙ ap (λ l. answer l (n - c)) (sym (listing-block left idx block))
          | inr nowhere ↦
              let (run, le') = nowhere in
              let shift : n - c - length here ≡ n - (c + length here) = omega arith in
              read_dir_round left idx c (Reading.reached (24 * (c + length here))) block fits run
              ∙ read_dir_loop_lem left (idx + 1) (c + length here) le' (omega arith)
              ∙ ap (answer others) (sym shift)
              ∙ sym (answer-others here others (n - c) (omega arith))
              ∙ ap (λ l. answer l (n - c)) (sym (listing-block left idx block))
        ]
  ]

read_dir_over :
    (left idx : ℕ) (part : Partition) (inode : Inode) (blocks : ℕ → ℕ) (dir_pos cur : ℕ)
    → 0 < left
    → inode.i_size ≤ dir_pos
    → read_dir_loop left idx part inode blocks dir_pos cur ≡ done (none, dir_pos)
unfolding read_dir_loop
read_dir_over zero idx part inode blocks dir_pos cur pos le = absurd (omega arith)
read_dir_over (suc left) idx part inode blocks dir_pos cur pos le =
    let over : leb inode.i_size dir_pos ≡ true = ground arith in rw (read_dir_loop, over) refl

-- how many blocks `dir_read` looks at
abbrev pub block_cnt : Inode → ℕ
block_cnt inode = if inode.i_sectors 12 == 0 then 12 else 140

-- If the directory's blocks are collected and lie on the disk, an entry has 24 bytes, and the size
-- of the directory is that of its used entries, then a call of `dir_read` at the position of entry
-- number `n` returns that entry and moves to the next position; behind the last entry it returns
-- `NULL`. Repeated calls from position 0 thus list the used entries in order.
pub dir_read_lem :
    (part : Partition) (inode : Inode) (blocks : ℕ → ℕ) (n : ℕ) (d : DirEntry)
    → dir_blocks part inode (λ b. 0) ≡ done blocks
    → BlocksOnDisk blocks
    → part.sb.dir_entry_size ≡ 24
    → n < 2 ^ 24
    → inode.i_size ≡ 24 * length (listing (block_cnt inode) 0 part.disk blocks)
    → dir_read part inode (24 * n)
      ≡ done (
          if ltb n (length (listing (block_cnt inode) 0 part.disk blocks))
          then (some (get_or (listing (block_cnt inode) 0 part.disk blocks) n d), 24 * (n + 1))
          else (none, 24 * n))
unfolding dir_read answer
dir_read_lem part inode blocks n d collected near size small whole =
    let entries = listing (block_cnt inode) 0 part.disk blocks in
    elim (Bool-cases (ltb n (length entries))) [
      | inl inside ↦
          let more : 24 * n < inode.i_size = ground arith in
          let few : 0 + block_cnt inode ≤ 140 = ground arith in
          let all : n - 0 ≡ n = omega arith in
          rw (dir_read, collected)
            (read_dir_loop_lem part inode blocks n d near size more small (block_cnt inode) 0 0
                (omega arith) few
              ∙ ap (answer part inode blocks n d near size more small entries) all)
      | inr behind ↦
          rw (dir_read, collected, behind)
            (read_dir_over (block_cnt inode) 0 part inode blocks (24 * n) 0 (ground arith)
              (ground arith))
    ]
