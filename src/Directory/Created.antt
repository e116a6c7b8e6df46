-- ===== src/Directory/Created.antt =====
-- An entry that was stored is found.
use elephant_os.Base.{
  ℕ, ◌+◌, ◌-◌, ◌*◌, ◌%◌, ◌^◌, ◌<◌, ◌≤◌, ◌≡◌, ◌≢◌, refl, ◌∙◌, sym, ap, inl, inr, true, false, Option,
  none, some, List, [], ◌∷◌, length, arith, ltb, ◌==◌, ◌&&◌, if◌then◌else◌, u32, Mem, Outcome, done,
  Bool-cases,
}
use elephant_os.Disk.{max_lba, copy, word_at, bytes_of}
use elephant_os.Disk.Bytes.{copy-inside, copy-start, word_at-same, word_at-bytes_of}
use elephant_os.Directory.{
  DirEntry, entry_size, entry_bytes, entry_from, is_name, dir_blocks, search_dir_entry,
}
use elephant_os.Directory.Search.{sector, has_name, BlocksOnDisk, Searched, search_dir_entry_lem}
use elephant_os.Directory.Insert.{find_free-below, sync_dir_entry_lem}
use elephant_os.Directory.Update.{Dir, resized, find_free, sync_dir_entry}

is_name-same :
    (m m' : Mem) (a a' : ℕ) (name : List ℕ)
    → ((x : ℕ) → x ≤ length name → m (a + x) ≡ m' (a' + x))
    → is_name m a name ≡ is_name m' a' name
unfolding is_name
is_name-same m m' a a' [] same =
    let e : m a ≡ m' a' = ap m (omega arith) ∙ same 0 (omega arith) ∙ ap m' (omega arith) in
    rw e refl
is_name-same m m' a a' (c ∷ name) same =
    let e : m a ≡ m' a' = ap m (omega arith) ∙ same 0 (omega arith) ∙ ap m' (omega arith) in
    rw
      (
        e,
        is_name-same m m' (a + 1) (a' + 1) name
            (λ x le. ap m (omega arith) ∙ same (x + 1) (omega arith) ∙ ap m' (omega arith)),
      )
      refl

-- A directory without a table of indirect blocks, whose blocks lie on the disk; slot `k` of block `b`
-- is the first free one.
pub record HasSlot (d : Dir) (b k : ℕ) : Type 0 where
  pub size : d.part.sb.dir_entry_size ≡ 24
  pub whole : d.inode.i_size % 24 ≡ 0
  pub direct : b < 12
  pub no_table : d.inode.i_sectors 12 ≡ 0
  pub on_disk : (i : ℕ) → i < 12 → d.inode.i_sectors i ≤ max_lba
  pub present : (i : ℕ) → i ≤ b → (d.inode.i_sectors i == 0) ≡ false
  pub full : (i : ℕ) → i < b → find_free 21 0 (sector d.part.disk (d.inode.i_sectors i)) ≡ none
  pub free : find_free 21 0 (sector d.part.disk (d.inode.i_sectors b)) ≡ some k

-- no entry of a direct block has the name
abbrev pub IsNew : Dir → List ℕ → Type 0
IsNew d name =
    (i j : ℕ)
    → i < 12
    → d.inode.i_sectors i ≢ 0
    → j < 21
    → has_name d.part.disk d.inode.i_sectors name i j ≡ false

-- the entry has the name, which is shorter than its field, and its words have 32 bits
pub record IsEntry (e : DirEntry) (name : List ℕ) : Type 0 where
  pub named : is_name e.filename 0 name ≡ true
  pub short : length name < 16
  pub no_small : e.i_no < 2 ^ 32
  pub type_small : e.f_type < 2 ^ 32

module _ (disk : Mem) (lba k : ℕ) (e : DirEntry) (lt : k < 21) where
  written : Mem
  written = copy disk (lba * 512 + k * 24) (entry_bytes e) 24

  written-here : (x : ℕ) → x < 24 → sector written lba (k * 24 + x) ≡ entry_bytes e x
  unfolding written
  written-here x lt' =
      copy-start (λ x. 0) (λ x. written (lba * 512 + x)) 512 (k * 24 + x) (omega arith)
      ∙ copy-inside disk (entry_bytes e) (lba * 512 + k * 24) 24 _ (omega arith) (omega arith)
      ∙ ap (entry_bytes e) (omega arith)

  written-other :
      (l j x : ℕ)
      → j < 21
      → x < 24
      → ((l == lba) && (j == k)) ≡ false
      → sector written l (j * 24 + x) ≡ sector disk l (j * 24 + x)
  unfolding copy written
  written-other l j x lt' lt'' other = ground arith

  name_byte : (x : ℕ) → x < 16 → entry_bytes e x ≡ e.filename (0 + x)
  unfolding entry_bytes
  name_byte x lt' = let low : ltb x 16 ≡ true = ground arith in rw low (ap e.filename (omega arith))

  abbrev words : ℕ → ℕ
  words n = if n == 0 then e.i_no else e.f_type

  number_byte : (x : ℕ) → entry_bytes e (16 + x) ≡ bytes_of words x
  unfolding entry_bytes
  number_byte x =
      let high : ltb (16 + x) 16 ≡ false = ground arith in
      let at : 16 + x - 16 ≡ x = omega arith in rw (high, at) refl

  name-here : (name : List ℕ) → IsEntry e name → is_name (sector written lba) (k * 24) name ≡ true
  name-here name i =
      is_name-same (sector written lba) e.filename (k * 24) 0 name
        (λ x le. written-here x (omega (arith, i.short)) ∙ name_byte x (omega (arith, i.short)))
      ∙ i.named

  entry-here :
      (name : List ℕ)
      → IsEntry e name
      → ((entry_from (sector written lba) (k * 24)).i_no ≡ e.i_no)
        × ((entry_from (sector written lba) (k * 24)).f_type ≡ e.f_type)
  unfolding entry_from
  entry-here name i =
      let word : (o n : ℕ)
          → words n < 2 ^ 32
          → o ≡ 16 + 4 * n
          → n < 2
          → word_at (sector written lba) (k * 24 + o) ≡ words n =
        λ n0 n small at le.
          word_at-same (sector written lba) (bytes_of words) (k * 24 + n0) (4 * n) (λ x lt'.
            ap (sector written lba) (omega arith)
            ∙ written-here (16 + (4 * n + x)) (omega arith)
            ∙ number_byte (4 * n + x))
          ∙ word_at-bytes_of words n small in
      (word 16 0 i.no_small refl (omega arith), word 20 1 i.type_small refl (omega arith))

-- what a search of the directory's blocks after the write gives
module _ (d : Dir) (e : DirEntry) (b k : ℕ) (name : List ℕ) where
  abbrev blocks : ℕ → ℕ
  blocks n = if ltb n 12 then d.inode.i_sectors n else 0

  direct_block : (n : ℕ) → blocks n ≢ 0 → (n < 12) × (blocks n ≡ d.inode.i_sectors n)
  direct_block n ne = ground arith

  search_written :
      (r : Outcome (Option DirEntry))
      → HasSlot d b k
      → IsNew d name
      → IsEntry e name
      → (lt : k < 21)
      → Searched (written d.part.disk (d.inode.i_sectors b) k e lt) blocks 21 name 0 140 r
      → (g : DirEntry) × (r ≡ done (some g)) × (g.i_no ≡ e.i_no) × (g.f_type ≡ e.f_type)
  unfolding Searched
  search_written r h new i lt (inl there) =
      let (b', k', run, lo, hi, ne, lt', hit) = there in
      let (low, at) = direct_block b' ne in
      let m = written d.part.disk (d.inode.i_sectors b) k e lt in
      elim (Bool-cases ((d.inode.i_sectors b' == d.inode.i_sectors b) && (k' == k))) [
        | inl same ↦
            let block : blocks b' ≡ d.inode.i_sectors b = at ∙ ground arith in
            let slot : k' ≡ k = ground arith in
            let stored = entry-here d.part.disk (d.inode.i_sectors b) k e lt name i in
            (
              entry_from (sector m (d.inode.i_sectors b)) (k * entry_size),
              run ∙ rw (block, slot) refl,
              stored.0,
              stored.1,
            )
        | inr other ↦
            let was : has_name d.part.disk d.inode.i_sectors name b' k' ≡ true =
              sym (
                is_name-same (sector m (d.inode.i_sectors b'))
                  (sector d.part.disk (d.inode.i_sectors b')) (k' * 24) (k' * 24) name
                  (λ x le.
                    written-other d.part.disk (d.inode.i_sectors b) k e lt (d.inode.i_sectors b') k'
                      x lt' (omega (arith, i.short)) other))
              ∙ rw (sym at) hit in
            let never = new b' k' low (λ z. ne (at ∙ z)) lt' in absurd (ground (arith, was, never))
      ]
  search_written r h new i lt (inr nowhere) =
      let there : blocks b ≢ 0 = let p = h.present b (omega arith) in ground (arith, h.direct, p) in
      let (low, at) = direct_block b there in
      let here = name-here d.part.disk (d.inode.i_sectors b) k e lt name i in
      let never = nowhere.1 b k (omega arith) (omega arith) there lt in
      let never' : is_name
            (sector (written d.part.disk (d.inode.i_sectors b) k e lt) (d.inode.i_sectors b))
            (k * 24) name
          ≡ false =
        sym (
          ap
            (λ l.
              is_name (sector (written d.part.disk (d.inode.i_sectors b) k e lt) l) (k * 24) name)
            at)
        ∙ never in
      absurd (ground (arith, here, never'))

-- In a directory without a table of indirect blocks, with entries of 24 bytes and a size that is a
-- multiple of that, let a slot of a direct block be free, let all slots and blocks before it be
-- there and taken, and let the direct blocks lie on the disk and hold no entry of the name. For an
-- entry of that name, which is shorter than 16 characters, with a number and a type of 32 bits,
-- `sync_dir_entry` succeeds, and `search_dir_entry` for the name afterwards, if its `sys_malloc` call
-- succeeds, finds the number and the type that were stored.
pub search_dir_entry-sync_dir_entry :
    (d : Dir) (e : DirEntry) (b k : ℕ) (name : List ℕ)
    → HasSlot d b k
    → IsNew d name
    → IsEntry e name
    → (d' : Dir) × (g : DirEntry) × (sync_dir_entry d e ≡ done (true, d'))
      × (search_dir_entry d'.part d'.inode (some (λ n. 0)) name ≡ done (some g))
      × (g.i_no ≡ e.i_no)
      × (g.f_type ≡ e.f_type)
unfolding written dir_blocks BlocksOnDisk
search_dir_entry-sync_dir_entry d e b k name h new i =
    let lt = find_free-below 21 0 _ k h.free in
    let m = written d.part.disk (d.inode.i_sectors b) k e lt in
    let d' = resized d m (u32 (d.inode.i_size + 24)) in
    let run : sync_dir_entry d e ≡ done (true, d') =
      sync_dir_entry_lem d e b k h.size h.whole h.direct
        (λ j le. (h.present j le, h.on_disk j (omega (arith, h.direct)))) h.full h.free in
    let direct : (d.inode.i_sectors 12 == 0) ≡ true = let z = h.no_table in ground (arith, z) in
    let collected : dir_blocks d'.part d'.inode (λ n. 0) ≡ done (blocks d e b k name) =
      rw (dir_blocks, direct) refl in
    let near : BlocksOnDisk (blocks d e b k name) =
      λ n lt' ne. let (low, at) = direct_block d e b k name n ne in rw at (h.on_disk n low) in
    let found =
      search_written d e b k name (search_dir_entry d'.part d'.inode (some (λ n. 0)) name) h new i
        lt
        (search_dir_entry_lem d'.part d'.inode (λ n. 0) (blocks d e b k name) name collected near
          h.size) in
    (d', found.0, run, found.1, found.2, found.3)
