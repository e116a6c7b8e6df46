-- ===== src/Directory/Entries.antt =====
-- The used entries of one sector, as `dir_read` goes through them.
use elephant_os.Base.{
  ℕ, zero, suc, ◌+◌, ◌-◌, ◌*◌, ◌%◌, ◌^◌, ◌<◌, ◌≤◌, ◌≡◌, ◌⊎◌, refl, ◌∙◌, inl, inr, true, false, List,
  [], ◌∷◌, ◌++◌, length, get_or, arith, ltb, ◌==◌, if◌then◌else◌, Mem, done, Bool-cases,
}
use elephant_os.Directory.{DirEntry, entry_size, entry_from, is_used, Reading, read_entries}

-- the used entries of a sector, in order
unfoldable pub used_entries : ℕ → ℕ → Mem → List DirEntry
used_entries zero idx buf = []
used_entries (suc left) idx buf =
    let rest = used_entries left (idx + 1) buf in
    if is_used buf idx then entry_from buf (idx * entry_size) ∷ rest else rest

pub get_or-append {ℓ} :
    {A : Type ℓ} (xs ys : List A) (i : ℕ) (d : A)
    → get_or (xs ++ ys) i d
      ≡ (if ltb i (length xs) then get_or xs i d else get_or ys (i - length xs) d)
get_or-append [] ys i d = let all : i - 0 ≡ i = omega arith in rw all (ground arith)
get_or-append (x ∷ xs) ys zero d = ground arith
get_or-append (x ∷ xs) ys (suc i) d = ground (arith, get_or-append xs ys i d)

module _ (left idx : ℕ) (buf : Mem) (n c : ℕ) (used : is_used buf idx ≡ true) where
  used_entries-used :
      used_entries (suc left) idx buf
      ≡ entry_from buf (idx * entry_size) ∷ used_entries left (idx + 1) buf
  unfolding used_entries
  used_entries-used = rw (used_entries, used) refl

  read_entries-skip :
      c < n
      → 24 * n < 2 ^ 32
      → read_entries (suc left) idx buf 24 (24 * n) (24 * c)
        ≡ read_entries left (idx + 1) buf 24 (24 * n) (24 * (c + 1))
  unfolding read_entries
  read_entries-skip lt small =
      let before : ltb (24 * c) (24 * n) ≡ true = ground arith in
      let next : (24 * c + 24) % 2 ^ 32 ≡ 24 * (c + 1) = omega arith in
      rw (read_entries, used, before, next) refl

  read_entries-here :
      c ≡ n → read_entries (suc left) idx buf 24 (24 * n) (24 * c) ≡ done (Reading.found idx)
  unfolding read_entries
  read_entries-here e =
      let before : ltb (24 * c) (24 * n) ≡ false = ground arith in
      let equal : (24 * c == 24 * n) ≡ true = ground arith in
      rw (read_entries, used, before, equal) refl

-- From position `24 * c`, the loop over a sector finds the used entry number `n - c`, or reaches the
-- position behind all of them.
pub read_entries_lem :
    (left idx : ℕ) (buf : Mem) (n c : ℕ) (d : DirEntry)
    → c ≤ n
    → 24 * (n + left) < 2 ^ 32
    → ((k : ℕ) × (read_entries left idx buf 24 (24 * n) (24 * c) ≡ done (Reading.found k))
        × (n - c < length (used_entries left idx buf))
        × (entry_from buf (k * entry_size) ≡ get_or (used_entries left idx buf) (n - c) d))
      ⊎ ((read_entries left idx buf 24 (24 * n) (24 * c)
            ≡ done (Reading.reached (24 * (c + length (used_entries left idx buf)))))
          × (c + length (used_entries left idx buf) ≤ n))
unfolding read_entries used_entries
read_entries_lem zero idx buf n c d le small =
    let at : c + 0 ≡ c = omega arith in inr (rw at refl, omega arith)
read_entries_lem (suc left) idx buf n c d le small = elim (Bool-cases (is_used buf idx)) [
  | inr free ↦
      rw (read_entries, used_entries, free)
        (read_entries_lem left (idx + 1) buf n c d le (omega arith))
  | inl used ↦ elim (Bool-cases (ltb c n)) [
    | inl before ↦
        let less : c < n = ground arith in
        let skip = read_entries-skip left idx buf n c used less (omega arith) in
        let more = used_entries-used left idx buf n c used in
        let next : n - c ≡ suc (n - (c + 1)) = omega arith in
        elim (read_entries_lem left (idx + 1) buf n (c + 1) d (omega arith) (omega arith)) [
          | inl there ↦
              let (k, run, lt, e) = there in
              inl (k, skip ∙ run, rw more (omega arith), rw (more, next) e)
          | inr nowhere ↦
              let count : c + length (used_entries (suc left) idx buf)
                  ≡ c + 1 + length (used_entries left (idx + 1) buf) =
                rw more (omega arith) in
              inr (rw count (skip ∙ nowhere.0), rw count nowhere.1)
        ]
    | inr here ↦
        let same : c ≡ n = ground arith in
        let more = used_entries-used left idx buf n c used in
        let first : n - c ≡ 0 = omega arith in
        inl (
          idx,
          read_entries-here left idx buf n c used same,
          rw (more, first) (omega arith),
          rw (more, first) refl,
        )
  ]
]
