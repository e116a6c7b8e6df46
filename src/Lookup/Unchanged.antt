-- ===== src/Lookup/Unchanged.antt =====
-- The search for a path does not change the disk or the bitmaps.
use mathlib.Core.Path.{subst}
use elephant_os.Base.{
  ℕ, zero, suc, ◌≡◌, refl, ◌∙◌, inl, inr, Option, none, some, List, [], ◌∷◌, ◌++◌, ◌==◌, ◌⊎◌, ltb,
  length, get_or, ◌&&◌, Bool-cases,
}
use elephant_os.Base.Flow.{Flow, returns, halts, endless, lift}
use elephant_os.Files.{slash, path_parse}
use elephant_os.Disk.{Partition}
use elephant_os.Directory.{search_dir_entry}
use elephant_os.Opening.{inode_open}
use elephant_os.Lookup.{
  Fs, OpenDir, Found, PathSearchRecord, open_inode, dir_open, dir_close, end_search, walk_loop,
  search_file, next_name, is_root_path,
}

-- what holds of the result, where there is one
abbrev pub Returning : {A : Type 0} → (A → Type 0) → Flow A → Type 0
Returning P (returns a) = P a
Returning P halts = Unit
Returning P endless = Unit

pub Flow-cases :
    {A : Type 0} (x : Flow A) → ((a : A) × (x ≡ returns a)) ⊎ ((x ≡ halts) ⊎ (x ≡ endless))
Flow-cases (returns a) = inl (a, refl)
Flow-cases halts = inr (inl refl)
Flow-cases endless = inr (inr refl)

pub Returning-at :
    {A : Type 0} (P : A → Type 0) (x : Flow A) (a : A) → Returning P x → x ≡ returns a → P a
Returning-at P x a h e = subst (Returning P) e h

abbrev KeepsPart : Partition → Found → Type 0
KeepsPart p f = f.fs.part ≡ p

open_inode-part : (fs : Fs) (n : ℕ) → Returning (λ r. r.1.part ≡ fs.part) (open_inode fs n)
unfolding open_inode
open_inode-part fs n =
    elim (Flow-cases (lift (inode_open fs.part fs.files n (fs.malloc fs.allocs) (λ x. 0)))) [
      | inl (a, e) ↦ rw e refl
      | inr (inl e) ↦ rw e tt
      | inr (inr e) ↦ rw e tt
    ]

pub dir_open-part : (fs : Fs) (n : ℕ) → Returning (λ r. r.1.part ≡ fs.part) (dir_open fs n)
unfolding dir_open
dir_open-part fs n = elim (Flow-cases (open_inode fs n)) [
  | inl (a, e) ↦ rw e (Returning-at (λ r. r.1.part ≡ fs.part) _ a (open_inode-part fs n) e)
  | inr (inl e) ↦ rw e tt
  | inr (inr e) ↦ rw e tt
]

pub dir_close-part : (fs : Fs) (d : OpenDir) → (dir_close fs d).part ≡ fs.part
unfolding dir_close
dir_close-part fs d = elim (Bool-cases d.is_root) [ inl e ↦ rw e refl | inr e ↦ rw e refl ]

-- opening the next directory behind closing one
reopen-part :
    (fs : Fs) (d : OpenDir) (n : ℕ) (r : OpenDir × Fs)
    → dir_open (dir_close fs d) n ≡ returns r
    → r.1.part ≡ fs.part
reopen-part fs d n r e =
    Returning-at (λ r. r.1.part ≡ (dir_close fs d).part) _ r (dir_open-part (dir_close fs d) n) e
    ∙ dir_close-part fs d

end_search-part :
    (fs : Fs) (s : PathSearchRecord) (parent_no inode_no : ℕ)
    → Returning (KeepsPart fs.part) (end_search fs s parent_no inode_no)
unfolding end_search
end_search-part fs s parent_no inode_no =
    elim (Flow-cases (dir_open (dir_close fs s.parent_dir) parent_no)) [
      | inl (r, e) ↦ rw e (reopen-part fs s.parent_dir parent_no r e)
      | inr (inl e) ↦ rw e tt
      | inr (inr e) ↦ rw e tt
    ]

widen :
    {p q : Partition} (x : Flow Found)
    → p ≡ q
    → Returning (KeepsPart p) x
    → Returning (KeepsPart q) x
widen x e h = subst (λ q. Returning (KeepsPart q) x) e h

walk_loop-part :
    (fuel : ℕ) (fs : Fs) (s : PathSearchRecord) (parent_no inode_no : ℕ)
    (p : List ℕ × Option (List ℕ))
    → Returning (KeepsPart fs.part) (walk_loop fuel fs s parent_no inode_no p)
unfolding walk_loop
walk_loop-part zero fs s parent_no inode_no p = tt
walk_loop-part (suc fuel) fs s parent_no inode_no ([], p) = end_search-part fs s parent_no inode_no
walk_loop-part (suc fuel) fs s parent_no inode_no (c ∷ name, p) =
    elim (Bool-cases (ltb (length s.searched_path) 512)) [
      | inr long ↦ rw (walk_loop, long) tt
      | inl short ↦
          elim (Flow-cases (
            lift (
              search_dir_entry fs.part (fs.files.inodes s.parent_dir.inode) (some (λ n. 0))
                (c ∷ name)))) [
                  | inr (inl e) ↦ rw (walk_loop, short, e) tt
                  | inr (inr e) ↦ rw (walk_loop, short, e) tt
                  | inl (none, e) ↦ rw (walk_loop, short, e) refl
                  | inl (some dir_e, e) ↦ elim (Bool-cases (dir_e.f_type == 2)) [
                    | inl dir ↦
                        elim (Flow-cases (dir_open (dir_close fs s.parent_dir) dir_e.i_no)) [
                          | inr (inl o) ↦ rw (walk_loop, short, e, dir, o) tt
                          | inr (inr o) ↦ rw (walk_loop, short, e, dir, o) tt
                          | inl (r, o) ↦
                              rw (walk_loop, short, e, dir, o)
                                (widen
                                  (walk_loop fuel r.1
                                    (record s {
                                      searched_path = s.searched_path ++ (slash ∷ c ∷ name);
                                      parent_dir = r.0;
                                    })
                                    (fs.files.inodes s.parent_dir.inode).i_no dir_e.i_no
                                    (next_name p))
                                  (reopen-part fs s.parent_dir dir_e.i_no r o)
                                  (walk_loop-part fuel r.1
                                    (record s {
                                      searched_path = s.searched_path ++ (slash ∷ c ∷ name);
                                      parent_dir = r.0;
                                    })
                                    (fs.files.inodes s.parent_dir.inode).i_no dir_e.i_no
                                    (next_name p)))
                        ]
                    | inr other ↦ elim (Bool-cases (dir_e.f_type == 1)) [
                      | inl file ↦ rw (walk_loop, short, e, other, file) refl
                      | inr unknown ↦
                          rw (walk_loop, short, e, other, unknown)
                            (walk_loop-part fuel fs _ parent_no dir_e.i_no (next_name p))
                    ]
                  ]
                ]
    ]

pub search_file-part :
    (fs : Fs) (path : List ℕ) (f : Found) → search_file fs path ≡ returns f → f.fs.part ≡ fs.part
unfolding search_file
search_file-part fs path f run =
    Returning-at (KeepsPart fs.part) _ f
      (elim (Bool-cases (is_root_path path)) [
        | inl root ↦ rw (search_file, root) refl
        | inr other ↦
            elim (Bool-cases
              ((get_or path 0 0 == slash) && ltb 1 (length path) && ltb (length path) 512)) [
                | inl good ↦
                    rw (search_file, other, good) (walk_loop-part _ fs _ 0 0 (path_parse path))
                | inr bad ↦ rw (search_file, other, bad) tt
              ]
      ])
      run
