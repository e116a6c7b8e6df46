-- ===== src/PathCalls/Errors.antt =====
-- Deleting a file or a directory that may not be deleted.
use mathlib.Core.Path.{subst}
use elephant_os.Base.{
  ℕ, zero, suc, ◌+◌, ◌<◌, ◌≤◌, ◌≡◌, ◌≢◌, refl, ◌∙◌, arith, ◌⊎◌, inl, inr, Bool, true, false, some,
  List, ◌==◌, ltb, length, Bool-cases, Option-cases, ==_self, ==_of_ne,
}
use elephant_os.Base.Flow.{Flow, returns}
use elephant_os.Files.{Files, max_file_open}
use elephant_os.Disk.{Partition}
use elephant_os.Directory.{dir_is_empty}
use elephant_os.Lookup.{Fs, OpenDir, Found, dir_open, dir_close, search_file, ft_directory}
use elephant_os.Lookup.Unchanged.{
  Returning, Returning-at, Flow-cases, dir_open-part, dir_close-part, search_file-part,
}
use elephant_os.PathCalls.{
  in_use_loop, remove_file, unlink_found, sys_unlink, dir_remove, rmdir_found, sys_rmdir,
  only_first,
}

-- the file with this inode number is in the table of files
pub record IsOpen (s : Files) (inode_no : ℕ) : Type 0 where
  pub slot : ℕ
  pub in_table : slot < max_file_open
  pub used : (s.file_table slot).fd_inode ≢ 0
  pub numbered : (s.inodes (s.file_table slot).fd_inode).i_no ≡ inode_no

in_use_loop-IsOpen :
    (s : Files) (inode_no file_idx left : ℕ)
    → (o : IsOpen s inode_no) → file_idx ≤ o.slot
    → o.slot < file_idx + left
    → in_use_loop s inode_no file_idx left ≡ true
unfolding in_use_loop
in_use_loop-IsOpen s n idx zero o lo hi = absurd (omega arith)
in_use_loop-IsOpen s n idx (suc left) o lo hi = elim (Bool-cases (idx == o.slot)) [
  | inl here ↦
      let at : idx ≡ o.slot = ground arith in
      let some_file : ((s.file_table idx).fd_inode == 0) ≡ false = rw at (==_of_ne _ _ o.used) in
      let same : (n == (s.inodes (s.file_table idx).fd_inode).i_no) ≡ true =
        rw (at, o.numbered) (==_self n) in
      rw (some_file, same) refl
  | inr later ↦ ground (arith, in_use_loop-IsOpen s n (idx + 1) left o)
]

-- what is kept where a call fails
abbrev pub Failing : Partition → Bool × Fs → Type 0
Failing p (true, fs) = Unit
Failing p (false, fs) = fs.part ≡ p

unlink_found-in_use :
    (f : Found) (inode_no fuel : ℕ)
    → IsOpen f.fs.files inode_no
    → unlink_found f inode_no fuel ≡ returns (false, dir_close f.fs f.searched.parent_dir)
unfolding unlink_found
unlink_found-in_use f n fuel o = elim (Bool-cases (f.searched.file_type == ft_directory)) [
  | inl dir ↦ rw (unlink_found, dir) refl
  | inr other ↦
      rw (unlink_found, other, in_use_loop-IsOpen f.fs.files n 0 32 o (omega arith) o.in_table) refl
]

-- A file that is open, in this or in another task, is not deleted: `sys_unlink` returns -1, and the
-- disk and the bitmaps stay as they are.
pub sys_unlink_in_use :
    (fs : Fs) (path : List ℕ) (fuel inode_no : ℕ) (f : Found)
    → length path < 512
    → search_file fs path ≡ returns f
    → f.inode_no ≡ some inode_no
    → inode_no ≢ 0
    → IsOpen f.fs.files inode_no
    → (fs' : Fs) × (sys_unlink fs path fuel ≡ returns (false, fs')) × (fs'.part ≡ fs.part)
unfolding sys_unlink
sys_unlink_in_use fs path fuel n f short search found not_root o =
    let fits : ltb (length path) 512 ≡ true = ground arith in
    (
      dir_close f.fs f.searched.parent_dir,
      rw (sys_unlink, fits, search, found, ==_of_ne _ _ not_root) (unlink_found-in_use f n fuel o),
      dir_close-part f.fs f.searched.parent_dir ∙ search_file-part fs path f search,
    )

unlink_found-Failing :
    (f : Found) (inode_no fuel : ℕ) → Returning (Failing f.fs.part) (unlink_found f inode_no fuel)
unfolding unlink_found
unlink_found-Failing f n fuel =
    let d = f.searched.parent_dir in
    elim (Bool-cases (f.searched.file_type == ft_directory)) [
      | inl dir ↦ rw (unlink_found, dir) (dir_close-part f.fs d)
      | inr other ↦ elim (Bool-cases (in_use_loop f.fs.files n 0 max_file_open)) [
        | inl used ↦ rw (unlink_found, other, used) (dir_close-part f.fs d)
        | inr unused ↦ elim (Bool-cases (f.fs.malloc f.fs.allocs == 0)) [
          | inl null ↦ rw (unlink_found, other, unused, null) (dir_close-part _ d)
          | inr memory ↦
              elim (Flow-cases (remove_file (record f.fs { allocs = f.fs.allocs + 1 }) d n fuel)) [
                | inl (fs', e) ↦ rw (unlink_found, other, unused, memory, e) tt
                | inr (inl e) ↦ rw (unlink_found, other, unused, memory, e) tt
                | inr (inr e) ↦ rw (unlink_found, other, unused, memory, e) tt
              ]
        ]
      ]
    ]

widen :
    {p q : Partition} (x : Flow (Bool × Fs))
    → p ≡ q
    → Returning (Failing p) x
    → Returning (Failing q) x
widen x e h = subst (λ q. Returning (Failing q) x) e h

sys_unlink-Failing :
    (fs : Fs) (path : List ℕ) (fuel : ℕ) → Returning (Failing fs.part) (sys_unlink fs path fuel)
unfolding sys_unlink
sys_unlink-Failing fs path fuel = elim (Bool-cases (ltb (length path) 512)) [
  | inr long ↦ rw (sys_unlink, long) tt
  | inl short ↦ elim (Flow-cases (search_file fs path)) [
    | inr (inl e) ↦ rw (sys_unlink, short, e) tt
    | inr (inr e) ↦ rw (sys_unlink, short, e) tt
    | inl (f, e) ↦
        let same : f.fs.part ≡ fs.part = search_file-part fs path f e in
        elim (Option-cases f.inode_no) [
          | inl missing ↦
              rw (sys_unlink, short, e, missing) (dir_close-part f.fs f.searched.parent_dir ∙ same)
          | inr (n, found) ↦ elim (Bool-cases (n == 0)) [
            | inl root ↦ rw (sys_unlink, short, e, found, root) tt
            | inr other ↦
                rw (sys_unlink, short, e, found, other)
                  (widen (unlink_found f n fuel) same (unlink_found-Failing f n fuel))
          ]
        ]
  ]
]

dir_remove-Failing :
    (fs : Fs) (parent child : OpenDir) (fuel : ℕ)
    → Returning (Failing fs.part) (dir_remove fs parent child fuel)
unfolding dir_remove
dir_remove-Failing fs parent child fuel =
    let inode = fs.files.inodes child.inode in
    elim (Bool-cases (only_first inode 1 12)) [
      | inr more ↦ rw (dir_remove, more) tt
      | inl one ↦ elim (Bool-cases (fs.malloc fs.allocs == 0)) [
        | inl null ↦ rw (dir_remove, one, null) refl
        | inr memory ↦
            elim (Flow-cases
              (remove_file (record fs { allocs = fs.allocs + 1 }) parent inode.i_no fuel)) [
                | inl (fs', e) ↦ rw (dir_remove, one, memory, e) tt
                | inr (inl e) ↦ rw (dir_remove, one, memory, e) tt
                | inr (inr e) ↦ rw (dir_remove, one, memory, e) tt
              ]
      ]
    ]

-- the two closings behind a removal
closed-Failing :
    (p : Partition) (r : Bool × Fs) (d e : OpenDir)
    → Failing p r
    → Failing p (r.0, dir_close (dir_close r.1 d) e)
closed-Failing p (true, fs) d e h = tt
closed-Failing p (false, fs) d e h = dir_close-part (dir_close fs d) e ∙ dir_close-part fs d ∙ h

rmdir_found-Failing :
    (f : Found) (inode_no fuel : ℕ) → Returning (Failing f.fs.part) (rmdir_found f inode_no fuel)
unfolding rmdir_found
rmdir_found-Failing f n fuel =
    let parent = f.searched.parent_dir in
    elim (Bool-cases (f.searched.file_type == 1)) [
      | inl file ↦ rw (rmdir_found, file) (dir_close-part f.fs parent)
      | inr other ↦ elim (Flow-cases (dir_open f.fs n)) [
        | inr (inl e) ↦ rw (rmdir_found, other, e) tt
        | inr (inr e) ↦ rw (rmdir_found, other, e) tt
        | inl (d, e) ↦
            let same : d.1.part ≡ f.fs.part =
              Returning-at (λ r. r.1.part ≡ f.fs.part) _ d (dir_open-part f.fs n) e in
            elim (Bool-cases (dir_is_empty d.1.part (d.1.files.inodes d.0.inode))) [
              | inr full ↦
                  rw (rmdir_found, other, e, full)
                    (closed-Failing f.fs.part (false, d.1) d.0 parent same)
              | inl empty ↦ elim (Flow-cases (dir_remove d.1 parent d.0 fuel)) [
                | inr (inl g) ↦ rw (rmdir_found, other, e, empty, g) tt
                | inr (inr g) ↦ rw (rmdir_found, other, e, empty, g) tt
                | inl (r, g) ↦
                    rw (rmdir_found, other, e, empty, g)
                      (closed-Failing f.fs.part r d.0 parent (
                        Returning-at (Failing f.fs.part) _ r
                          (widen (dir_remove d.1 parent d.0 fuel) same
                            (dir_remove-Failing d.1 parent d.0 fuel))
                          g))
              ]
            ]
      ]
    ]

sys_rmdir-Failing :
    (fs : Fs) (path : List ℕ) (fuel : ℕ) → Returning (Failing fs.part) (sys_rmdir fs path fuel)
unfolding sys_rmdir
sys_rmdir-Failing fs path fuel = elim (Flow-cases (search_file fs path)) [
  | inr (inl e) ↦ rw (sys_rmdir, e) tt
  | inr (inr e) ↦ rw (sys_rmdir, e) tt
  | inl (f, e) ↦
      let same : f.fs.part ≡ fs.part = search_file-part fs path f e in
      elim (Option-cases f.inode_no) [
        | inl missing ↦
            rw (sys_rmdir, e, missing) (dir_close-part f.fs f.searched.parent_dir ∙ same)
        | inr (n, found) ↦ elim (Bool-cases (n == 0)) [
          | inl root ↦ rw (sys_rmdir, e, found, root) tt
          | inr other ↦
              rw (sys_rmdir, e, found, other)
                (widen (rmdir_found f n fuel) same (rmdir_found-Failing f n fuel))
        ]
      ]
]

-- Where `sys_unlink` or `sys_rmdir` returns -1, for whatever reason, the disk and the bitmaps of the
-- partition are as they were before the call.
pub remove_failed :
    (fs fs' : Fs) (path : List ℕ) (fuel : ℕ)
    → (sys_unlink fs path fuel ≡ returns (false, fs'))
      ⊎ (sys_rmdir fs path fuel ≡ returns (false, fs'))
    → fs'.part ≡ fs.part
remove_failed fs fs' path fuel (inl e) =
    Returning-at (Failing fs.part) _ (false, fs') (sys_unlink-Failing fs path fuel) e
remove_failed fs fs' path fuel (inr e) =
    Returning-at (Failing fs.part) _ (false, fs') (sys_rmdir-Failing fs path fuel) e
