-- ===== src/Files/Descriptors.antt =====
-- Descriptors from their opening to their closing, seeking, and the place of an inode.
use elephant_os.Base.{
  ℕ, zero, suc, ◌+◌, ◌-◌, ◌*◌, ◌/◌, ◌%◌, ◌^◌, ◌<◌, ◌≤◌, ◌≡◌, ◌≢◌, ◌↔◌, inl, inr, refl, ap, ◌∙◌,
  Bool, true, false, not, ◌&&◌, ◌||◌, Option, none, some, ◌==◌, ltb, leb, if◌then◌else◌, arith, u32,
  sub32, done, Bool-cases, ==_self, ==_of_ne, lt→ltb,
}
use mathlib.Core.Path.{sym, subst}
use elephant_os.Files.{
  File, Files, set_file, set_fd, set_inode, is_free, install_loop, pcb_fd_install, fd_local2global,
  inode_close, file_close, sys_close, Whence, new_position, sys_lseek, InodePosition, inode_locate,
  int_gt, is_negative,
}

is_free-none : (o : Option ℕ) → is_free o ≡ true → o ≡ none
is_free-none none h = refl
is_free-none (some g) h = absurd (ground arith)

used_is_past : (t : ℕ → Option ℕ) (fd d : ℕ) → is_free (t fd) ≡ false → t d ≡ none → fd ≢ d
used_is_past t fd d used free e =
    let h : is_free (t d) ≡ false = subst (λ x. is_free (t x) ≡ false) e used in
    absurd (ground (arith, ap is_free free))

-- the loop takes the lowest free descriptor
install_loop_lem :
    (s : Files) (g fd left d : ℕ)
    → fd ≤ d
    → d < fd + left
    → s.fd_table d ≡ none
    → (r : ℕ) × (install_loop s g fd left ≡ (some r, set_fd s r (some g)))
      × (fd ≤ r)
      × (r ≤ d)
      × (s.fd_table r ≡ none)
unfolding install_loop
install_loop_lem s g fd zero d lo hi free = absurd (omega arith)
install_loop_lem s g fd (suc left) d lo hi free = elim (Bool-cases (is_free (s.fd_table fd))) [
  | inl here_free ↦ (fd, rw here_free refl, omega arith, lo, is_free-none (s.fd_table fd) here_free)
  | inr used ↦
      let past : fd ≢ d = used_is_past s.fd_table fd d used free in
      let (r, run, lo', le, free') =
        install_loop_lem s g (fd + 1) left d (omega arith) (omega arith) free in
      (r, rw used run, omega arith, le, free')
]

inode_close_lem :
    (s : Files) (a : ℕ)
    → ((inode_close s a).fd_table ≡ s.fd_table)
      × ((inode_close s a).file_table ≡ s.file_table)
      × (((inode_close s a).inodes a).write_deny ≡ (s.inodes a).write_deny)
unfolding inode_close
inode_close_lem s a = elim (Bool-cases (sub32 (s.inodes a).i_open_cnts 1 == 0)) [
  | inl last ↦ rw (inode_close, last) (refl, refl, rw ==_self refl)
  | inr more ↦ rw (inode_close, more) (refl, refl, rw ==_self refl)
]

file_close_lem :
    (s : Files) (g : ℕ)
    → ((x : ℕ) → (file_close s g).fd_table x ≡ s.fd_table x)
      × (((file_close s g).file_table g).fd_inode ≡ 0)
      × ((x : ℕ) → x ≢ g → (file_close s g).file_table x ≡ s.file_table x)
      × (((file_close s g).inodes (s.file_table g).fd_inode).write_deny ≡ false)
unfolding file_close
file_close_lem s g =
    let a = (s.file_table g).fd_inode in
    let i = s.inodes a in
    let s1 = set_inode s a (record i { write_deny = false }) in
    let (fds, files, deny) = inode_close_lem s1 a in
    (
      λ x. rw fds refl,
      rw ==_self refl,
      λ x ne. rw (==_of_ne x g ne, files) refl,
      deny ∙ rw ==_self refl,
    )

closes_installed :
    (s : Files) (g r : ℕ)
    → g < 32
    → 3 ≤ r
    → r < 8
    → s.fd_table r ≡ none
    → let s1 = set_fd s r (some g) in
      let s2 = set_fd (file_close s1 g) r none in
      (fd_local2global s1 r ≡ done g)
      × (sys_close s1 r ≡ done (true, s2))
      × ((x : ℕ) → s2.fd_table x ≡ s.fd_table x)
unfolding sys_close fd_local2global
closes_installed s g r small low high was_free =
    let (fds, slot, others, deny) = file_close_lem (set_fd s r (some g)) g in
    let in_table : ltb g 32 ≡ true = lt→ltb g 32 small in
    let open_fd : ltb 2 r ≡ true = lt→ltb 2 r low in
    let plain : is_negative r ≡ false = ground arith in
    (
      rw (fd_local2global, ==_self, in_table) refl,
      rw (open_fd, plain, fd_local2global, ==_self, in_table) refl,
      λ x. elim (Bool-cases (x == r)) [
        | inl e ↦ let at : x ≡ r = ground arith in rw (e, at) (sym was_free)
        | inr ne ↦ rw ne (fds x ∙ (rw ne refl))
      ],
    )

-- If a descriptor of the task is free, `pcb_fd_install` takes the lowest free one for a file;
-- `fd_local2global` then finds the file by it, and `sys_close` of it succeeds, frees the
-- descriptor and the file's slot, allows writing to the inode again, and touches no other
-- descriptor and no other slot.
pub pcb_fd_install-sys_close :
    (s : Files) (g d : ℕ)
    → g < 32
    → 3 ≤ d
    → d < 8
    → s.fd_table d ≡ none
    → (r : ℕ) × (s1 s2 : Files) × (pcb_fd_install s g ≡ (some r, s1))
      × (3 ≤ r)
      × (r ≤ d)
      × (fd_local2global s1 r ≡ done g)
      × (sys_close s1 r ≡ done (true, s2))
      × ((x : ℕ) → s2.fd_table x ≡ s.fd_table x)
      × ((s2.file_table g).fd_inode ≡ 0)
      × ((s2.inodes (s.file_table g).fd_inode).write_deny ≡ false)
      × ((x : ℕ) → x ≢ g → s2.file_table x ≡ s.file_table x)
unfolding pcb_fd_install
pcb_fd_install-sys_close s g d small lo hi free =
    let (r, run, low, le, was_free) = install_loop_lem s g 3 5 d lo (omega arith) free in
    let s1 = set_fd s r (some g) in
    let (find, close, fds) = closes_installed s g r small low (omega arith) was_free in
    let (same, slot, others, deny) = file_close_lem s1 g in
    (r, s1, set_fd (file_close s1 g) r none, run, low, le, find, close, fds, slot, deny, others)

-- where an offset is counted from
abbrev pub base_of : File → ℕ → Whence → ℕ
base_of f size Whence.seek_set = 0
base_of f size Whence.seek_cur = f.fd_pos
base_of f size Whence.seek_end = size

-- what a call that goes to `pos` does, when only places inside the file are allowed
abbrev pub Seeks : Files → ℕ → ℕ → Whence → ℕ → (valid : Bool) → ℕ → Type 0
Seeks s fd offset whence g valid pos =
    sys_lseek s fd offset whence
    ≡ done (
        if valid
        then (let f = s.file_table g in (some pos, set_file s g (record f { fd_pos = pos })))
        else (none, s))

seek_step :
    (s : Files) (fd g offset : ℕ) (whence : Whence) (w : ℕ) (valid : Bool) (pos : ℕ)
    → is_negative fd ≡ false
    → s.fd_table fd ≡ some g
    → g < 32
    → new_position (s.file_table g) (s.inodes (s.file_table g).fd_inode).i_size offset whence ≡ w
    → (is_negative w || int_gt w (sub32 (s.inodes (s.file_table g).fd_inode).i_size 1)) ≡ not valid
    → (valid ≡ true → w ≡ pos)
    → Seeks s fd offset whence g valid pos
unfolding sys_lseek fd_local2global
seek_step s fd g offset whence w true pos plain at small new check eq =
    let global : ltb g 32 ≡ true = lt→ltb g 32 small in
    rw (plain, fd_local2global, at, global, new, check, eq refl) refl
seek_step s fd g offset whence w false pos plain at small new check eq =
    let global : ltb g 32 ≡ true = lt→ltb g 32 small in
    rw (plain, fd_local2global, at, global, new, check) refl

-- the word that is tested, for a base and a distance
module _ (size base n : ℕ) (hs : size < 2 ^ 30) (hb : base < 2 ^ 30) (hn : n < 2 ^ 30)
    (pos : 0 < n) where
  forward : (is_negative (base + n) || int_gt (base + n) (sub32 size 1)) ≡ not (ltb (base + n) size)
  forward = ground arith

  backward :
      (is_negative (u32 (base + (2 ^ 32 - n))) || int_gt (u32 (base + (2 ^ 32 - n))) (sub32 size 1))
      ≡ not (leb n base && ltb (base - n) size)
  backward = ground arith

both_ways :
    (s : Files) (fd g n : ℕ) (whence : Whence) (size base : ℕ)
    → is_negative fd ≡ false
    → s.fd_table fd ≡ some g
    → g < 32
    → (s.inodes (s.file_table g).fd_inode).i_size ≡ size
    → size < 2 ^ 30
    → base < 2 ^ 30
    → n < 2 ^ 30
    → 0 < n
    → new_position (s.file_table g) (s.inodes (s.file_table g).fd_inode).i_size n whence ≡ base + n
    → new_position (s.file_table g) (s.inodes (s.file_table g).fd_inode).i_size (2 ^ 32 - n) whence
      ≡ u32 (base + (2 ^ 32 - n))
    → Seeks s fd n whence g (ltb (base + n) size) (base + n)
      × Seeks s fd (2 ^ 32 - n) whence g (leb n base && ltb (base - n) size) (base - n)
both_ways s fd g n whence size base plain at small is hs hb hn pos up down = (
  seek_step s fd g n whence (base + n) (ltb (base + n) size) (base + n) plain at small up
      (rw is (forward size base n hs hb hn pos)) (λ h. refl),
  seek_step s fd g (2 ^ 32 - n) whence (u32 (base + (2 ^ 32 - n)))
      (leb n base && ltb (base - n) size) (base - n) plain at small down
      (rw is (backward size base n hs hb hn pos)) (λ h. ground arith),
)

-- For an open descriptor, a size, a position and a distance `n` below 2 ^ 30 with `n` not 0, a call
-- of `sys_lseek` forward by `n` goes to the base plus `n` if that lies inside the file, and backward
-- by `n` to the base less `n` if the base is so far from the start and the place lies inside the
-- file; else it gives -1 and changes nothing.
sys_lseek_lem :
    (s : Files) (fd g n : ℕ) (whence : Whence)
    → fd < 2 ^ 31
    → s.fd_table fd ≡ some g
    → g < 32
    → (s.inodes (s.file_table g).fd_inode).i_size < 2 ^ 30
    → (s.file_table g).fd_pos < 2 ^ 30
    → n < 2 ^ 30
    → 0 < n
    → let size = (s.inodes (s.file_table g).fd_inode).i_size in
      let base = base_of (s.file_table g) size whence in
      Seeks s fd n whence g (ltb (base + n) size) (base + n)
      × Seeks s fd (2 ^ 32 - n) whence g (leb n base && ltb (base - n) size) (base - n)
unfolding new_position
sys_lseek_lem s fd g n Whence.seek_set hfd at small hs hp hn pos =
    both_ways s fd g n Whence.seek_set (s.inodes (s.file_table g).fd_inode).i_size 0 (ground arith)
      at small refl hs (omega arith) hn pos (omega arith) (omega arith)
sys_lseek_lem s fd g n Whence.seek_cur hfd at small hs hp hn pos =
    both_ways s fd g n Whence.seek_cur (s.inodes (s.file_table g).fd_inode).i_size
      (s.file_table g).fd_pos (ground arith) at small refl hs hp hn pos (omega arith) (omega arith)
sys_lseek_lem s fd g n Whence.seek_end hfd at small hs hp hn pos =
    both_ways s fd g n Whence.seek_end (s.inodes (s.file_table g).fd_inode).i_size
      (s.inodes (s.file_table g).fd_inode).i_size (ground arith) at small refl hs hs hn pos
      (omega arith) (omega arith)

-- For inode numbers below 4096 and a table below sector 2 ^ 31, `inode_locate` gives a place that
-- begins inside its sector and runs into the next one just if `two_sec` says so; the places of
-- different inodes do not overlap, and all lie in the 608 sectors from the start of the table.
inode_locate_lem :
    (lba i j : ℕ)
    → lba < 2 ^ 31
    → i < j
    → j < 4096
    → (p q : InodePosition) × (inode_locate lba i ≡ done p)
      × (inode_locate lba j ≡ done q)
      × (p.off_size < 512)
      × ((p.two_sec ≡ true) ↔ (512 < p.off_size + 76))
      × (p.sec_lba * 512 + p.off_size + 76 ≤ q.sec_lba * 512 + q.off_size)
      × (q.sec_lba * 512 + q.off_size + 76 ≤ (lba + 608) * 512)
unfolding inode_locate
inode_locate_lem lba i j hl ij hj = (
  record {
    two_sec = ltb (512 - i * 76 % 512) 76;
    sec_lba = u32 (lba + i * 76 / 512);
    off_size = i * 76 % 512;
  },
  record {
    two_sec = ltb (512 - j * 76 % 512) 76;
    sec_lba = u32 (lba + j * 76 / 512);
    off_size = j * 76 % 512;
  },
  rw (lt→ltb i 4096 (omega arith)) refl,
  rw (lt→ltb j 4096 hj) refl,
  omega arith,
  (λ h. ground arith, λ h. ground arith),
  omega arith,
  omega arith,
)
