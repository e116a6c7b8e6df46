-- ===== src/Opening/Writers.antt =====
-- A file has one writer at a time.
use mathlib.Core.Path.{subst}
use elephant_os.Base.{
  ℕ, zero, suc, ◌+◌, ◌≡◌, ◌⊎◌, refl, ◌∙◌, sym, ap, inl, inr, true, false, Option, none, some, List,
  [], ◌∷◌, arith, ◌==◌, ==_self, Mem, Outcome, done, panic, Bool-cases, Option-cases,
}
use elephant_os.Files.{
  Inode, Files, set_file, is_free, get_free_slot_in_global, install_loop, pcb_fd_install,
}
use elephant_os.Disk.{Partition, read_inode}
use elephant_os.Opening.{
  find_open, reopened, opened, inode_open, is_writing, deny, claim_file, file_open,
}

-- the open inode with this number has a writer
pub record HasWriter (s : Files) (inode_no : ℕ) : Type 0 where
  pub writer : ℕ
  pub is_open : find_open s.inodes s.open_inodes inode_no ≡ some writer
  pub is_denied : (s.inodes writer).write_deny ≡ true

-- Installing a descriptor leaves the inodes alone.
install_loop-inodes :
    (s : Files) (g idx left : ℕ)
    → ((install_loop s g idx left).1.inodes ≡ s.inodes)
      × ((install_loop s g idx left).1.open_inodes ≡ s.open_inodes)
unfolding install_loop
install_loop-inodes s g idx zero = (refl, refl)
install_loop-inodes s g idx (suc left) = elim (Bool-cases (is_free (s.fd_table idx))) [
  | inl free ↦ rw free (refl, refl)
  | inr taken ↦ rw taken (install_loop-inodes s g (idx + 1) left)
]

-- The search goes by the numbers of the inodes only.
find_open-same :
    (f g : ℕ → Inode) (l : List ℕ) (n : ℕ)
    → ((a : ℕ) → (f a).i_no ≡ (g a).i_no)
    → find_open f l n ≡ find_open g l n
unfolding find_open
find_open-same f g [] n same = refl
find_open-same f g (a ∷ l) n same = rw (same a, find_open-same f g l n same) refl

-- Giving the inode at `a` to a writer, where the search finds `a`.
deny-HasWriter :
    (s : Files) (a n : ℕ) → find_open s.inodes s.open_inodes n ≡ some a → HasWriter (deny s a) n
deny-HasWriter s a n found = record {
  writer = a;
  is_open =
      find_open-same (deny s a).inodes s.inodes s.open_inodes n (λ x. elim (Bool-cases (x == a)) [
        | inl e ↦ let at : x ≡ a = ground arith in rw (at, ==_self a) refl
        | inr e ↦ rw e refl
      ])
      ∙ found;
  is_denied = rw (==_self a) refl;
}

pcb_fd_install-HasWriter :
    (s : Files) (g n : ℕ) → HasWriter s n → HasWriter (pcb_fd_install s g).1 n
unfolding pcb_fd_install
pcb_fd_install-HasWriter s g n w =
    let (inodes, list) = install_loop-inodes s g 3 5 in
    record {
      writer = w.writer;
      is_open = rw (inodes, list) w.is_open;
      is_denied = rw inodes w.is_denied;
    }

claim_file-denied :
    (s : Files) (a fd_idx flag : ℕ)
    → is_writing flag ≡ true
    → (s.inodes a).write_deny ≡ true
    → (s' : Files) × (claim_file s a fd_idx flag ≡ (none, s'))
unfolding claim_file
claim_file-denied s a fd_idx flag writing denied = (
  set_file s fd_idx (record { fd_pos = 0; fd_flag = flag; fd_inode = a }),
  rw (claim_file, writing, denied) refl,
)

claim_file-HasWriter :
    (s : Files) (a fd_idx flag n : ℕ)
    → find_open s.inodes s.open_inodes n ≡ some a
    → is_writing flag ≡ true
    → (s.inodes a).write_deny ≡ false
    → HasWriter (claim_file s a fd_idx flag).1 n
unfolding claim_file
claim_file-HasWriter s a fd_idx flag n found writing free =
    rw (claim_file, writing, free)
      (pcb_fd_install-HasWriter _ fd_idx n (
        deny-HasWriter (set_file s fd_idx (record { fd_pos = 0; fd_flag = flag; fd_inode = a })) a n
          found))

find_open-reopened :
    (s : Files) (a n : ℕ)
    → find_open (reopened s a).inodes s.open_inodes n ≡ find_open s.inodes s.open_inodes n
find_open-reopened s a n = find_open-same (reopened s a).inodes s.inodes s.open_inodes n (λ x.
    elim (Bool-cases (x == a)) [
      | inl e ↦ let at : x ≡ a = ground arith in rw (at, ==_self a) refl
      | inr e ↦ rw e refl
    ])

find_open-opened :
    (s : Files) (fresh n : ℕ) (i : Inode)
    → i.i_no ≡ n
    → find_open (opened s fresh i).inodes (opened s fresh i).open_inodes n ≡ some fresh
unfolding find_open
find_open-opened s fresh n i e = rw (==_self fresh, e, ==_self n) refl

-- If the inode has a writer, `file_open` for writing fails.
file_open-denied :
    (part : Partition) (s : Files) (n flag fresh : ℕ) (buf : Mem)
    → HasWriter s n
    → is_writing flag ≡ true
    → (s' : Files) × (file_open part s n flag fresh buf ≡ done (none, s'))
unfolding file_open inode_open
file_open-denied part s n flag fresh buf w writing =
    elim (Option-cases (get_free_slot_in_global s)) [
      | inl full ↦ (s, rw (file_open, full) refl)
      | inr slot ↦
          let (fd_idx, found) = slot in
          let denied : ((reopened s w.writer).inodes w.writer).write_deny ≡ true =
            rw (==_self w.writer) w.is_denied in
          let (s', run) =
            claim_file-denied (reopened s w.writer) w.writer fd_idx flag writing denied in
          (s', rw (file_open, found, inode_open, w.is_open, run) refl)
    ]

-- What `claim_file` leaves behind a descriptor for writing.
claim_file-writer :
    (s : Files) (a fd_idx flag n fd : ℕ) (s1 : Files)
    → find_open s.inodes s.open_inodes n ≡ some a
    → is_writing flag ≡ true
    → claim_file s a fd_idx flag ≡ (some fd, s1)
    → HasWriter s1 n
claim_file-writer s a fd_idx flag n fd s1 found writing run =
    elim (Bool-cases (s.inodes a).write_deny) [
      | inl denied ↦
          let (s', other) = claim_file-denied s a fd_idx flag writing denied in
          let no : none ≡ some fd = sym (ap (λ r. r.0) other) ∙ ap (λ r. r.0) run in cc
      | inr free ↦
          subst (λ r. HasWriter r.1 n) run
            (claim_file-HasWriter s a fd_idx flag n found writing free)
    ]

Outcome-cases : {A : Type 0} (r : Outcome A) → ((a : A) × (r ≡ done a)) ⊎ (r ≡ panic)
Outcome-cases (done a) = inl (a, refl)
Outcome-cases panic = inr refl

same_done : {A : Type 0} {a b : A} → done a ≡ done b → a ≡ b
same_done e = cc

-- A descriptor for writing leaves the inode with a writer.
file_open-HasWriter :
    (part : Partition) (s s1 : Files) (n flag fresh fd : ℕ) (buf : Mem)
    → ((i : Inode) → read_inode part n buf ≡ done i → i.i_no ≡ n)
    → is_writing flag ≡ true
    → file_open part s n flag fresh buf ≡ done (some fd, s1)
    → HasWriter s1 n
unfolding file_open inode_open
file_open-HasWriter part s s1 n flag fresh fd buf numbered writing run =
    elim (Option-cases (get_free_slot_in_global s)) [
      | inl full ↦
          let got : file_open part s n flag fresh buf ≡ done (none, s) =
            rw (file_open, full) refl in
          let no : none ≡ some fd = ap (λ r. r.0) (same_done (sym got ∙ run)) in cc
      | inr slot ↦
          let (fd_idx, free) = slot in
          elim (Option-cases (find_open s.inodes s.open_inodes n)) [
            | inr known ↦
                let (a, found) = known in
                let got : file_open part s n flag fresh buf
                    ≡ done (claim_file (reopened s a) a fd_idx flag) =
                  rw (file_open, free, inode_open, found) refl in
                claim_file-writer (reopened s a) a fd_idx flag n fd s1
                  (find_open-reopened s a n ∙ found) writing (same_done (sym got ∙ run))
            | inl new ↦ elim (Outcome-cases (read_inode part n buf)) [
              | inr stuck ↦
                  let got : file_open part s n flag fresh buf ≡ panic =
                    rw (file_open, free, inode_open, new, stuck) refl in
                  cc
              | inl read ↦
                  let (i, e) = read in
                  let got : file_open part s n flag fresh buf
                      ≡ done (claim_file (opened s fresh i) fresh fd_idx flag) =
                    rw (file_open, free, inode_open, new, e) refl in
                  claim_file-writer (opened s fresh i) fresh fd_idx flag n fd s1
                    (find_open-opened s fresh n i (numbered i e)) writing
                    (same_done (sym got ∙ run))
            ]
          ]
    ]

-- On a partition whose inode `n` is stored with its own number, once `file_open` has given a
-- descriptor for writing the file `n`, the next `file_open` of it for writing ends with -1, whatever
-- the table of descriptors of the task that calls it, the address and memory that it uses, and the
-- bytes of the partition by then.
pub one_writer :
    (part part' : Partition) (s s1 : Files) (n flag flag' fresh fresh' fd : ℕ) (buf buf' : Mem)
    (fd_table' : ℕ → Option ℕ)
    → ((i : Inode) → read_inode part n buf ≡ done i → i.i_no ≡ n)
    → is_writing flag ≡ true
    → is_writing flag' ≡ true
    → file_open part s n flag fresh buf ≡ done (some fd, s1)
    → (s2 : Files) × (file_open part' (record s1 { fd_table = fd_table' }) n flag' fresh' buf'
        ≡ done (none, s2))
one_writer part part' s s1 n flag flag' fresh fresh' fd buf buf' fd_table' numbered writing writing'
      run =
    let w = file_open-HasWriter part s s1 n flag fresh fd buf numbered writing run in
    file_open-denied part' (record s1 { fd_table = fd_table' }) n flag' fresh' buf'
      (record { writer = w.writer; is_open = w.is_open; is_denied = w.is_denied }) writing'
