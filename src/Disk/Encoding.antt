-- ===== src/Disk/Encoding.antt =====
-- Inodes as bytes, and when two inodes are the same on the disk.
use elephant_os.Base.{
  ℕ, ◌+◌, ◌*◌, ◌^◌, ◌<◌, ◌≤◌, ◌≡◌, refl, ◌∙◌, sym, ap, Bool, true, false, not, arith, ◌==◌,
  if◌then◌else◌, Mem,
}
use elephant_os.Files.{Inode, inode_size}
use elephant_os.Disk.{int_of, word_at, bytes_of, inode_words, inode_from}
use elephant_os.Disk.Bytes.{word_at-bytes_of, word_at-same}

-- Inodes are compared by what the disk keeps of them.
pub record SameInode (i j : Inode) : Type 0 where
  pub same_no : i.i_no ≡ j.i_no
  pub same_size : i.i_size ≡ j.i_size
  pub same_open_cnts : i.i_open_cnts ≡ j.i_open_cnts
  pub same_write_deny : i.write_deny ≡ j.write_deny
  pub same_sectors : (n : ℕ) → n < 13 → i.i_sectors n ≡ j.i_sectors n

-- every field has 32 bits
pub record IsWord (i : Inode) : Type 0 where
  pub no_small : i.i_no < 2 ^ 32
  pub size_small : i.i_size < 2 ^ 32
  pub cnts_small : i.i_open_cnts < 2 ^ 32
  pub sectors_small : (n : ℕ) → n < 13 → i.i_sectors n < 2 ^ 32

-- Inodes are the same where their bytes are.
pub inode_from-SameInode :
    (m m' : Mem) (a a' : ℕ)
    → ((k : ℕ) → k < inode_size → m (a + k) ≡ m' (a' + k))
    → SameInode (inode_from m a) (inode_from m' a')
unfolding inode_from
inode_from-SameInode m m' a a' same =
    let word : (o b b' : ℕ)
        → b ≡ a + o
        → b' ≡ a' + o
        → o + 4 ≤ inode_size
        → word_at m b ≡ word_at m' b' =
      λ o b b' e e' le. word_at-same m m' b b' (λ k lt. ground (arith, same (o + k))) in
    record {
      same_no = word 0 a a' (omega arith) (omega arith) (omega arith);
      same_size = word 4 _ _ refl refl (omega arith);
      same_open_cnts = word 8 _ _ refl refl (omega arith);
      same_write_deny = ap (λ w. not (w == 0)) (word 12 _ _ refl refl (omega arith));
      same_sectors = λ n lt. word (16 + 4 * n) _ _ (omega arith) (omega arith) (omega arith);
    }

int_of_small : (b : Bool) → int_of b < 2 ^ 32
int_of_small true = omega arith
int_of_small false = omega arith

int_of_lem : (b : Bool) → not (int_of b == 0) ≡ b
int_of_lem true = refl
int_of_lem false = refl

module _ (i : Inode) where
  inode_words_no : inode_words i 0 ≡ i.i_no
  unfolding inode_words
  inode_words_no = refl

  inode_words_size : inode_words i 1 ≡ i.i_size
  unfolding inode_words
  inode_words_size = refl

  inode_words_cnts : inode_words i 2 ≡ i.i_open_cnts
  unfolding inode_words
  inode_words_cnts = refl

  inode_words_deny : inode_words i 3 ≡ int_of i.write_deny
  unfolding inode_words
  inode_words_deny = refl

  inode_words_sectors : (n : ℕ) → n < 13 → inode_words i (4 + n) ≡ i.i_sectors n
  unfolding inode_words
  inode_words_sectors n lt = ground arith

-- The bytes of an inode read back as the inode.
pub inode_from-inode_words :
    (i : Inode) → IsWord i → SameInode (inode_from (bytes_of (inode_words i)) 0) i
unfolding inode_from
inode_from-inode_words i w =
    let word : (n v : ℕ)
        → inode_words i n ≡ v
        → v < 2 ^ 32
        → word_at (bytes_of (inode_words i)) (4 * n) ≡ v =
      λ n v e small. word_at-bytes_of (inode_words i) n (rw e small) ∙ e in
    record {
      same_no = word 0 i.i_no (inode_words_no i) w.no_small;
      same_size = word 1 i.i_size (inode_words_size i) w.size_small;
      same_open_cnts = word 2 i.i_open_cnts (inode_words_cnts i) w.cnts_small;
      same_write_deny =
          ap (λ w. not (w == 0))
            (word 3 (int_of i.write_deny) (inode_words_deny i) (int_of_small i.write_deny))
          ∙ int_of_lem i.write_deny;
      same_sectors = λ n lt.
          ap (word_at (bytes_of (inode_words i))) (omega arith)
          ∙ word (4 + n) (i.i_sectors n) (inode_words_sectors i n lt) (w.sectors_small n lt);
    }

pub SameInode-trans : {i j k : Inode} → SameInode i j → SameInode j k → SameInode i k
SameInode-trans a b = record {
  same_no = a.same_no ∙ b.same_no;
  same_size = a.same_size ∙ b.same_size;
  same_open_cnts = a.same_open_cnts ∙ b.same_open_cnts;
  same_write_deny = a.same_write_deny ∙ b.same_write_deny;
  same_sectors = λ n lt. a.same_sectors n lt ∙ b.same_sectors n lt;
}

pub SameInode-sym : {i j : Inode} → SameInode i j → SameInode j i
SameInode-sym a = record {
  same_no = sym a.same_no;
  same_size = sym a.same_size;
  same_open_cnts = sym a.same_open_cnts;
  same_write_deny = sym a.same_write_deny;
  same_sectors = λ n lt. sym (a.same_sectors n lt);
}

pub SameInode-if :
    (c : Bool) {i i' j j' : Inode}
    → SameInode i i'
    → SameInode j j'
    → SameInode (if c then i else j) (if c then i' else j')
SameInode-if true a b = a
SameInode-if false a b = b
