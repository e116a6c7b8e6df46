-- ===== src/Disk/Bytes.antt =====
-- Words in memory, and copying between buffers.
use elephant_os.Base.{ℕ, ◌+◌, ◌-◌, ◌*◌, ◌/◌, ◌%◌, ◌^◌, ◌<◌, ◌≤◌, ◌≡◌, arith, Mem}
use mathlib.Core.Path.{fun_ext}
use elephant_os.Disk.{copy, word_at, bytes_of}

pub word_at-bytes_of :
    (words : ℕ → ℕ) (n : ℕ) → words n < 2 ^ 32 → word_at (bytes_of words) (4 * n) ≡ words n
unfolding word_at bytes_of
word_at-bytes_of words n small =
    let q0 : 4 * n / 4 ≡ n = omega arith in
    let q1 : (4 * n + 1) / 4 ≡ n = omega arith in
    let q2 : (4 * n + 2) / 4 ≡ n = omega arith in
    let q3 : (4 * n + 3) / 4 ≡ n = omega arith in
    let r0 : 4 * n % 4 ≡ 0 = omega arith in
    let r1 : (4 * n + 1) % 4 ≡ 1 = omega arith in
    let r2 : (4 * n + 2) % 4 ≡ 2 = omega arith in
    let r3 : (4 * n + 3) % 4 ≡ 3 = omega arith in rw (q0, q1, q2, q3, r0, r1, r2, r3) (omega arith)

module _ (m src : Mem) (dst size : ℕ) where
  pub copy-inside : (a : ℕ) → dst ≤ a → a < dst + size → copy m dst src size a ≡ src (a - dst)
  unfolding copy
  copy-inside a lo hi = ground arith

  pub copy-before : (a : ℕ) → a < dst → copy m dst src size a ≡ m a
  unfolding copy
  copy-before a lt = ground arith

  pub copy-behind : (a : ℕ) → dst + size ≤ a → copy m dst src size a ≡ m a
  unfolding copy
  copy-behind a le = ground arith

-- Patching a buffer that was read from the disk and writing it back patches the disk.
pub copy-through :
    (disk buf src : Mem) (base off size room : ℕ)
    → off + size ≤ room
    → copy disk base (copy (copy buf 0 (λ x. disk (base + x)) room) off src size) room
      ≡ copy disk (base + off) src size
unfolding copy
copy-through disk buf src base off size room le = fun_ext (λ a. ground arith)

pub word_at-same :
    (m m' : Mem) (a a' : ℕ)
    → ((k : ℕ) → k < 4 → m (a + k) ≡ m' (a' + k))
    → word_at m a ≡ word_at m' a'
unfolding word_at
word_at-same m m' a a' same =
    ground (
      arith,
      same 0 (omega arith),
      same 1 (omega arith),
      same 2 (omega arith),
      same 3 (omega arith),
    )

-- A byte of a buffer into which sectors were read.
pub copy-start : (m src : Mem) (size a : ℕ) → a < size → copy m 0 src size a ≡ src a
unfolding copy
copy-start m src size a lt = ground arith
