-- ===== src/IoQueue/Queue.antt =====
-- The ring behaves as a queue of at most 63 bytes.
use elephant_os.Base.{
  ℕ, zero, suc, ◌+◌, ◌-◌, ◌%◌, ◌<◌, ◌≡◌, refl, ap, ◌≢◌, true, false, List, [], ◌∷◌, ◌++◌, arith,
  ◌==◌, if◌then◌else◌, update, Mem, length, done, panic,
}
use elephant_os.IoQueue.{
  IoQueue, ioqueue_init, next_pos, ioq_full, ioq_empty, ioq_wait, wakeup, blocked, returned,
  ioq_getchar, ioq_putchar,
}

-- the `n` bytes from position `pos` on, round the end of the buffer
abbrev pub window : Mem → ℕ → ℕ → List ℕ
window buf pos zero = []
window buf pos (suc n) = buf pos ∷ window buf ((pos + 1) % 64) n

abbrev pub count : IoQueue → ℕ
count q = (q.head + 64 - q.tail) % 64

-- the bytes that the queue holds, oldest first
abbrev pub contents : IoQueue → List ℕ
contents q = window q.buf q.tail (count q)

pub record IsValid (q : IoQueue) : Type 0 where
  pub head_in : q.head < 64
  pub tail_in : q.tail < 64

length-window : (buf : Mem) (pos n : ℕ) → length (window buf pos n) ≡ n
length-window buf pos zero = refl
length-window buf pos (suc n) = ap suc (length-window buf ((pos + 1) % 64) n)

-- A write just behind a window extends it.
window-update :
    (buf : Mem) (pos n i byte : ℕ)
    → pos < 64
    → n < 64
    → i ≡ (pos + n) % 64
    → window (update buf i byte) pos (suc n) ≡ window buf pos n ++ (byte ∷ [])
window-update buf pos zero i byte hp hn e = ground arith
window-update buf pos (suc n) i byte hp hn e =
    ground (arith, window-update buf ((pos + 1) % 64) n i byte)

window_pos :
    (buf : Mem) (pos n : ℕ)
    → n ≢ 0
    → window buf pos n ≡ buf pos ∷ window buf ((pos + 1) % 64) (n - 1)
window_pos buf pos zero h = absurd (h refl)
window_pos buf pos (suc n) h = ap (λ k. buf pos ∷ window buf ((pos + 1) % 64) k) (omega arith)

-- A valid queue is empty exactly when it holds no byte, and full exactly when it holds 63.
empty_full :
    (q : IoQueue)
    → IsValid q
    → (ioq_empty q ≡ (length (contents q) == 0)) × (ioq_full q ≡ (length (contents q) == 63))
unfolding ioq_empty ioq_full next_pos
empty_full q v = ground (arith, length-window q.buf q.tail (count q))

-- the queue with a byte more, and its consumer woken
abbrev pub written : IoQueue → ℕ → IoQueue
written q byte = record q { buf = update q.buf q.head byte; head = (q.head + 1) % 64; consumer = 0 }

written-IsValid : (q : IoQueue) (byte : ℕ) → IsValid q → IsValid (written q byte)
written-IsValid q byte v = record { head_in = omega arith; tail_in = v.tail_in }

contents-written :
    (q : IoQueue) (byte : ℕ)
    → IsValid q
    → ioq_full q ≡ false
    → contents (written q byte) ≡ contents q ++ (byte ∷ [])
unfolding ioq_full next_pos
contents-written q byte v room =
    let ih = v.head_in in
    let it = v.tail_in in
    let ne : ((q.head + 1) % 64 == q.tail) ≡ false = room in
    let more : ((q.head + 1) % 64 + 64 - q.tail) % 64 ≡ suc (count q) = ground arith in
    let small : count q < 64 = omega arith in
    let at : q.head ≡ (q.tail + count q) % 64 = omega arith in
    rw more (window-update q.buf q.tail (count q) q.head byte it small at)

-- `ioq_putchar` on a valid queue that is not full returns, appends the byte to the contents, keeps
-- the queue valid, and wakes
-- the waiting consumer, if there is one.
pub putchar-snoc :
    (q : IoQueue) (byte running : ℕ)
    → IsValid q
    → ioq_full q ≡ false
    → (q' : IoQueue) × (ioq_putchar q byte running ≡ done (returned tt q.consumer q'))
      × IsValid q'
      × (contents q' ≡ contents q ++ (byte ∷ []))
      × (q'.consumer ≡ 0)
unfolding ioq_putchar wakeup next_pos
putchar-snoc q byte running v room =
    let run : ioq_putchar q byte running ≡ done (returned tt q.consumer (written q byte)) =
      ground arith in
    (written q byte, run, written-IsValid q byte v, contents-written q byte v room, refl)

-- the queue with a byte less, and its producer woken
abbrev pub taken : IoQueue → IoQueue
taken q = record q { tail = (q.tail + 1) % 64; producer = 0 }

taken-IsValid : (q : IoQueue) → IsValid q → IsValid (taken q)
taken-IsValid q v = record { head_in = v.head_in; tail_in = omega arith }

contents-taken :
    (q : IoQueue) → IsValid q → ioq_empty q ≡ false → contents q ≡ q.buf q.tail ∷ contents (taken q)
unfolding ioq_empty
contents-taken q v some_bytes =
    let ih = v.head_in in
    let it = v.tail_in in
    let ne : (q.head == q.tail) ≡ false = some_bytes in
    let less : (q.head + 64 - (q.tail + 1) % 64) % 64 ≡ count q - 1 = ground arith in
    let has : count q ≢ 0 = ground arith in rw less (window_pos q.buf q.tail (count q) has)

-- `ioq_getchar` on a valid queue that is not empty returns the oldest byte, takes it from the contents,
-- keeps the queue valid, and wakes the waiting producer, if there is one.
pub getchar-cons :
    (q : IoQueue) (running : ℕ)
    → IsValid q
    → ioq_empty q ≡ false
    → (byte : ℕ) × (q' : IoQueue) × (ioq_getchar q running ≡ done (returned byte q.producer q'))
      × IsValid q'
      × (contents q ≡ byte ∷ contents q')
      × (q'.producer ≡ 0)
unfolding ioq_getchar wakeup next_pos
getchar-cons q running v some_bytes =
    let run : ioq_getchar q running ≡ done (returned (q.buf q.tail) q.producer (taken q)) =
      ground arith in
    (q.buf q.tail, taken q, run, taken-IsValid q v, contents-taken q v some_bytes, refl)

-- A call that cannot go on leaves its thread as the waiter and changes nothing else, unless
-- another thread already waits on that side: then the assertion of `ioq_wait` fails.
blocked_calls :
    (q : IoQueue) (byte running : ℕ)
    → (ioq_empty q ≡ true
        → ioq_getchar q running
          ≡ (if q.consumer == 0 then done (blocked (record q { consumer = running })) else panic))
      × (ioq_full q ≡ true
          → ioq_putchar q byte running
            ≡ (if q.producer == 0 then done (blocked (record q { producer = running })) else panic))
unfolding ioq_getchar ioq_putchar ioq_wait
blocked_calls q byte running = (λ e. rw e ground arith, λ e. rw e ground arith)

-- `ioqueue_init` makes a valid queue that holds nothing and on which nobody waits.
ioqueue_init-empty :
    (q : IoQueue)
    → IsValid (ioqueue_init q)
      × (contents (ioqueue_init q) ≡ [])
      × ((ioqueue_init q).producer ≡ 0)
      × ((ioqueue_init q).consumer ≡ 0)
unfolding ioqueue_init
ioqueue_init-empty q = (record { head_in = omega arith; tail_in = omega arith }, refl, refl, refl)
