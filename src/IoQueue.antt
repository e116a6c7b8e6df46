-- ===== src/IoQueue.antt =====
-- device/ioqueue.c: the ring buffer between a producer and a consumer. Interrupts are off in
-- `ioq_getchar` and `ioq_putchar`, which assert it. A call that finds the queue empty or full
-- leaves its thread in `consumer` or `producer` and blocks; the lock that it takes around that is
-- Sync's. A thread is the address of its task, and 0 is `NULL`.
pub mod Queue
mod Tests
use elephant_os.Base.{
  ℕ, zero, suc, ◌+◌, ◌%◌, Bool, true, false, not, Option, none, some, ◌==◌, if◌then◌else◌, update,
  Mem, Outcome, done, panic, ◌>>=◌, ◌>>◌, assert,
}

abbrev pub bufsize : ℕ
bufsize = 64

pub record IoQueue : Type 0 where
  pub producer : ℕ
  pub consumer : ℕ
  pub buf : Mem
  pub head : ℕ
  pub tail : ℕ

-- `buf` keeps what it holds
unfoldable pub ioqueue_init : IoQueue → IoQueue
ioqueue_init q = record { producer = 0; consumer = 0; buf = q.buf; head = 0; tail = 0 }

unfoldable pub next_pos : ℕ → ℕ
next_pos pos = (pos + 1) % bufsize

unfoldable pub ioq_full : IoQueue → Bool
ioq_full q = next_pos q.head == q.tail

unfoldable pub ioq_empty : IoQueue → Bool
ioq_empty q = q.head == q.tail

-- `ioq_wait`, which ends in `thread_block`, and `wakeup`, which hands its thread to `thread_unblock`
unfoldable pub ioq_wait : ℕ → ℕ → Outcome ℕ
ioq_wait waiter running = do assert (waiter == 0); done running

unfoldable pub wakeup : ℕ → Outcome ℕ
wakeup waiter = do assert (not (waiter == 0)); done waiter

-- One round of a call: the thread blocks, or the call returns; then `woken` is the thread that was
-- woken, 0 if none.
pub data Round (A : Type 0) : Type 0 where
  blocked : IoQueue → Round A
  returned : A → (woken : ℕ) → IoQueue → Round A

unfoldable pub ioq_getchar : IoQueue → ℕ → Outcome (Round ℕ)
unfolding ioq_wait wakeup
ioq_getchar q running =
    if ioq_empty q
    then (do c ← ioq_wait q.consumer running; done (blocked (record q { consumer = c })))
    else (let byte = q.buf q.tail in
        let q' = record q { tail = next_pos q.tail } in
        if q'.producer == 0
        then done (returned byte 0 q')
        else (do w ← wakeup q'.producer; done (returned byte w (record q' { producer = 0 }))))

unfoldable pub ioq_putchar : IoQueue → ℕ → ℕ → Outcome (Round (Unit {0}))
unfolding ioq_wait wakeup
ioq_putchar q byte running =
    if ioq_full q
    then (do p ← ioq_wait q.producer running; done (blocked (record q { producer = p })))
    else (let q' = record q { buf = update q.buf q.head byte; head = next_pos q.head } in
        if q'.consumer == 0
        then done (returned tt 0 q')
        else (do w ← wakeup q'.consumer; done (returned tt w (record q' { consumer = 0 }))))
