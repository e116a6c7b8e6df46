-- ===== src/Sync/System.antt =====
-- Threads that use one lock, as interleavings of the parts of `lock_acquire` and `lock_release`.
use elephant_os.Base.{
  ℕ, ◌+◌, ◌<◌, ◌^◌, ◌≡◌, ◌≢◌, Bool, true, false, Option, none, some, if◌then◌else◌, update, Outcome,
  done, ◌>>=◌,
}
use elephant_os.Sync.{
  Lock, lock_init, sema_down_round, sema_up, wants_down, take_hold, hold_again, let_go,
}

-- Where a thread stands: outside; asleep in `sema_down`; woken there; past `sema_down` but not yet
-- the holder; the holder; no longer the holder, before `sema_up`.
pub data Phase : Type 0 where
  outside asleep woken entered holding leaving : Phase

pub record System : Type 0 where
  pub lock : Lock
  pub phase : ℕ → Phase

-- what a thread can do next
pub data Move : Type 0 where
  acquire retry enter release signal : Move

abbrev pub at : System → ℕ → Phase → System
at s t p = record s { phase = update s.phase t p }

-- a round of `sema_down`
unfoldable pub down : System → ℕ → Outcome System
down s t = do
  (sema, through) ← sema_down_round s.lock.semaphore t
  let l = s.lock
  let s' = record s { lock = record l { semaphore = sema } }
  done (at s' t (if through then Phase.entered else Phase.asleep))

-- the thread that `sema_up` wakes will run its loop again
wake : System → Option ℕ → System
wake s none = s
wake s (some t) = at s t Phase.woken

unfoldable pub run : System → ℕ → Move → Outcome System
unfolding down wake
run s t Move.acquire =
    if wants_down s.lock t
    then down s t
    else (let l = hold_again s.lock in done (record s { lock = l }))
run s t Move.retry = down s t
run s t Move.enter = do
  l ← take_hold s.lock t
  let s' = record s { lock = l }
  done (at s' t Phase.holding)
run s t Move.release = do
  (l, free) ← let_go s.lock t
  let s' = record s { lock = l }
  done (at s' t (if free then Phase.leaving else Phase.holding))
run s t Move.signal = do
  (sema, blocked) ← sema_up s.lock.semaphore
  let l = s.lock
  let s' = record s { lock = record l { semaphore = sema } }
  done (wake (at s' t Phase.outside) blocked)

-- The moves that the code of a thread allows where it stands. A thread that holds the lock may take
-- it again, fewer than 2 ^ 32 times.
abbrev pub can : Phase → Move → Bool
can Phase.outside Move.acquire = true
can Phase.holding Move.acquire = true
can Phase.woken Move.retry = true
can Phase.entered Move.enter = true
can Phase.holding Move.release = true
can Phase.leaving Move.signal = true
can _ _ = false

abbrev pub start : System
start = record { lock = lock_init; phase = λ t. Phase.outside }

-- what the threads can make of the system by any sequence of moves
pub data Reach : System → Type 0 where
  here : Reach start
  next :
      {s u : System} (t : ℕ) (m : Move)
      → Reach s
      → t ≢ 0
      → can (s.phase t) m ≡ true
      → s.lock.holder_repeat_nr + 1 < 2 ^ 32
      → run s t m ≡ done u
      → Reach u
