-- ===== src/Sync.antt =====
-- thread/sync.c: semaphores and locks. A thread is the address of its task, never 0. With the
-- interrupts off, each round of `sema_down`, and `sema_up`, is one step; `lock_acquire` and
-- `lock_release` are interrupted before and after them, so Sync.System takes them in parts.
pub mod System
pub mod Safety
pub mod Mutex
mod Tests
use elephant_os.Base.{
  ℕ, zero, suc, ◌+◌, ◌-◌, Bool, true, false, not, List, [], ◌∷◌, ◌++◌, Option, none, some, ◌==◌,
  ltb, if◌then◌else◌, has, u32, Outcome, done, panic, ◌>>=◌, ◌>>◌, assert,
}

pub record Semaphore : Type 0 where
  pub value : ℕ
  pub waiters : List ℕ

pub record Lock : Type 0 where
  pub holder : ℕ
  pub semaphore : Semaphore
  pub holder_repeat_nr : ℕ

unfoldable pub sema_init : ℕ → Semaphore
sema_init value = record { value = value; waiters = [] }

unfoldable pub lock_init : Lock
lock_init = record { holder = 0; semaphore = sema_init 1; holder_repeat_nr = 0 }

-- One round of the loop of `sema_down` by the running thread. `true`: it is through. `false`: it is
-- at the end of the waiters and blocks, to run the next round when it is woken.
unfoldable pub sema_down_round : Semaphore → ℕ → Outcome (Semaphore × Bool)
sema_down_round psema running =
    if psema.value == 0
    then (do
      assert (not (has running psema.waiters))
      done (record psema { waiters = psema.waiters ++ (running ∷ []) }, false))
    else (do assert (psema.value - 1 == 0); done (record psema { value = psema.value - 1 }, true))

-- `sema_up`, with the thread that it hands to `thread_unblock`.
unfoldable pub sema_up : Semaphore → Outcome (Semaphore × Option ℕ)
sema_up psema = do
  assert (psema.value == 0)
  let value = psema.value + 1
  assert (value == 1)
  elim (psema.waiters) [
    | [] ↦ done (record psema { value = value }, none)
    | blocked ∷ rest ↦ done (record { value = value; waiters = rest }, some blocked)
  ]

-- `lock_acquire`: the test, what follows `sema_down`, and the other branch.
unfoldable pub wants_down : Lock → ℕ → Bool
wants_down plock running = not (plock.holder == running)

unfoldable pub take_hold : Lock → ℕ → Outcome Lock
take_hold plock running = do
  assert (plock.holder_repeat_nr == 0)
  done (record plock { holder = running; holder_repeat_nr = 1 })

unfoldable pub hold_again : Lock → Lock
hold_again plock = record plock { holder_repeat_nr = u32 (plock.holder_repeat_nr + 1) }

-- `lock_release` up to `sema_up`, which is called if the result is `true`.
unfoldable pub let_go : Lock → ℕ → Outcome (Lock × Bool)
let_go plock running = do
  assert (plock.holder == running)
  if ltb 1 plock.holder_repeat_nr
      then done (record plock { holder_repeat_nr = plock.holder_repeat_nr - 1 }, false)
      else (do
        assert (plock.holder_repeat_nr == 1)
        done (record plock { holder = 0; holder_repeat_nr = 0 }, true))
