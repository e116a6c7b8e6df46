-- ===== src/Sync/Tests.antt =====
-- Two threads that want the lock, and instances of the theorems about it.
use elephant_os.Base.{ℕ, ◌≡◌, refl, true, ◌||◌, [], ◌∷◌, done, arith}
use elephant_os.Sync.{lock_init, sema_init, sema_down_round, wants_down}
use elephant_os.Sync.System.{Phase, System, Move, at, run, start, Reach, here, next}
use elephant_os.Sync.Safety.{is_inside, is_woken, with_sema}
use elephant_os.Sync.Mutex.{mutual_exclusion, no_lost_wakeup}

-- thread 1 is past `sema_down`
abbrev first : System
first = at (with_sema start (record { value = 0; waiters = [] })) 1 Phase.entered

-- thread 2 sleeps
abbrev second : System
second = at (with_sema first (record { value = 0; waiters = 2 ∷ [] })) 2 Phase.asleep

first-run : run start 1 Move.acquire ≡ done first
unfolding run wants_down sema_down_round lock_init sema_init
first-run = refl

second-run : run first 2 Move.acquire ≡ done second
unfolding run wants_down sema_down_round lock_init sema_init
second-run = refl

first-Reach : Reach first
unfolding lock_init
first-Reach = next 1 Move.acquire here (omega arith) refl (omega arith) first-run

second-Reach : Reach second
unfolding lock_init
second-Reach = next 2 Move.acquire first-Reach (omega arith) refl (omega arith) second-run

mutual_exclusion_example : ◌≡◌ {A = ℕ} 1 1
mutual_exclusion_example = mutual_exclusion second 1 1 second-Reach refl refl

no_lost_wakeup_example : (u : ℕ) × (is_inside (second.phase u) || is_woken (second.phase u) ≡ true)
no_lost_wakeup_example = no_lost_wakeup second 2 second-Reach refl
