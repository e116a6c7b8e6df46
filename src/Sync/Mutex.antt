-- ===== src/Sync/Mutex.antt =====
-- The lock over all interleavings: no `ASSERT` fails, one thread at most is inside, none is forgotten.
use elephant_os.Base.{
  ℕ, ◌+◌, ◌-◌, ◌<◌, ◌^◌, ◌≡◌, refl, sym, ◌∙◌, ◌≢◌, inl, inr, true, false, ◌||◌, List, [], ◌∷◌, none,
  some, ◌==◌, arith, ltb, u32, done, Bool-cases, List-cases,
}
use mathlib.Core.Path.{subst}
use elephant_os.Sync.{Semaphore, sema_up, wants_down, take_hold, hold_again, let_go}
use elephant_os.Sync.System.{Phase, System, Move, at, run, can, Reach, here, next}
use elephant_os.Sync.Safety.{
  is_inside, is_asleep, is_woken, IsSafe, start-IsSafe, with_sema, with_lock, down_lem, again_lem,
  enter_lem, fewer_lem, leave_lem, free_lem, wake_lem,
}

sema_up-none :
    (p : Semaphore)
    → p.value ≡ 0
    → p.waiters ≡ []
    → sema_up p ≡ done (record { value = 1; waiters = p.waiters }, none)
unfolding sema_up
sema_up-none p v w = ground arith

sema_up-some :
    (p : Semaphore) (b : ℕ) (rest : List ℕ)
    → p.value ≡ 0
    → p.waiters ≡ b ∷ rest
    → sema_up p ≡ done (record { value = 1; waiters = rest }, some b)
unfolding sema_up
sema_up-some p b rest v w = ground arith

module _ (s : System) (safe : IsSafe s) (t : ℕ) (ne : t ≢ 0) where
  acquire_outside :
      s.phase t ≡ Phase.outside → (u : System) × (run s t Move.acquire ≡ done u) × IsSafe u
  unfolding run wants_down
  acquire_outside e =
      let other : (s.lock.holder == t) ≡ false = ground (arith, safe.holds t) in
      rw other (down_lem s safe t ne (ground arith) (ground arith))

  acquire_holding :
      s.phase t ≡ Phase.holding
      → s.lock.holder_repeat_nr + 1 < 2 ^ 32
      → (u : System) × (run s t Move.acquire ≡ done u) × IsSafe u
  unfolding run wants_down hold_again
  acquire_holding e small =
      let mine : (s.lock.holder == t) ≡ true = ground (arith, safe.holds t) in
      let sum : u32 (s.lock.holder_repeat_nr + 1) ≡ s.lock.holder_repeat_nr + 1 = omega arith in
      (
        with_lock s s.lock.holder (s.lock.holder_repeat_nr + 1),
        rw (mine, sum),
        again_lem s safe t ne e small,
      )

  enter_entered :
      s.phase t ≡ Phase.entered → (u : System) × (run s t Move.enter ≡ done u) × IsSafe u
  unfolding run take_hold
  enter_entered e =
      let fresh : (s.lock.holder_repeat_nr == 0) ≡ true = ground (arith, safe.counts t) in
      (at (with_lock s t 1) t Phase.holding, rw fresh, enter_lem s safe t ne e)

  release_holding :
      s.phase t ≡ Phase.holding → (u : System) × (run s t Move.release ≡ done u) × IsSafe u
  unfolding run let_go
  release_holding e =
      let mine : (s.lock.holder == t) ≡ true = ground (arith, safe.holds t) in
      elim (Bool-cases (ltb 1 s.lock.holder_repeat_nr)) [
        | inl more ↦ (
          at (with_lock s s.lock.holder (s.lock.holder_repeat_nr - 1)) t Phase.holding,
          rw (mine, more),
          fewer_lem s safe t ne e (ground arith),
        )
        | inr last ↦
            let one : (s.lock.holder_repeat_nr == 1) ≡ true = ground (arith, safe.counted t) in
            (at (with_lock s 0 0) t Phase.leaving, rw (mine, last, one), leave_lem s safe t ne e)
      ]

  signal_leaving :
      s.phase t ≡ Phase.leaving → (u : System) × (run s t Move.signal ≡ done u) × IsSafe u
  unfolding run
  signal_leaving e =
      let taken : s.lock.semaphore.value ≡ 0 = ground (arith, safe.taken t) in
      elim (List-cases s.lock.semaphore.waiters) [
        | inl nobody ↦ (
          at (with_sema s (record { value = 1; waiters = s.lock.semaphore.waiters })) t
              Phase.outside,
          rw (sema_up-none s.lock.semaphore taken nobody),
          free_lem s safe t ne e nobody,
        )
        | inr (b, rest, waits) ↦ (
          at (at (with_sema s (record { value = 1; waiters = rest })) t Phase.outside) b
              Phase.woken,
          rw (sema_up-some s.lock.semaphore b rest taken waits),
          wake_lem s safe t ne b rest e waits,
        )
      ]

  retry_woken : s.phase t ≡ Phase.woken → (u : System) × (run s t Move.retry ≡ done u) × IsSafe u
  unfolding run
  retry_woken e = down_lem s safe t ne (ground arith) (ground arith)

-- In a safe system every move that a thread can make passes all `ASSERT`s of the code that it runs
-- and leaves the system safe.
run-IsSafe :
    (s : System) (t : ℕ) (m : Move)
    → IsSafe s
    → t ≢ 0
    → can (s.phase t) m ≡ true
    → s.lock.holder_repeat_nr + 1 < 2 ^ 32
    → (u : System) × (run s t m ≡ done u) × IsSafe u
run-IsSafe s t m safe ne ok small = by_phase (s.phase t) refl m ok
  where
    by_phase :
        (p : Phase)
        → s.phase t ≡ p
        → (m : Move) → can p m ≡ true
        → (u : System) × (run s t m ≡ done u) × IsSafe u
    by_phase Phase.outside e Move.acquire h = acquire_outside s safe t ne e
    by_phase Phase.holding e Move.acquire h = acquire_holding s safe t ne e small
    by_phase Phase.holding e Move.release h = release_holding s safe t ne e
    by_phase Phase.woken e Move.retry h = retry_woken s safe t ne e
    by_phase Phase.entered e Move.enter h = enter_entered s safe t ne e
    by_phase Phase.leaving e Move.signal h = signal_leaving s safe t ne e
    by_phase _ e _ h = cc

done_inj : {A : Type 0} {a b : A} → done a ≡ done b → a ≡ b
done_inj e = cc

pub Reach-IsSafe : {s : System} → Reach s → IsSafe s
Reach-IsSafe here = start-IsSafe
Reach-IsSafe (next {s} t m r ne ok small e) =
    let (u, e', safe) = run-IsSafe s t m (Reach-IsSafe r) ne ok small in
    subst IsSafe (done_inj (sym e' ∙ e)) safe

-- In every system that can be reached, two threads that are past `sema_down` and have not called
-- `sema_up` are the same thread.
pub mutual_exclusion :
    (s : System) (t u : ℕ)
    → Reach s
    → is_inside (s.phase t) ≡ true
    → is_inside (s.phase u) ≡ true
    → t ≡ u
mutual_exclusion s t u r = (Reach-IsSafe r).alone t u

-- In every system that can be reached, if a thread sleeps on the lock then another one is inside,
-- or is woken and about to test the semaphore: no wake-up is lost.
pub no_lost_wakeup :
    (s : System) (t : ℕ)
    → Reach s
    → is_asleep (s.phase t) ≡ true
    → (u : ℕ) × (is_inside (s.phase u) || is_woken (s.phase u) ≡ true)
no_lost_wakeup s t r h = elim ((Reach-IsSafe r).wakes) [
  | inl e ↦ absurd (ground (arith, (Reach-IsSafe r).queue t))
  | inr w ↦ w
]
