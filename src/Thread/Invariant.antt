-- ===== src/Thread/Invariant.antt =====
-- The invariant of the scheduler, and that no operation fails an `ASSERT` or breaks it.
use elephant_os.Base.{
  ℕ, ◌+◌, ◌≡◌, refl, ◌≢◌, inl, inr, true, false, List, [], ◌∷◌, ◌++◌, ◌==◌, arith, if◌then◌else◌,
  has, u32, Bool-cases, List-cases, ==_self, done,
}
use elephant_os.LinkedList.Linked.{Distinct, has-append}
use mathlib.Core.Path.{subst}
use elephant_os.Thread.{
  Status, is_running, is_ready, is_asleep, Task, Kernel, set_task, set_status, thread_unblock,
  requeue, wake_idle, switch_next, switch_to, process_activate, page_dir_activate, update_tss_esp,
}

-- The queue holds exactly the ready tasks, each once; no task but the current one is running; nothing
-- at address 0 is a task, and the idle task is not dead. Between two steps of the scheduler the current task is running.
pub record IsQueued (k : Kernel) : Type 0 where
  pub once : Distinct k.thread_ready_list
  pub exact : (t : ℕ) → has t k.thread_ready_list ≡ is_ready (k.tasks t).status
  pub single : (t : ℕ) → is_running (k.tasks t).status ≡ true → t ≡ k.current
  pub null_dead : (k.tasks 0).status ≡ Status.died
  pub idle_lives : (k.tasks k.idle_thread).status ≢ Status.died

pub record IsSane (k : Kernel) : Type 0 where
  pub queued : IsQueued k
  pub runs : (k.tasks k.current).status ≡ Status.running

pub Distinct-snoc :
    (x : ℕ) (xs : List ℕ) → Distinct xs → has x xs ≡ false → Distinct (xs ++ (x ∷ []))
Distinct-snoc x [] d out = (refl, tt)
Distinct-snoc x (y ∷ xs) d out =
    (ground (arith, has-append y xs (x ∷ [])), Distinct-snoc x xs d.1 (ground arith))

-- After `requeue` no task is running.
pub record IsParked (k : Kernel) : Type 0 where
  pub queued : IsQueued k
  pub none_runs : (t : ℕ) → is_running (k.tasks t).status ≡ false

-- A task that is not in the queue goes to its end as ready, with its other fields at will.
abbrev pub enqueue : Kernel → ℕ → Task → Kernel
enqueue k t v = set_task (record k { thread_ready_list = k.thread_ready_list ++ (t ∷ []) }) t v

pub enqueue-IsParked :
    (k : Kernel) (v : Task)
    → IsQueued k
    → has k.current k.thread_ready_list ≡ false
    → (k.tasks k.current).status ≢ Status.died
    → v.status ≡ Status.ready
    → IsParked (enqueue k k.current v)
enqueue-IsParked k v q out lives e = record {
  queued = record {
    once = Distinct-snoc k.current k.thread_ready_list q.once out;
    exact = λ t. ground (arith, has-append t k.thread_ready_list (k.current ∷ []), q.exact t);
    single = λ t r. ground (arith, q.single t);
    null_dead = ground (arith, q.null_dead);
    idle_lives = ground (arith, q.idle_lives);
  };
  none_runs = λ t. ground (arith, q.single t);
}

pub requeue_lem :
    (k : Kernel)
    → IsQueued k
    → (k' : Kernel) × (requeue k ≡ done k')
      × IsParked k'
      × (k'.thread_ready_list ≡ (
          if is_running (k.tasks k.current).status
          then k.thread_ready_list ++ (k.current ∷ [])
          else k.thread_ready_list))
      × (k'.idle_thread ≡ k.idle_thread)
unfolding requeue
requeue_lem k q = elim (Bool-cases (is_running (k.tasks k.current).status)) [
  | inl r ↦
      let v = k.tasks k.current in
      let out : has k.current k.thread_ready_list ≡ false = ground (arith, q.exact k.current) in
      (
        enqueue k k.current (record v { ticks = v.priority; status = Status.ready }),
        rw (r, out),
        enqueue-IsParked k (record v { ticks = v.priority; status = Status.ready }) q out
            (ground arith) refl,
        rw r,
        refl,
      )
  | inr n ↦
      (k, rw n, record { queued = q; none_runs = λ t. ground (arith, q.single t) }, rw n, refl)
]

-- a queue, or the idle task if it is empty
abbrev pub at_least : ℕ → List ℕ → List ℕ
at_least idle [] = idle ∷ []
at_least idle (x ∷ xs) = x ∷ xs

pub wake_idle_lem :
    (k : Kernel)
    → IsParked k
    → (k' : Kernel) × (x : ℕ) × (xs : List ℕ) × (wake_idle k ≡ done k')
      × IsParked k'
      × (k'.thread_ready_list ≡ x ∷ xs)
      × (x ∷ xs ≡ at_least k.idle_thread k.thread_ready_list)
unfolding wake_idle thread_unblock
wake_idle_lem k p = elim (List-cases k.thread_ready_list) [
  | inl e ↦
      let i = k.idle_thread in
      let asleep : is_asleep (k.tasks i).status ≡ true =
        ground (arith, p.queued.exact i, p.none_runs i, p.queued.idle_lives) in
      (
        set_status (record k { thread_ready_list = i ∷ k.thread_ready_list }) i Status.ready,
        i,
        k.thread_ready_list,
        rw (e, asleep),
        record {
          queued = record {
            once = (ground (arith, p.queued.exact i), p.queued.once);
            exact = λ t. ground (arith, p.queued.exact t);
            single = λ t r. ground (arith, p.none_runs t);
            null_dead = ground (arith, p.queued.null_dead);
            idle_lives = ground arith;
          };
          none_runs = λ t. ground (arith, p.none_runs t);
        },
        refl,
        rw e,
      )
  | inr (x, xs, e) ↦ (k, x, xs, rw e, p, e, rw e)
]

-- The state after the head `x` of the queue is given the processor.
abbrev switched : Kernel → ℕ → List ℕ → ℕ → ℕ → Kernel
switched k x xs c e = record (set_status (record k { thread_ready_list = xs }) x Status.running) {
  current = x;
  cr3 = c;
  esp0 = e;
}

switched-IsSane :
    (k : Kernel) (x : ℕ) (xs : List ℕ) (c e : ℕ)
    → IsParked k
    → k.thread_ready_list ≡ x ∷ xs
    → IsSane (switched k x xs c e)
switched-IsSane k x xs c e p q =
    let once : Distinct (x ∷ xs) = subst Distinct q p.queued.once in
    record {
      queued = record {
        once = once.1;
        exact = λ t. ground (arith, p.queued.exact t);
        single = λ t r. ground (arith, p.none_runs t);
        null_dead = ground (arith, p.queued.null_dead, p.queued.exact 0);
        idle_lives = ground (arith, p.queued.idle_lives);
      };
      runs = ground arith;
    }

pub switch_next_lem :
    (v2p : ℕ → ℕ) (k : Kernel) (x : ℕ) (xs : List ℕ)
    → IsParked k
    → k.thread_ready_list ≡ x ∷ xs
    → (k' : Kernel) × (switch_next v2p k ≡ done k')
      × IsSane k'
      × (k'.current ≡ x)
      × (k'.thread_ready_list ≡ xs)
unfolding switch_next switch_to process_activate page_dir_activate update_tss_esp
switch_next_lem v2p k x xs p e =
    let there : (x == 0) ≡ false = ground (arith, p.queued.null_dead, p.queued.exact 0) in
    elim (Bool-cases ((k.tasks x).pgdir == 0)) [
      | inl kernel ↦
          let s = switched k x xs 0x100000 k.esp0 in
          (s, rw e (rw (there, ==_self x, kernel)), switched-IsSane k x xs _ _ p e, refl, refl)
      | inr user ↦
          let s = switched k x xs (v2p (k.tasks x).pgdir) (u32 (x + 4096)) in
          (s, rw e (rw (there, ==_self x, user)), switched-IsSane k x xs _ _ p e, refl, refl)
    ]
