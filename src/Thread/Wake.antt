-- ===== src/Thread/Wake.antt =====
-- Waking a task, starting one, and the timer interrupt.
use elephant_os.Base.{
  ℕ, ◌+◌, ◌-◌, ◌≡◌, refl, ◌∙◌, ◌≢◌, inl, inr, true, false, [], ◌∷◌, ◌++◌, ◌==◌, arith,
  if◌then◌else◌, has, u32, Bool-cases, List-cases, ==_self, ==_of_ne, done,
}
use elephant_os.LinkedList.Linked.{has-append}
use elephant_os.Thread.{
  Status, is_running, is_asleep, Kernel, set_task, set_status, thread_unblock, stack_guard,
  intr_timer_handler, init_thread, thread_create, thread_start,
}
use elephant_os.Thread.Invariant.{IsQueued, IsSane, Distinct-snoc}
use elephant_os.Thread.Switch.{line, schedule_lem}

module _ (k : Kernel) (sane : IsSane k) where
  -- If the scheduler is in order, `thread_unblock` on a sleeping task passes its `ASSERT`s, puts the task at the head of the queue,
  -- leaves the current task running and keeps the invariant.
  thread_unblock_lem :
      (t : ℕ)
      → is_asleep (k.tasks t).status ≡ true
      → (k' : Kernel) × (thread_unblock k t ≡ done k')
        × IsSane k'
        × (k'.current ≡ k.current)
        × (k'.thread_ready_list ≡ t ∷ k.thread_ready_list)
  unfolding thread_unblock
  thread_unblock_lem t asleep =
      let out : has t k.thread_ready_list ≡ false = ground (arith, sane.queued.exact t) in
      (
        set_status (record k { thread_ready_list = t ∷ k.thread_ready_list }) t Status.ready,
        rw (asleep, out),
        record {
          queued = record {
            once = (out, sane.queued.once);
            exact = λ u. ground (arith, sane.queued.exact u);
            single = λ u r. ground (arith, sane.queued.single u);
            null_dead = ground (arith, sane.queued.null_dead);
            idle_lives = ground (arith, sane.queued.idle_lives);
          };
          runs = ground (arith, sane.runs);
        },
        refl,
        refl,
      )

  -- If the scheduler is in order, `thread_start` on a page that is not null, not the main or the
  -- current task and in neither queue passes its `ASSERT`s, puts the new task at the end
  -- of both queues and keeps the invariant.
  thread_start_lem :
      (t prio : ℕ)
      → t ≢ 0
      → t ≢ k.main_thread
      → t ≢ k.current
      → has t k.thread_ready_list ≡ false
      → has t k.thread_all_list ≡ false
      → (k' : Kernel) × (thread_start k t prio ≡ done k')
        × IsSane k'
        × (k'.thread_ready_list ≡ k.thread_ready_list ++ (t ∷ []))
        × (k'.thread_all_list ≡ k.thread_all_list ++ (t ∷ []))
  unfolding thread_start thread_create init_thread
  thread_start_lem t prio some_page no_main no_cur out out' =
      let k1 = thread_create (init_thread k t prio) t in
      let fresh : (t == k.main_thread) ≡ false = ==_of_ne t k.main_thread no_main in
      (
        record k1 {
          thread_ready_list = k.thread_ready_list ++ (t ∷ []);
          thread_all_list = k.thread_all_list ++ (t ∷ []);
        },
        rw (out, out'),
        record {
          queued = record {
            once = Distinct-snoc t k.thread_ready_list sane.queued.once out;
            exact =
                λ u. ground (arith, sane.queued.exact u, has-append u k.thread_ready_list (t ∷ []));
            single = λ u r. ground (arith, sane.queued.single u);
            null_dead = ground (arith, sane.queued.null_dead);
            idle_lives = ground (arith, sane.queued.idle_lives);
          };
          runs = ground (arith, sane.runs);
        },
        refl,
        refl,
      )

-- The state in which the timer calls `schedule`, or counts the time of the task.
abbrev ticked : Kernel → Kernel
ticked k =
    let v = k.tasks k.current in
    set_task (record k { clock = u32 (k.clock + 1); intr = false }) k.current
      (record v { elapsed_ticks = u32 (v.elapsed_ticks + 1) })

abbrev counted : Kernel → Kernel
counted k =
    let v = k.tasks k.current in
    set_task (ticked k) k.current
      (record v { elapsed_ticks = u32 (v.elapsed_ticks + 1); ticks = v.ticks - 1 })

module _ (v2p : ℕ → ℕ) (k : Kernel) (sane : IsSane k)
    (guarded : ((k.tasks k.current).stack_magic == stack_guard) ≡ true) where
  IsQueued-ticked : IsQueued (ticked k)
  IsQueued-ticked = record {
    once = sane.queued.once;
    exact = λ t. ground (arith, sane.queued.exact t);
    single = λ t r. ground (arith, sane.queued.single t);
    null_dead = ground (arith, sane.queued.null_dead);
    idle_lives = ground (arith, sane.queued.idle_lives);
  }

  IsSane-counted : IsSane (counted k)
  IsSane-counted = record {
    queued = record {
      once = sane.queued.once;
      exact = λ t. ground (arith, sane.queued.exact t);
      single = λ t r. ground (arith, sane.queued.single t);
      null_dead = ground (arith, sane.queued.null_dead);
      idle_lives = ground (arith, sane.queued.idle_lives);
    };
    runs = ground (arith, sane.runs);
  }

  line-ticked : line (ticked k) ≡ k.thread_ready_list ++ (k.current ∷ [])
  line-ticked =
      let runs : is_running (k.tasks k.current).status ≡ true = ground (arith, sane.runs) in
      rw (==_self, runs)
        (elim (List-cases k.thread_ready_list) [ inl e ↦ rw e | inr (x, xs, e) ↦ rw e ])

  -- If the scheduler is in order and the guard of the current task's stack is intact, the timer's
  -- handler ends and leaves the scheduler in order: it takes one tick from a task that has ticks left, which goes on running; a task with
  -- none left goes to the end of the queue and the head of the queue gets the processor.
  intr_timer_handler_lem :
      (k' : Kernel) × (intr_timer_handler v2p k ≡ done k')
      × IsSane k'
      × (k'.current ∷ k'.thread_ready_list ≡ (
          if (k.tasks k.current).ticks == 0
          then k.thread_ready_list ++ (k.current ∷ [])
          else k.current ∷ k.thread_ready_list))
  unfolding intr_timer_handler
  intr_timer_handler_lem = elim (Bool-cases ((k.tasks k.current).ticks == 0)) [
    | inl out ↦
        let (k', e, s, l) = schedule_lem v2p (ticked k) IsQueued-ticked refl in
        (k', rw (guarded, out) e, s, rw out (l ∙ line-ticked))
    | inr left ↦ (counted k, rw (guarded, left), IsSane-counted, rw left)
  ]
