-- ===== src/Thread/Switch.antt =====
-- The operations that end in `schedule`: none fails an `ASSERT`, each keeps the invariant, and the
-- processor goes round.
use elephant_os.Base.{
  ℕ, ◌≡◌, refl, ◌∙◌, inl, inr, true, false, List, [], ◌∷◌, ◌++◌, arith, if◌then◌else◌, has,
  List-cases, ==_self, done,
}
use elephant_os.Thread.{
  Status, is_running, is_asleep, Kernel, set_status, requeue, wake_idle, switch_next, schedule,
  thread_block, thread_yield,
}
use elephant_os.Thread.Invariant.{
  IsQueued, IsSane, enqueue, enqueue-IsParked, at_least, requeue_lem, wake_idle_lem,
  switch_next_lem,
}

-- The tasks in the order in which they get the processor, when `schedule` is called.
abbrev pub line : Kernel → List ℕ
line k = at_least k.idle_thread (
    if is_running (k.tasks k.current).status
    then k.thread_ready_list ++ (k.current ∷ [])
    else k.thread_ready_list)

schedule_steps :
    (v2p : ℕ → ℕ) (k k1 k2 k3 : Kernel)
    → k.intr ≡ false
    → requeue k ≡ done k1
    → wake_idle k1 ≡ done k2
    → switch_next v2p k2 ≡ done k3
    → schedule v2p k ≡ done k3
unfolding schedule
schedule_steps v2p k k1 k2 k3 off e1 e2 e3 = ground arith

line_steps :
    (c x i i' : ℕ) (r xs q q' : List ℕ)
    → c ≡ x
    → r ≡ xs
    → x ∷ xs ≡ at_least i q
    → q ≡ q'
    → i ≡ i'
    → c ∷ r ≡ at_least i' q'
line_steps c x i i' r xs q q' e1 e2 e3 e4 e5 = cc

-- With interrupts off and the ready list in order, `schedule` ends, its `ASSERT`s hold, the
-- scheduler is in order again, and the first of the waiting line runs while the rest of the line
-- is the new list.
pub schedule_lem :
    (v2p : ℕ → ℕ) (k : Kernel)
    → IsQueued k
    → k.intr ≡ false
    → (k' : Kernel) × (schedule v2p k ≡ done k')
      × IsSane k'
      × (k'.current ∷ k'.thread_ready_list ≡ line k)
schedule_lem v2p k q off =
    let (k1, e1, p1, l1, i1) = requeue_lem k q in
    let (k2, x, xs, e2, p2, l2, f2) = wake_idle_lem k1 p1 in
    let (k3, e3, s3, c3, r3) = switch_next_lem v2p k2 x xs p2 l2 in
    (k3, schedule_steps v2p k k1 k2 k3 off e1 e2 e3, s3, line_steps _ x _ _ _ xs _ _ c3 r3 f2 l1 i1)

-- the state in which `thread_block` calls `schedule`
abbrev slept : Kernel → Status → Kernel
slept k stat = set_status (record k { intr = false }) k.current stat

line-slept :
    (k : Kernel) (stat : Status)
    → is_asleep stat ≡ true
    → line (slept k stat) ≡ at_least k.idle_thread k.thread_ready_list
line-slept k stat asleep =
    rw ==_self (asleep_line stat asleep k.idle_thread k.thread_ready_list k.current)
  where
    asleep_line :
        (s : Status)
        → is_asleep s ≡ true
        → (i : ℕ) (q : List ℕ) (c : ℕ)
        → at_least i (if is_running s then q ++ (c ∷ []) else q) ≡ at_least i q
    asleep_line Status.running h i q c = cc
    asleep_line _ h i q c = refl

-- the state in which `thread_yield` calls `schedule`
abbrev yielded : Kernel → Kernel
yielded k =
    let v = k.tasks k.current in
    enqueue (record k { intr = false }) k.current (record v { status = Status.ready })

module _ (v2p : ℕ → ℕ) (k : Kernel) (sane : IsSane k) where
  IsQueued-slept : (stat : Status) → is_asleep stat ≡ true → IsQueued (slept k stat)
  IsQueued-slept stat asleep = record {
    once = sane.queued.once;
    exact = λ t. ground (arith, sane.queued.exact t, sane.runs);
    single = λ t r. ground (arith, sane.queued.single t, sane.runs);
    null_dead = ground (arith, sane.queued.null_dead, sane.runs);
    idle_lives = ground (arith, sane.queued.idle_lives, sane.runs);
  }

  -- If the scheduler is in order and the status is one of the three sleeping ones, `thread_block`
  -- ends and leaves the scheduler in order, and the head of the queue, or the idle task if there is none, gets the processor.
  thread_block_lem :
      (stat : Status)
      → is_asleep stat ≡ true
      → (k' : Kernel) × (thread_block v2p k stat ≡ done k')
        × IsSane k'
        × (k'.current ∷ k'.thread_ready_list ≡ at_least k.idle_thread k.thread_ready_list)
  unfolding thread_block
  thread_block_lem stat asleep =
      let (k', e, s, l) = schedule_lem v2p (slept k stat) (IsQueued-slept stat asleep) refl in
      (k', rw asleep e, s, l ∙ line-slept k stat asleep)

  not_queued : has k.current k.thread_ready_list ≡ false
  not_queued = ground (arith, sane.queued.exact k.current, sane.runs)

  IsQueued-quiet : IsQueued (record k { intr = false })
  IsQueued-quiet = record {
    once = sane.queued.once;
    exact = sane.queued.exact;
    single = sane.queued.single;
    null_dead = sane.queued.null_dead;
    idle_lives = sane.queued.idle_lives;
  }

  line-yielded : line (yielded k) ≡ k.thread_ready_list ++ (k.current ∷ [])
  line-yielded =
      rw ==_self (elim (List-cases k.thread_ready_list) [ inl e ↦ rw e | inr (x, xs, e) ↦ rw e ])

  -- If the scheduler is in order, `thread_yield` ends and leaves it in order, sends the current task to the end of the queue, and the
  -- head of the queue (the current task itself, if there is no other) gets the processor.
  thread_yield_lem :
      (k' : Kernel) × (thread_yield v2p k ≡ done k')
      × IsSane k'
      × (k'.current ∷ k'.thread_ready_list ≡ k.thread_ready_list ++ (k.current ∷ []))
  unfolding thread_yield
  thread_yield_lem =
      let v = k.tasks k.current in
      let parked =
        enqueue-IsParked (record k { intr = false }) (record v { status = Status.ready })
          IsQueued-quiet not_queued (ground (arith, sane.runs)) refl in
      let (k', e, s, l) = schedule_lem v2p (yielded k) parked.queued refl in
      (k', rw not_queued e, s, l ∙ line-yielded)
