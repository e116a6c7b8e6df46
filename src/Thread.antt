-- ===== src/Thread.antt =====
-- thread/thread.c and the timer interrupt of device/timer.c: tasks and their scheduler.
-- A task is the address of its `task_struct`; `tasks` reads that memory. A queue is the sequence
-- of tasks that LinkedList.Laws.IsList says its links stand for: `list_append` puts a task behind
-- it, `list_push` in front of it. `current` is what `running_thread` finds from the stack pointer,
-- which `switch_to` sets. What follows `schedule()` in a caller runs when the task is switched to
-- again, and so is not part of the step that gives the processor away.
pub mod Invariant
pub mod Switch
pub mod Wake
mod Tests
use elephant_os.Base.{
  ℕ, zero, suc, ◌+◌, ◌-◌, ◌*◌, ◌%◌, ◌^◌, Bool, true, false, ◌||◌, ◌&&◌, not, List, [], ◌∷◌, ◌++◌,
  ◌==◌, if◌then◌else◌, update, has, u32, sub32, Outcome, done, panic, ◌>>=◌, ◌>>◌, assert,
}

-- `enum task_status`
pub data Status : Type 0 where
  running ready blocked waiting hanging died : Status

abbrev pub is_running : Status → Bool
is_running Status.running = true
is_running _ = false

abbrev pub is_ready : Status → Bool
is_ready Status.ready = true
is_ready _ = false

-- the three statuses of a task that does not compete for the processor
abbrev pub is_asleep : Status → Bool
is_asleep Status.blocked = true
is_asleep Status.waiting = true
is_asleep Status.hanging = true
is_asleep _ = false

pub record Task : Type 0 where
  pub self_kstack : ℕ
  pub pid : ℕ
  pub status : Status
  pub priority : ℕ
  pub ticks : ℕ
  pub elapsed_ticks : ℕ
  pub pgdir : ℕ
  pub fd_table : ℕ → ℕ
  pub cwd_inode_nr : ℕ
  pub stack_magic : ℕ

-- `intr` is whether interrupts are on, `clock` the `ticks` of device/timer.c; `cr3` is the register
-- and `esp0` the field of the task state segment (userprog/tss.c).
pub record Kernel : Type 0 where
  pub tasks : ℕ → Task
  pub thread_ready_list : List ℕ
  pub thread_all_list : List ℕ
  pub current : ℕ
  pub idle_thread : ℕ
  pub main_thread : ℕ
  pub next_pid : ℕ
  pub intr : Bool
  pub clock : ℕ
  pub cr3 : ℕ
  pub esp0 : ℕ

abbrev pub set_task : Kernel → ℕ → Task → Kernel
set_task k t v = record k { tasks = update k.tasks t v }

abbrev pub set_status : Kernel → ℕ → Status → Kernel
set_status k t s = let v = k.tasks t in set_task k t (record v { status = s })

-- The interrupt flag is put back at the end.
unfoldable pub thread_unblock : Kernel → ℕ → Outcome Kernel
thread_unblock k pthread = do
  assert (is_asleep (k.tasks pthread).status)
  assert (not (has pthread k.thread_ready_list))
  let k' = record k { thread_ready_list = pthread ∷ k.thread_ready_list }
  done (set_status k' pthread Status.ready)

-- The first part of `schedule`: a task that only used up its time goes to the end of the queue.
unfoldable pub requeue : Kernel → Outcome Kernel
requeue k =
    let cur = k.current in
    let v = k.tasks cur in
    if is_running v.status
    then (do
      assert (not (has cur k.thread_ready_list))
      let k' = record k { thread_ready_list = k.thread_ready_list ++ (cur ∷ []) }
      done (set_task k' cur (record v { ticks = v.priority; status = Status.ready })))
    else done k

unfoldable pub wake_idle : Kernel → Outcome Kernel
wake_idle k = elim (k.thread_ready_list) [ [] ↦ thread_unblock k k.idle_thread | x ∷ xs ↦ done k ]

-- userprog/process.c and userprog/tss.c: what `schedule` does for the address space of a task.
-- `v2p` is `addr_v2p` under the page tables of the moment (Memory).
unfoldable pub update_tss_esp : Kernel → ℕ → Kernel
update_tss_esp k pthread = record k { esp0 = u32 (pthread + 4096) }

unfoldable pub page_dir_activate : (ℕ → ℕ) → Kernel → ℕ → Kernel
page_dir_activate v2p k p_thread =
    let dir = (k.tasks p_thread).pgdir in record k { cr3 = if dir == 0 then 0x100000 else v2p dir }

unfoldable pub process_activate : (ℕ → ℕ) → Kernel → ℕ → Outcome Kernel
process_activate v2p k p_thread = do
  assert (not (p_thread == 0))
  let k' = page_dir_activate v2p k p_thread
  done (if (k.tasks p_thread).pgdir == 0 then k' else update_tss_esp k' p_thread)

-- `process_activate(next)` and `switch_to(cur, next)`
unfoldable pub switch_to : (ℕ → ℕ) → Kernel → ℕ → Outcome Kernel
switch_to v2p k next = do k' ← process_activate v2p k next; done (record k' { current = next })

-- The last part of `schedule`. The queue is not empty here; `Switch` shows it.
unfoldable pub switch_next : (ℕ → ℕ) → Kernel → Outcome Kernel
switch_next v2p k = elim (k.thread_ready_list) [
  | [] ↦ panic
  | next ∷ rest ↦
      let k' = set_status (record k { thread_ready_list = rest }) next Status.running in
      switch_to v2p k' next
]

unfoldable pub schedule : (ℕ → ℕ) → Kernel → Outcome Kernel
schedule v2p k = do assert (not k.intr); k1 ← requeue k; k2 ← wake_idle k1; switch_next v2p k2

unfoldable pub thread_block : (ℕ → ℕ) → Kernel → Status → Outcome Kernel
thread_block v2p k stat = do
  assert (is_asleep stat)
  let k' = record k { intr = false }
  schedule v2p (set_status k' k.current stat)

unfoldable pub thread_yield : (ℕ → ℕ) → Kernel → Outcome Kernel
thread_yield v2p k = do
  let k' = record k { intr = false }
  assert (not (has k.current k.thread_ready_list))
  let k'' = record k' { thread_ready_list = k.thread_ready_list ++ (k.current ∷ []) }
  schedule v2p (set_status k'' k.current Status.ready)

abbrev pub stack_guard : ℕ
stack_guard = 0x19870916

-- `intr_timer_handler`; interrupts are off in a handler.
unfoldable pub intr_timer_handler : (ℕ → ℕ) → Kernel → Outcome Kernel
intr_timer_handler v2p k = do
  let v = k.tasks k.current
  assert (v.stack_magic == stack_guard)
  let v' = record v { elapsed_ticks = u32 (v.elapsed_ticks + 1) }
  let k' = record k { clock = u32 (k.clock + 1); intr = false }
  let k1 = set_task k' k.current v'
  if v'.ticks == 0
      then schedule v2p k1
      else done (set_task k1 k.current (record v' { ticks = v'.ticks - 1 }))

-- `memset`, `allocate_pid` and the assignments of `init_thread`, for the page at `pthread`. `-1` in
-- `fd_table` is `2 ^ 32 - 1`. The name is not kept.
unfoldable pub init_thread : Kernel → ℕ → ℕ → Kernel
init_thread k pthread prio =
    let pid = (k.next_pid + 1) % 2 ^ 16 in
    let k' = record k { next_pid = pid } in
    set_task k' pthread (record {
      self_kstack = u32 (pthread + 4096);
      pid = pid;
      status = if pthread == k.main_thread then Status.running else Status.ready;
      priority = prio % 256;
      ticks = prio % 256;
      elapsed_ticks = 0;
      pgdir = 0;
      fd_table =
          λ fd. if fd == 0 then 0 else if fd == 1 then 1 else if fd == 2 then 2 else (2 ^ 32 - 1);
      cwd_inode_nr = 0;
      stack_magic = stack_guard;
    })

-- `self_kstack` is a `uint32_t *`, so that the sizes of `struct intr_stack` and `struct thread_stack`,
-- 76 and 32, count words; the frame's content is not kept.
unfoldable pub thread_create : Kernel → ℕ → Kernel
thread_create k pthread =
    let v = k.tasks pthread in
    set_task k pthread (record v { self_kstack = sub32 (sub32 v.self_kstack (4 * 76)) (4 * 32) })

-- `thread` is the page that `get_kernel_pages(1)` returns.
unfoldable pub thread_start : Kernel → ℕ → ℕ → Outcome Kernel
thread_start k thread prio = do
  let k1 = thread_create (init_thread k thread prio) thread
  assert (not (has thread k1.thread_ready_list))
  assert (not (has thread k1.thread_all_list))
  done (record k1 {
    thread_ready_list = k1.thread_ready_list ++ (thread ∷ []);
    thread_all_list = k1.thread_all_list ++ (thread ∷ []);
  })
