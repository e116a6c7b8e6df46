-- ===== src/Thread/Tests.antt =====
-- Three tasks, and instances of the theorems about the scheduler.
use elephant_os.Base.{ℕ, ◌≡◌, refl, false, [], ◌∷◌, ◌==◌, arith, if◌then◌else◌, done}
use elephant_os.Thread.{Status, Task, Kernel, schedule, stack_guard}
use elephant_os.Thread.Invariant.{IsSane}
use elephant_os.Thread.Switch.{line, schedule_lem}

abbrev task : Status → ℕ → Task
task s left = record {
  self_kstack = 0;
  pid = 1;
  status = s;
  priority = 31;
  ticks = left;
  elapsed_ticks = 5;
  pgdir = 0;
  fd_table = λ fd. fd;
  cwd_inode_nr = 0;
  stack_magic = stack_guard;
}

-- 100 runs, 200 is ready, 300 is the idle task and sleeps.
abbrev kernel : Kernel
kernel = record {
  tasks = λ t.
      if t == 100
      then task Status.running 0
      else if t == 200
      then task Status.ready 3
      else if t == 300
      then task Status.blocked 3
      else task Status.died 0;
  thread_ready_list = 200 ∷ [];
  thread_all_list = 100 ∷ 200 ∷ 300 ∷ [];
  current = 100;
  idle_thread = 300;
  main_thread = 100;
  next_pid = 3;
  intr = false;
  clock = 7;
  cr3 = 0x100000;
  esp0 = 0;
}

kernel-IsSane : IsSane kernel
kernel-IsSane = record {
  queued = record {
    once = (refl, tt);
    exact = λ t. ground arith;
    single = λ t r. ground arith;
    null_dead = refl;
    idle_lives = λ e. cc;
  };
  runs = refl;
}

schedule_lem_example :
    (k : Kernel) × (schedule (λ a. a) kernel ≡ done k)
    × IsSane k
    × (k.current ∷ k.thread_ready_list ≡ line kernel)
schedule_lem_example = schedule_lem (λ a. a) kernel (kernel-IsSane.queued) refl
