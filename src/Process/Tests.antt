-- ===== src/Process/Tests.antt =====
-- Instances of the theorems about processes.
use elephant_os.Base.{
  ℕ, ◌+◌, ◌-◌, ◌*◌, ◌/◌, ◌%◌, ◌^◌, ◌<◌, ◌≤◌, ◌≡◌, ◌⊎◌, refl, true, false, Option, some, [], ◌∷◌,
  leb, if◌then◌else◌, arith, Outcome, done, panic,
}
use elephant_os.Base.Bits.{bit_set}
use elephant_os.Bitmap.{
  Bitmap, bitmap_scan_test, bitmap_scan, skip_full, first_zero, find_run, scan_from, bitmap_set,
}
use elephant_os.Bitmap.Set.{IsValid}
use elephant_os.Memory.{
  PoolFlags, Memory, Pool, with_flags, pte_ptr, pde_ptr, palloc, page_table_add, addr_v2p, set_bits,
  vaddr_take, vaddr_get,
}
use elephant_os.Memory.Alloc.{map_pages, malloc_page}
use elephant_os.Thread.{
  Task, Status, Kernel, init_thread, thread_create, update_tss_esp, stack_guard,
}
use elephant_os.Process.{IntrStack, create_page_dir, start_process}
use elephant_os.Process.Space.{create_page_dir_lem}
use elephant_os.Process.Entry.{CanEnter, start_process_lem}

abbrev clear_map : Bitmap
clear_map = record { btmp_bytes_len = 8; bits = λ i. 0 }

clear_map-IsValid : IsValid clear_map
clear_map-IsValid = record { bytes = λ i. omega arith; small = omega arith }

-- A kernel thread; the tables of kernel pages are present, and 64 pages are in each pool.
abbrev machine : Memory
machine = record {
  kernel_pool = record { pool_bitmap = clear_map; phy_addr_start = 0x200000; pool_size = 0x40000 };
  user_pool = record { pool_bitmap = clear_map; phy_addr_start = 0x240000; pool_size = 0x40000 };
  kernel_vaddr = record { vaddr_bitmap = clear_map; vaddr_start = 0xc0100000 };
  userprog_vaddr = record { vaddr_bitmap = clear_map; vaddr_start = 0x8048000 };
  has_pgdir = false;
  words = λ a. if leb 0xfffffc00 a then 7 else 0;
}

abbrev memory_of : Outcome (Option ℕ × Memory) → Memory
memory_of (done (page, m)) = m
memory_of panic = machine

abbrev one_page : Memory
one_page = memory_of (malloc_page machine PoolFlags.pf_kernel 1)

machine_page : malloc_page machine PoolFlags.pf_kernel 1 ≡ done (some 0xc0100000, one_page)
unfolding malloc_page vaddr_get vaddr_take set_bits map_pages palloc page_table_add pde_ptr pte_ptr
    bitmap_scan scan_from skip_full first_zero find_run bitmap_scan_test bitmap_set bit_set
machine_page = refl

create_page_dir_lem_example :
    (m' : Memory) × (create_page_dir machine ≡ done (some 0xc0100000, m'))
    × ((i : ℕ) → i < 768 → m'.words (0xc0100000 + i * 4) ≡ 0)
    × ((i : ℕ)
        → 768 ≤ i
        → i < 1023
        → m'.words (0xc0100000 + i * 4) ≡ one_page.words (0xfffff000 + i * 4))
    × (m'.words (0xc0100000 + 1023 * 4) ≡ with_flags (addr_v2p one_page.words 0xc0100000))
    × ((a : ℕ) → (a < 0xc0100000) ⊎ (0xc0100000 + 4096 ≤ a) → m'.words a ≡ one_page.words a)
create_page_dir_lem_example =
    create_page_dir_lem machine one_page 0xc0100000 machine_page (omega arith)

-- the process that runs at 0xc0100000, with its directory
abbrev process : Memory
process = record machine {
  userprog_vaddr = record {
    vaddr_bitmap = record { btmp_bytes_len = 94199; bits = λ i. 0 };
    vaddr_start = 0x8048000;
  };
  has_pgdir = true;
}

abbrev pool_after : Outcome (Option ℕ × Pool) → Pool
pool_after (done (page, p)) = p
pool_after panic = machine.kernel_pool

process-CanEnter :
    CanEnter process 0x240000 0x200000
      (pool_after (palloc machine.user_pool))
      (pool_after (palloc machine.kernel_pool))
unfolding palloc bitmap_scan scan_from skip_full first_zero find_run bitmap_scan_test bitmap_set
    bit_set pde_ptr
process-CanEnter = record {
  process = refl;
  map_start = refl;
  map = record { bytes = λ i. omega arith; small = omega arith };
  user_page = refl;
  aligned = refl;
  no_table = refl;
  table_page = refl;
}

abbrev task : Task
task = record {
  self_kstack = 0;
  pid = 0;
  status = Status.died;
  priority = 0;
  ticks = 0;
  elapsed_ticks = 0;
  pgdir = 0;
  fd_table = λ fd. 0;
  cwd_inode_nr = 0;
  stack_magic = stack_guard;
}

abbrev kernel : Kernel
kernel = record {
  tasks = λ t. task;
  thread_ready_list = [];
  thread_all_list = 100 ∷ [];
  current = 100;
  idle_thread = 300;
  main_thread = 100;
  next_pid = 3;
  intr = false;
  clock = 7;
  cr3 = 0x100000;
  esp0 = 0;
}

abbrev blank : IntrStack
blank = record {
  vec_no = 0;
  edi = 0;
  esi = 0;
  ebp = 0;
  esp_dummy = 0;
  ebx = 0;
  edx = 0;
  ecx = 0;
  eax = 0;
  gs = 0;
  fs = 0;
  es = 0;
  ds = 0;
  err_code = 0;
  eip = 0;
  cs = 0;
  eflags = 0;
  esp = 0;
  ss = 0;
}

start_process_lem_example :
    (f : IntrStack) × (k' : Kernel) × (m' : Memory) × (start_process process
        (record (thread_create (init_thread kernel 0xc0100000 31) 0xc0100000) {
          current = 0xc0100000;
        })
        blank
        0x8048100
      ≡ done (f, k', m'))
    × ((k'.tasks 0xc0100000).self_kstack + 76 + 228 ≡ (update_tss_esp k' 0xc0100000).esp0)
    × (f.cs % 4 ≡ 3)
    × (f.ss % 4 ≡ 3)
    × (f.eflags / 2 ^ 9 % 2 ≡ 1)
    × (f.eip ≡ 0x8048100)
    × (addr_v2p m'.words (f.esp - 4) ≡ 0x240000 + 4092)
start_process_lem_example =
    start_process_lem process kernel 0xc0100000 31 0x8048100 0x240000 0x200000
      (pool_after (palloc machine.user_pool)) (pool_after (palloc machine.kernel_pool)) blank
      process-CanEnter (omega arith)
