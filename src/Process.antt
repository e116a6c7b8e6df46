-- ===== src/Process.antt =====
-- userprog/process.c: the address space and the first frame of a user process. The frame's fields
-- that `start_process` does not write keep what is there.
pub mod Space
pub mod Entry
mod Tests
use elephant_os.Base.{
  ℕ, ◌+◌, ◌-◌, ◌*◌, ◌/◌, ◌^◌, not, Option, none, some, ◌++◌, ◌∷◌, [], List, update, has, u32,
  Outcome, done, ◌>>=◌, ◌>>◌, assert,
}
use elephant_os.Bitmap.{bitmap_init}
use elephant_os.Disk.{copy}
use elephant_os.Format.{div_round_up}
use elephant_os.Memory.{
  PoolFlags, Memory, VirtualAddr, pg_size, or_null, with_flags, addr_v2p, zero_range,
}
use elephant_os.Memory.Alloc.{get_kernel_pages, get_a_page}
use elephant_os.Memory.Heap.{MemBlockDesc, block_desc_init}
use elephant_os.Thread.{Kernel, set_task, init_thread, thread_create}

abbrev pub default_prio : ℕ
default_prio = 31

abbrev pub user_stack3_vaddr : ℕ
user_stack3_vaddr = 0xc0000000 - 0x1000

abbrev pub user_vaddr_start : ℕ
user_vaddr_start = 0x8048000

-- the kernel and its memory, with the address map and the block descriptors of each task
pub record Machine : Type 0 where
  pub kernel : Kernel
  pub memory : Memory
  pub vaddr_of : ℕ → VirtualAddr
  pub u_block_desc : ℕ → List MemBlockDesc

-- The page table entries of the kernel are copied as words.
unfoldable pub create_page_dir : Memory → Outcome (Option ℕ × Memory)
create_page_dir m = do
  (page_dir_vaddr, m1) ← get_kernel_pages m 1
  elim page_dir_vaddr [
    | none ↦ done (none, m1)
    | some dir ↦
        let kernel_entries : ℕ → ℕ = λ x. m1.words (0xfffff000 + 0x300 * 4 + x) in
        let copied = copy m1.words (dir + 0x300 * 4) kernel_entries 1024 in
        let new_page_dir_phy_addr = addr_v2p copied dir in
        let w = update copied (dir + 1023 * 4) (with_flags new_page_dir_phy_addr) in
        done (some dir, record m1 { words = w })
  ]

abbrev pub user_map_len : ℕ
user_map_len = (0xc0000000 - user_vaddr_start) / pg_size / 8

-- The result of `get_kernel_pages` is not tested.
unfoldable pub create_user_vaddr_bitmap : Memory → VirtualAddr → Outcome (VirtualAddr × Memory)
create_user_vaddr_bitmap m old = do
  (bits, m1) ← get_kernel_pages m (div_round_up user_map_len pg_size)
  let b = record old.vaddr_bitmap { btmp_bytes_len = user_map_len }
  done (
    record { vaddr_bitmap = bitmap_init b; vaddr_start = user_vaddr_start },
    record m1 { words = zero_range m1.words (or_null bits) user_map_len },
  )

-- The interrupt flag is put back at the end.
unfoldable pub process_execute : Machine → Outcome Machine
process_execute s = do
  (page, m1) ← get_kernel_pages s.memory 1
  let thread = or_null page
  let k1 = init_thread s.kernel thread default_prio
  (v, m2) ← create_user_vaddr_bitmap m1 (s.vaddr_of thread)
  let k2 = thread_create k1 thread
  (dir, m3) ← create_page_dir m2
  let t = k2.tasks thread
  let k3 = set_task k2 thread (record t { pgdir = or_null dir })
  assert (not (has thread k3.thread_ready_list))
  assert (not (has thread k3.thread_all_list))
  done (record {
    kernel = record k3 {
      thread_ready_list = k3.thread_ready_list ++ (thread ∷ []);
      thread_all_list = k3.thread_all_list ++ (thread ∷ []);
    };
    memory = m3;
    vaddr_of = update s.vaddr_of thread v;
    u_block_desc = update s.u_block_desc thread block_desc_init;
  })

pub record IntrStack : Type 0 where
  pub vec_no : ℕ
  pub edi : ℕ
  pub esi : ℕ
  pub ebp : ℕ
  pub esp_dummy : ℕ
  pub ebx : ℕ
  pub edx : ℕ
  pub ecx : ℕ
  pub eax : ℕ
  pub gs : ℕ
  pub fs : ℕ
  pub es : ℕ
  pub ds : ℕ
  pub err_code : ℕ
  pub eip : ℕ
  pub cs : ℕ
  pub eflags : ℕ
  pub esp : ℕ
  pub ss : ℕ

-- `SELECTOR_U_CODE` and `SELECTOR_U_DATA`, with `TI_GDT` 0 and `RPL3` 3
abbrev pub selector_u_code : ℕ
selector_u_code = 5 * 2 ^ 3 + 0 * 2 ^ 2 + 3

abbrev pub selector_u_data : ℕ
selector_u_data = 6 * 2 ^ 3 + 0 * 2 ^ 2 + 3

-- `EFLAGS_IOPL_0 | EFLAGS_MBS | EFLAGS_IF_1`
abbrev pub user_eflags : ℕ
user_eflags = 0 * 2 ^ 12 + 2 ^ 1 + 2 ^ 9

-- what `start_process` stores in the frame
abbrev pub first_frame : IntrStack → ℕ → ℕ → IntrStack
first_frame proc_stack function top = record proc_stack {
  edi = 0;
  esi = 0;
  ebp = 0;
  esp_dummy = 0;
  ebx = 0;
  edx = 0;
  ecx = 0;
  eax = 0;
  gs = 0;
  ds = selector_u_data;
  es = selector_u_data;
  fs = selector_u_data;
  eip = function;
  cs = selector_u_code;
  eflags = user_eflags;
  esp = top;
  ss = selector_u_data;
}

-- `self_kstack` is a `uint32_t *`: the size of `struct thread_stack` counts words
abbrev pub drop_thread_stack : Kernel → Kernel
drop_thread_stack k =
    let cur = k.tasks k.current in
    set_task k k.current (record cur { self_kstack = u32 (cur.self_kstack + 4 * 32) })

-- The running thread's memory and kernel, and the frame behind its `struct thread_stack`. The jump to `intr_exit` is not part of it.
unfoldable pub start_process :
    Memory → Kernel → IntrStack → ℕ → Outcome (IntrStack × Kernel × Memory)
start_process m k proc_stack filename_ = do
  let k1 = drop_thread_stack k
  (page, m1) ← get_a_page m PoolFlags.pf_user user_stack3_vaddr
  done (first_frame proc_stack filename_ (u32 (or_null page + pg_size)), k1, m1)
