-- ===== src/Process/Entry.antt =====
-- How a new process gets to its first instruction.
use elephant_os.Base.{
  ℕ, ◌+◌, ◌-◌, ◌/◌, ◌%◌, ◌^◌, ◌<◌, ◌≡◌, refl, ◌∙◌, ap, Mem, true, false, some, arith, u32, done,
  ==_self,
}
use elephant_os.Bitmap.Set.{IsValid, bitmap_set_lem}
use elephant_os.Memory.{PoolFlags, Memory, Pool, pte_ptr, pde_ptr, is_present, palloc, addr_v2p}
use elephant_os.Memory.Alloc.{mark_page, get_a_page}
use elephant_os.Memory.Paging.{page_table_add-new_table}
use elephant_os.Thread.{Kernel, init_thread, thread_create, update_tss_esp}
use elephant_os.Process.{
  IntrStack, first_frame, drop_thread_stack, start_process, user_stack3_vaddr, user_vaddr_start,
}

-- The running thread is a process whose stack has neither a page nor a page table yet, and the
-- pools have a page for each.
pub record CanEnter (m : Memory) (phy page : ℕ) (upool kpool : Pool) : Type 0 where
  pub process : m.has_pgdir ≡ true
  pub map_start : m.userprog_vaddr.vaddr_start ≡ user_vaddr_start
  pub map : IsValid m.userprog_vaddr.vaddr_bitmap
  pub user_page : palloc m.user_pool ≡ done (some phy, upool)
  pub aligned : phy % 4096 ≡ 0
  pub no_table : is_present (m.words (pde_ptr user_stack3_vaddr)) ≡ false
  pub table_page : palloc m.kernel_pool ≡ done (some page, kpool)

-- the last word of the stack's page
top_word : (words : Mem) → addr_v2p words (0xc0000000 - 4) ≡ addr_v2p words user_stack3_vaddr + 4092
unfolding addr_v2p pte_ptr
top_word words = omega arith

get_a_page-stack :
    (m : Memory) (phy page : ℕ) (upool kpool : Pool)
    → CanEnter m phy page upool kpool
    → (m' : Memory) × (get_a_page m PoolFlags.pf_user user_stack3_vaddr
        ≡ done (some user_stack3_vaddr, m'))
      × (addr_v2p m'.words (0xc0000000 - 4) ≡ phy + 4092)
unfolding get_a_page mark_page
get_a_page-stack m phy page upool kpool c =
    let (b, set, valid, bits) =
      bitmap_set_lem m.userprog_vaddr.vaddr_bitmap 753591 1 c.map (omega arith) in
    let m2 : Memory = record m {
      has_pgdir = true;
      userprog_vaddr = record { vaddr_bitmap = b; vaddr_start = user_vaddr_start };
      user_pool = upool;
    } in
    let (m', run, pool, table, at, other) =
      page_table_add-new_table m2 user_stack3_vaddr phy page kpool (omega arith) c.aligned
        c.no_table c.table_page in
    (
      m',
      rw (c.process, c.map_start, set, c.user_page, run) refl,
      top_word m'.words ∙ ap (λ a. a + 4092) at ∙ omega arith,
    )

-- Let a task whose page ends below 4 GB run for the first time, as a process whose stack has neither
-- a page nor a page table, and let the pools have a page for each. Then `start_process` succeeds. The
-- frame that it fills ends 228 bytes below the address that `update_tss_esp` stores, since
-- `self_kstack` moves in words; it has the selectors of privilege 3, the interrupt flag set and the
-- program's address; and the word below its stack pointer is the last one of the physical page
-- that was taken.
pub start_process_lem :
    (m : Memory) (k : Kernel) (thread prio filename phy page : ℕ) (upool kpool : Pool)
    (frame : IntrStack)
    → CanEnter m phy page upool kpool
    → thread + 4096 < 2 ^ 32
    → (f : IntrStack) × (k' : Kernel) × (m' : Memory) × (start_process m
          (record (thread_create (init_thread k thread prio) thread) { current = thread })
          frame
          filename
        ≡ done (f, k', m'))
      × ((k'.tasks thread).self_kstack + 76 + 228 ≡ (update_tss_esp k' thread).esp0)
      × (f.cs % 4 ≡ 3)
      × (f.ss % 4 ≡ 3)
      × (f.eflags / 2 ^ 9 % 2 ≡ 1)
      × (f.eip ≡ filename)
      × (addr_v2p m'.words (f.esp - 4) ≡ phy + 4092)
unfolding start_process thread_create init_thread update_tss_esp
start_process_lem m k thread prio filename phy page upool kpool frame c below =
    let (m', run, at) = get_a_page-stack m phy page upool kpool c in
    let k0 = record (thread_create (init_thread k thread prio) thread) { current = thread } in
    (
      first_frame frame filename (u32 (user_stack3_vaddr + 4096)),
      drop_thread_stack k0,
      m',
      rw run refl,
      rw ==_self (omega arith),
      refl,
      refl,
      refl,
      refl,
      at,
    )
