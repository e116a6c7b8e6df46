-- ===== src/Memory.antt =====
-- kernel/memory.c below the allocator of small blocks: physical pools, virtual address maps and
-- page tables. An address is a number below 2 ^ 32, and a mask of its low or high bits is written
-- as the remainder or the quotient that it computes. The pools' locks are left out: Sync has them.
-- `words` is the memory as the running address space sees it, the page tables included, which the
-- last entry of the page directory maps at 0xffc00000.
pub mod Paging
pub mod Pools
pub mod Alloc
pub mod Setup
pub mod Heap
mod Tests
use elephant_os.Base.{
  ℕ, zero, suc, ◌+◌, ◌-◌, ◌*◌, ◌/◌, ◌%◌, ◌^◌, Bool, true, false, not, ◌&&◌, Option, none, some,
  ◌==◌, ltb, leb, if◌then◌else◌, update, Mem, u32, sub32, Outcome, done, panic, ◌>>=◌, ◌>>◌, assert,
}
use elephant_os.Bitmap.{Bitmap, bitmap_init, bitmap_scan, bitmap_set}

pub data PoolFlags : Type 0 where
  pf_kernel pf_user : PoolFlags

pub record Pool : Type 0 where
  pub pool_bitmap : Bitmap
  pub phy_addr_start : ℕ
  pub pool_size : ℕ

pub record VirtualAddr : Type 0 where
  pub vaddr_bitmap : Bitmap
  pub vaddr_start : ℕ

-- `userprog_vaddr` and `has_pgdir` (`pgdir != NULL`) are the running thread's
pub record Memory : Type 0 where
  pub kernel_pool : Pool
  pub user_pool : Pool
  pub kernel_vaddr : VirtualAddr
  pub userprog_vaddr : VirtualAddr
  pub has_pgdir : Bool
  pub words : Mem

abbrev pub pg_size : ℕ
pg_size = 4096

abbrev pub pool_of : Memory → PoolFlags → Pool
pool_of m PoolFlags.pf_kernel = m.kernel_pool
pool_of m PoolFlags.pf_user = m.user_pool

abbrev pub set_pool : Memory → PoolFlags → Pool → Memory
set_pool m PoolFlags.pf_kernel p = record m { kernel_pool = p }
set_pool m PoolFlags.pf_user p = record m { user_pool = p }

-- `memset(base, 0, size)` on a range of words
unfoldable pub zero_range : Mem → ℕ → ℕ → Mem
zero_range words base size a = if leb base a && ltb a (base + size) then 0 else words a

-- Physical pages

unfoldable pub palloc : Pool → Outcome (Option ℕ × Pool)
palloc p = do
  found ← bitmap_scan p.pool_bitmap 1
  elim found [
    | none ↦ done (none, p)
    | some bit_idx ↦ do
      b ← bitmap_set p.pool_bitmap bit_idx 1
      done (some (u32 (bit_idx * pg_size + p.phy_addr_start)), record p { pool_bitmap = b })
  ]

unfoldable pub pfree : Memory → ℕ → Outcome Memory
pfree m pg_phy_addr =
    let pf =
      if leb m.user_pool.phy_addr_start pg_phy_addr
      then PoolFlags.pf_user
      else PoolFlags.pf_kernel in
    let p = pool_of m pf in
    do
      b ← bitmap_set p.pool_bitmap (sub32 pg_phy_addr p.phy_addr_start / pg_size) 0
      done (set_pool m pf (record p { pool_bitmap = b }))

-- Page tables

-- `PDE_IDX` and `PTE_IDX`
abbrev pub pde_idx : ℕ → ℕ
pde_idx addr = addr / 2 ^ 22

abbrev pub pte_idx : ℕ → ℕ
pte_idx addr = addr / 2 ^ 12 % 2 ^ 10

unfoldable pub pte_ptr : ℕ → ℕ
pte_ptr vaddr = 0xffc00000 + pde_idx vaddr * 2 ^ 12 + pte_idx vaddr * 4

unfoldable pub pde_ptr : ℕ → ℕ
pde_ptr vaddr = 0xfffff000 + pde_idx vaddr * 4

-- `& PG_P_1`, and `| PG_US_U | PG_RW_W | PG_P_1`, which sets the lowest three bits
abbrev pub is_present : ℕ → Bool
is_present entry = entry % 2 == 1

abbrev pub with_flags : ℕ → ℕ
with_flags phyaddr = phyaddr / 8 * 8 + 7

abbrev pub or_null : Option ℕ → ℕ
or_null none = 0
or_null (some a) = a

unfoldable pub page_table_add : Memory → ℕ → ℕ → Outcome Memory
page_table_add m vaddr page_phyaddr =
    let pde = pde_ptr vaddr in
    let pte = pte_ptr vaddr in
    if is_present (m.words pde)
    then (do
      assert (not (is_present (m.words pte)))
      if not (is_present (m.words pte))
          then done (record m { words = update m.words pte (with_flags page_phyaddr) })
          else panic)
    else (do
      (page, pool) ← palloc m.kernel_pool
      let w1 = update m.words pde (with_flags (or_null page))
      let w2 = zero_range w1 (pte / pg_size * pg_size) pg_size
      assert (not (is_present (w2 pte)))
      done (record m { kernel_pool = pool; words = update w2 pte (with_flags page_phyaddr) }))

unfoldable pub addr_v2p : Mem → ℕ → ℕ
addr_v2p words vaddr = words (pte_ptr vaddr) / pg_size * pg_size + vaddr % pg_size

unfoldable pub page_table_pte_remove : Memory → ℕ → Memory
page_table_pte_remove m vaddr =
    let pte = pte_ptr vaddr in record m { words = update m.words pte (m.words pte / 2 * 2) }

-- Virtual pages

-- `while (cnt < pg_cnt) bitmap_set(btmp, bit_idx_start + cnt++, value)`
unfoldable pub set_bits : Bitmap → ℕ → ℕ → ℕ → Outcome Bitmap
set_bits b bit_idx_start zero value = done b
set_bits b bit_idx_start (suc cnt) value = do
  b' ← bitmap_set b bit_idx_start value
  set_bits b' (bit_idx_start + 1) cnt value

-- `vaddr_get` on one of the two maps
unfoldable pub vaddr_take : VirtualAddr → ℕ → Outcome (Option ℕ × VirtualAddr)
vaddr_take v pg_cnt = do
  found ← bitmap_scan v.vaddr_bitmap pg_cnt
  elim found [
    | none ↦ done (none, v)
    | some bit_idx_start ↦ do
      b ← set_bits v.vaddr_bitmap bit_idx_start pg_cnt 1
      done (some (u32 (v.vaddr_start + bit_idx_start * pg_size)), record v { vaddr_bitmap = b })
  ]

unfoldable pub vaddr_get : Memory → PoolFlags → ℕ → Outcome (Option ℕ × Memory)
vaddr_get m PoolFlags.pf_kernel pg_cnt = do
  (vaddr, v) ← vaddr_take m.kernel_vaddr pg_cnt
  done (vaddr, record m { kernel_vaddr = v })
vaddr_get m PoolFlags.pf_user pg_cnt = do
  (vaddr, v) ← vaddr_take m.userprog_vaddr pg_cnt
  elim vaddr [
    | none ↦ done (none, m)
    | some a ↦ do
      assert (ltb a (0xc0000000 - pg_size))
      done (some a, record m { userprog_vaddr = v })
  ]

-- `vaddr_remove` on one of the two maps
unfoldable pub vaddr_drop : VirtualAddr → ℕ → ℕ → Outcome VirtualAddr
vaddr_drop v vaddr pg_cnt = do
  b ← set_bits v.vaddr_bitmap (sub32 vaddr v.vaddr_start / pg_size) pg_cnt 0
  done (record v { vaddr_bitmap = b })

unfoldable pub vaddr_remove : Memory → PoolFlags → ℕ → ℕ → Outcome Memory
vaddr_remove m PoolFlags.pf_kernel vaddr pg_cnt = do
  v ← vaddr_drop m.kernel_vaddr vaddr pg_cnt
  done (record m { kernel_vaddr = v })
vaddr_remove m PoolFlags.pf_user vaddr pg_cnt = do
  v ← vaddr_drop m.userprog_vaddr vaddr pg_cnt
  done (record m { userprog_vaddr = v })
