-- ===== src/Memory/Alloc.antt =====
-- kernel/memory.c: taking and giving back whole ranges of mapped pages.
use elephant_os.Base.{
  ℕ, zero, suc, ◌+◌, ◌*◌, ◌/◌, ◌%◌, Bool, true, false, not, ◌&&◌, Option, none, some, ◌==◌, ltb,
  leb, if◌then◌else◌, u32, sub32, Outcome, done, ◌>>=◌, ◌>>◌, assert,
}
use elephant_os.Bitmap.{bitmap_set}
use elephant_os.Memory.{
  PoolFlags, Memory, pg_size, pool_of, set_pool, zero_range, palloc, pfree, or_null, page_table_add,
  addr_v2p, page_table_pte_remove, vaddr_get, vaddr_remove,
}

-- the loop of `malloc_page`; `false` when a physical page is missing
unfoldable pub map_pages : Memory → PoolFlags → ℕ → ℕ → Outcome (Bool × Memory)
map_pages m pf vaddr zero = done (true, m)
map_pages m pf vaddr (suc cnt) = do
  (page, pool) ← palloc (pool_of m pf)
  let m' = set_pool m pf pool
  elim page [
    | none ↦ done (false, m')
    | some page_phyaddr ↦ do
      m'' ← page_table_add m' vaddr page_phyaddr
      map_pages m'' pf (u32 (vaddr + pg_size)) cnt
  ]

unfoldable pub malloc_page : Memory → PoolFlags → ℕ → Outcome (Option ℕ × Memory)
malloc_page m pf pg_cnt = do
  assert (ltb 0 pg_cnt && ltb pg_cnt 3840)
  (vaddr_start, m1) ← vaddr_get m pf pg_cnt
  elim vaddr_start [
    | none ↦ done (none, m1)
    | some vaddr ↦ do
      (mapped, m2) ← map_pages m1 pf vaddr pg_cnt
      done (if mapped then some vaddr else none, m2)
  ]

unfoldable pub get_user_pages : Memory → ℕ → Outcome (ℕ × Memory)
get_user_pages m pg_cnt = do
  (page, m') ← malloc_page m PoolFlags.pf_user pg_cnt
  let vaddr = or_null page
  assert (not (vaddr == 0))
  done (vaddr, record m' { words = zero_range m'.words vaddr (pg_cnt * pg_size) })

unfoldable pub get_kernel_pages : Memory → ℕ → Outcome (Option ℕ × Memory)
get_kernel_pages m pg_cnt = do
  (page, m') ← malloc_page m PoolFlags.pf_kernel pg_cnt
  elim page [
    | none ↦ done (none, m')
    | some vaddr ↦
        done (some vaddr, record m' { words = zero_range m'.words vaddr (pg_cnt * pg_size) })
  ]

-- the map of the running thread and the pool, where `get_a_page` allows the pair
unfoldable pub mark_page : Memory → PoolFlags → ℕ → Outcome Memory
mark_page m PoolFlags.pf_user vaddr =
    let v = m.userprog_vaddr in
    let bit_idx = sub32 vaddr v.vaddr_start / pg_size in
    do
      assert m.has_pgdir
      assert (ltb 0 bit_idx)
      b ← bitmap_set v.vaddr_bitmap bit_idx 1
      done (record m { userprog_vaddr = record v { vaddr_bitmap = b } })
mark_page m PoolFlags.pf_kernel vaddr =
    let v = m.kernel_vaddr in
    let bit_idx = sub32 vaddr v.vaddr_start / pg_size in
    do
      assert (not m.has_pgdir)
      assert (ltb 0 bit_idx)
      b ← bitmap_set v.vaddr_bitmap bit_idx 1
      done (record m { kernel_vaddr = record v { vaddr_bitmap = b } })

unfoldable pub get_a_page : Memory → PoolFlags → ℕ → Outcome (Option ℕ × Memory)
get_a_page m pf vaddr = do
  m1 ← mark_page m pf vaddr
  (page, pool) ← palloc (pool_of m1 pf)
  let m2 = set_pool m1 pf pool
  elim page [
    | none ↦ done (none, m2)
    | some page_phyaddr ↦ do m3 ← page_table_add m2 vaddr page_phyaddr; done (some vaddr, m3)
  ]

-- `mfree_page`: the test of a page's physical address, and the loop
abbrev pub is_from : Memory → PoolFlags → ℕ → Bool
is_from m PoolFlags.pf_user phy = (phy % pg_size == 0) && leb m.user_pool.phy_addr_start phy
is_from m PoolFlags.pf_kernel phy =
    (phy % pg_size == 0)
    && leb m.kernel_pool.phy_addr_start phy
    && ltb phy m.user_pool.phy_addr_start

unfoldable pub free_pages : Memory → PoolFlags → ℕ → ℕ → Outcome Memory
free_pages m of vaddr zero = done m
free_pages m of vaddr (suc cnt) =
    let pg_phy_addr = addr_v2p m.words vaddr in
    do
      assert (is_from m of pg_phy_addr)
      m' ← pfree m pg_phy_addr
      free_pages (page_table_pte_remove m' vaddr) of (u32 (vaddr + pg_size)) cnt

unfoldable pub mfree_page : Memory → PoolFlags → ℕ → ℕ → Outcome Memory
mfree_page m pf vaddr pg_cnt =
    let pg_phy_addr = addr_v2p m.words vaddr in
    let of =
      if leb m.user_pool.phy_addr_start pg_phy_addr
      then PoolFlags.pf_user
      else PoolFlags.pf_kernel in
    do
      assert (leb 1 pg_cnt && (vaddr % pg_size == 0))
      assert ((pg_phy_addr % pg_size == 0) && leb 0x102000 pg_phy_addr)
      m' ← free_pages m of vaddr pg_cnt
      vaddr_remove m' pf vaddr pg_cnt
