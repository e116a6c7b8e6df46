-- ===== src/Memory/Paging.antt =====
-- The page tables seen through the last entry of the directory, and mapping a page.
use elephant_os.Base.{
  ℕ, ◌+◌, ◌*◌, ◌/◌, ◌%◌, ◌^◌, ◌<◌, ◌≤◌, ◌≡◌, ◌≢◌, refl, true, false, some, ◌==◌, update, Mem, done,
  arith, ==_of_ne, ==_self,
}
use elephant_os.Memory.{
  Memory, Pool, zero_range, palloc, pte_ptr, pde_ptr, is_present, with_flags, page_table_add,
  addr_v2p, page_table_pte_remove,
}

pte_ptr_lem : (v : ℕ) → v < 2 ^ 32 → pte_ptr v ≡ 0xffc00000 + v / 4096 * 4
unfolding pte_ptr
pte_ptr_lem v h = omega arith

pte_ptr-ne : (v w : ℕ) → v < 2 ^ 32 → w < 2 ^ 32 → v / 4096 ≢ w / 4096 → pte_ptr v ≢ pte_ptr w
pte_ptr-ne v w hv hw ne e = ne (omega (arith, e, pte_ptr_lem v hv, pte_ptr_lem w hw))

-- The entry of a page's table in the directory is the table entry of the page that holds the
-- table; entries of different pages of 32-bit addresses are apart, and all lie in the last 4 MB.
pde_ptr-pte_ptr :
    (v w : ℕ)
    → v < 2 ^ 32
    → w < 2 ^ 32
    → v / 4096 ≢ w / 4096
    → (pde_ptr v ≡ pte_ptr (pte_ptr v))
      × (pte_ptr v ≢ pte_ptr w)
      × (0xffc00000 ≤ pte_ptr v)
      × (pte_ptr v + 4 ≤ 2 ^ 32)
unfolding pde_ptr
pde_ptr-pte_ptr v w hv hw ne =
    let top : pte_ptr v < 2 ^ 32 = omega (arith, pte_ptr_lem v hv) in
    (
      omega (arith, pte_ptr_lem v hv, pte_ptr_lem (pte_ptr v) top),
      pte_ptr-ne v w hv hw ne,
      omega (arith, pte_ptr_lem v hv),
      omega (arith, pte_ptr_lem v hv),
    )

-- After `page_table_add` of an aligned physical page for a page whose table exists and that is not
-- mapped, `addr_v2p` takes an address in the page to the same offset in the physical page, and
-- what it says of any other page is as before; after `page_table_pte_remove` the page is not
-- present.
pub page_table_add_lem :
    (m : Memory) (vaddr phy : ℕ)
    → vaddr < 2 ^ 32
    → phy % 4096 ≡ 0
    → is_present (m.words (pde_ptr vaddr)) ≡ true
    → is_present (m.words (pte_ptr vaddr)) ≡ false
    → (m' : Memory) × (page_table_add m vaddr phy ≡ done m')
      × (is_present (m'.words (pte_ptr vaddr)) ≡ true)
      × (addr_v2p m'.words vaddr ≡ phy + vaddr % 4096)
      × ((w : ℕ) → w < 2 ^ 32 → w / 4096 ≢ vaddr / 4096 → addr_v2p m'.words w ≡ addr_v2p m.words w)
      × (is_present ((page_table_pte_remove m' vaddr).words (pte_ptr vaddr)) ≡ false)
unfolding page_table_add addr_v2p page_table_pte_remove
page_table_add_lem m vaddr phy hv al pde pte = (
  record m { words = update m.words (pte_ptr vaddr) (with_flags phy) },
  rw (pde, pte) refl,
  ground arith,
  ground arith,
  λ w hw ne. rw (==_of_ne (pte_ptr w) (pte_ptr vaddr) (pte_ptr-ne w vaddr hw hv ne)),
  ground arith,
)

zero_in :
    (words : Mem) (base size a : ℕ) → base ≤ a → a < base + size → zero_range words base size a ≡ 0
unfolding zero_range
zero_in words base size a lo hi = ground arith

zero_out :
    (words : Mem) (base size a : ℕ) → base + size ≤ a → zero_range words base size a ≡ words a
unfolding zero_range
zero_out words base size a hi = ground arith

pde_above : (v : ℕ) → v < 0xffc00000 → pte_ptr v / 4096 * 4096 + 4096 ≤ pde_ptr v
unfolding pde_ptr
pde_above v h = omega (arith, pte_ptr_lem v)

-- Without a table for an address below the last 4 MB, `page_table_add` of an aligned physical page
-- takes the page that `palloc` gives from the kernel's pool for a table; `addr_v2p` then finds the
-- physical page, and no other page of the new table is present.
pub page_table_add-new_table :
    (m : Memory) (vaddr phy page : ℕ) (pool : Pool)
    → vaddr < 0xffc00000
    → phy % 4096 ≡ 0
    → is_present (m.words (pde_ptr vaddr)) ≡ false
    → palloc m.kernel_pool ≡ done (some page, pool)
    → (m' : Memory) × (page_table_add m vaddr phy ≡ done m')
      × (m'.kernel_pool ≡ pool)
      × (is_present (m'.words (pde_ptr vaddr)) ≡ true)
      × (addr_v2p m'.words vaddr ≡ phy + vaddr % 4096)
      × ((w : ℕ)
          → w / 2 ^ 22 ≡ vaddr / 2 ^ 22
          → w / 4096 ≢ vaddr / 4096
          → is_present (m'.words (pte_ptr w)) ≡ false)
unfolding page_table_add addr_v2p
page_table_add-new_table m vaddr phy page pool hv al pde run =
    let pte = pte_ptr vaddr in
    let w1 = update m.words (pde_ptr vaddr) (with_flags page) in
    let w2 = zero_range w1 (pte / 4096 * 4096) 4096 in
    let below = pde_above vaddr hv in
    let blank : w2 pte ≡ 0 = zero_in w1 (pte / 4096 * 4096) 4096 pte (omega arith) (omega arith) in
    let table : w2 (pde_ptr vaddr) ≡ w1 (pde_ptr vaddr) =
      zero_out w1 (pte / 4096 * 4096) 4096 (pde_ptr vaddr) below in
    let apart : (pde_ptr vaddr == pte) ≡ false = ==_of_ne (pde_ptr vaddr) pte (omega arith) in
    (
      record m { kernel_pool = pool; words = update w2 pte (with_flags phy) },
      rw (pde, run, blank) refl,
      refl,
      rw (apart, table, ==_self) ground arith,
      rw ==_self ground arith,
      λ w same ne.
          let hw : w < 2 ^ 32 = omega arith in
          let row = pte_ptr_lem w hw in
          let row' = pte_ptr_lem vaddr (omega arith) in
          let other : (pte_ptr w == pte) ≡ false =
            ==_of_ne (pte_ptr w) pte (pte_ptr-ne w vaddr hw (omega arith) ne) in
          let zeroed : w2 (pte_ptr w) ≡ 0 =
            zero_in w1 (pte / 4096 * 4096) 4096 (pte_ptr w) (omega arith) (omega arith) in
          rw (other, zeroed) refl,
    )
