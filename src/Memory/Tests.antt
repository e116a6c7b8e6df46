-- ===== src/Memory/Tests.antt =====
-- Instances of the theorems about pages and blocks.
use elephant_os.Base.{
  ℕ, ◌+◌, ◌*◌, ◌/◌, ◌%◌, ◌^◌, ◌<◌, ◌≡◌, ◌≢◌, refl, true, false, Option, none, some, [], ◌∷◌, ◌++◌,
  ◌==◌, leb, if◌then◌else◌, arith, u32, Outcome, done, panic,
}
use elephant_os.Bitmap.{
  Bitmap, bitmap_scan_test, bitmap_scan, skip_full, first_zero, find_run, scan_from, bitmap_set,
}
use elephant_os.Bitmap.Set.{IsValid}
use elephant_os.Base.Bits.{bit_set, bit_set_ends}
use elephant_os.Memory.{
  PoolFlags, Memory, Pool, set_pool, pte_ptr, pde_ptr, is_present, palloc, pfree, page_table_add,
  addr_v2p, page_table_pte_remove, set_bits, vaddr_take, vaddr_get,
}
use elephant_os.Memory.Alloc.{map_pages, malloc_page}
use elephant_os.Memory.Paging.{page_table_add_lem}
use elephant_os.Memory.Pools.{IsLaidOut, bitmap_of, Marked, palloc-pfree}
use elephant_os.Memory.Heap.{
  Heap, desc_loop, block_desc_init, block2arena, fit_desc, sys_malloc, sys_free,
}
use elephant_os.Memory.Heap.Geometry.{first_descs}
use elephant_os.Memory.Heap.Blocks.{sys_malloc-sys_free}

abbrev clear_map : Bitmap
clear_map = record { btmp_bytes_len = 2; bits = λ i. 0 }

clear_map-IsValid : IsValid clear_map
clear_map-IsValid = record { bytes = λ i. omega arith; small = omega arith }

clear_bits : (j : ℕ) → bitmap_scan_test clear_map j ≡ false
unfolding bitmap_scan_test
clear_bits j = (bit_set_ends (j % 8) (omega arith)).0

-- A kernel thread, all tables present and no page mapped; 16 pages in each pool.
abbrev machine : Memory
machine = record {
  kernel_pool = record { pool_bitmap = clear_map; phy_addr_start = 0x200000; pool_size = 0x10000 };
  user_pool = record { pool_bitmap = clear_map; phy_addr_start = 0x210000; pool_size = 0x10000 };
  kernel_vaddr = record { vaddr_bitmap = clear_map; vaddr_start = 0xc0100000 };
  userprog_vaddr = record { vaddr_bitmap = clear_map; vaddr_start = 0x8048000 };
  has_pgdir = false;
  words = λ a. if leb 0xfffff000 a then 7 else 0;
}

machine-IsLaidOut : IsLaidOut machine
machine-IsLaidOut = record { kernel_below = omega arith; user_below = omega arith }

heap_table : is_present (machine.words (pde_ptr 0xc0100123)) ≡ true
unfolding pde_ptr
heap_table = refl

heap_page : is_present (machine.words (pte_ptr 0xc0100123)) ≡ false
unfolding pte_ptr
heap_page = refl

-- the same machine without any table
abbrev bare : Memory
bare = record machine { words = λ a. 0 }

abbrev memory_of {ℓ} : {A : Type ℓ} → A → Outcome (Option ℕ × A) → A
memory_of m (done (page, m')) = m'
memory_of m panic = m

bare_palloc :
    palloc bare.kernel_pool
    ≡ done (some 0x200000, memory_of bare.kernel_pool (palloc bare.kernel_pool))
unfolding palloc bitmap_scan scan_from skip_full first_zero find_run bitmap_scan_test bitmap_set
    bit_set
bare_palloc = refl

abbrev one_page : Memory
one_page = memory_of machine (malloc_page machine PoolFlags.pf_kernel 1)

machine_page : malloc_page machine PoolFlags.pf_kernel 1 ≡ done (some 0xc0100000, one_page)
unfolding malloc_page vaddr_get vaddr_take set_bits map_pages palloc page_table_add pde_ptr pte_ptr
    bitmap_scan scan_from skip_full first_zero find_run bitmap_scan_test bitmap_set bit_set
machine_page = refl

abbrev new_heap : Heap
new_heap = record {
  memory = machine;
  descs = λ pf i. first_descs i;
  arenas = λ a. record { desc = none; cnt = 0; large = false };
}

-- an arena of blocks of 64 bytes, of which 60 are free and the first on the list is 0xc010004c
abbrev used_heap : Heap
used_heap = record {
  memory = machine;
  descs = λ pf i.
      if i == 2
      then record {
        block_size = 64;
        blocks_per_arena = 63;
        free_list = 0xc010004c ∷ 0xc010008c ∷ [];
      }
      else first_descs i;
  arenas = λ a. record { desc = some 2; cnt = 60; large = false };
}

used_fit : fit_desc (used_heap.descs PoolFlags.pf_kernel) 50 0 7 ≡ 2
unfolding fit_desc block_desc_init desc_loop
used_fit = refl

blocks_64 : 3 < (first_descs 2).blocks_per_arena
unfolding block_desc_init desc_loop
blocks_64 = omega arith

page_table_add_lem_example :
    (m' : Memory) × (page_table_add machine 0xc0100123 0x205000 ≡ done m')
    × (is_present (m'.words (pte_ptr 0xc0100123)) ≡ true)
    × (addr_v2p m'.words 0xc0100123 ≡ 0x205000 + 0xc0100123 % 4096)
    × ((w : ℕ)
        → w < 2 ^ 32
        → w / 4096 ≢ 0xc0100123 / 4096
        → addr_v2p m'.words w ≡ addr_v2p machine.words w)
    × (is_present ((page_table_pte_remove m' 0xc0100123).words (pte_ptr 0xc0100123)) ≡ false)
page_table_add_lem_example =
    page_table_add_lem machine 0xc0100123 0x205000 (omega arith) (omega arith) heap_table heap_page

palloc-pfree_example :
    (r : ℕ) × (p : Pool) × (m' : Memory) × (palloc machine.user_pool
      ≡ done (some (u32 (r * 4096 + 0x210000)), p))
    × (bitmap_scan_test clear_map r ≡ false)
    × Marked clear_map p.pool_bitmap r 1 true
    × (pfree (set_pool machine PoolFlags.pf_user p) (u32 (r * 4096 + 0x210000)) ≡ done m')
    × ((j : ℕ) → bitmap_scan_test (bitmap_of m' PoolFlags.pf_user) j ≡ bitmap_scan_test clear_map j)
palloc-pfree_example =
    palloc-pfree machine PoolFlags.pf_user 3 machine-IsLaidOut clear_map-IsValid (omega arith)
      (clear_bits 3)

sys_malloc-sys_free_example :
    (h1 h2 : Heap) × (sys_malloc used_heap 50 ≡ done (some 0xc010004c, h1))
    × ((h1.descs PoolFlags.pf_kernel 2).free_list ≡ 0xc010008c ∷ [])
    × (sys_free h1 0xc010004c ≡ done h2)
    × ((h2.descs PoolFlags.pf_kernel 2).free_list ≡ (0xc010008c ∷ []) ++ (0xc010004c ∷ []))
    × ((h2.arenas (block2arena 0xc010004c)).cnt ≡ 60)
sys_malloc-sys_free_example =
    sys_malloc-sys_free used_heap 50 0xc010004c 2 (0xc010008c ∷ []) (omega arith) (omega arith)
      (omega arith) used_fit refl refl (omega arith) (omega arith) (omega arith)
      (λ e. omega (arith, e)) refl
