-- ===== src/Memory/Heap/Blocks.antt =====
-- A new arena, and a block that is taken and given back.
use elephant_os.Base.{
  ℕ, zero, suc, ◌+◌, ◌%◌, ◌^◌, ◌<◌, ◌≤◌, ◌≡◌, ◌≢◌, refl, ap, ◌∙◌, true, false, ◌||◌, List, [], ◌∷◌,
  ◌++◌, ◌==◌, ltb, leb, some, arith, u32, sub32, has, done, ==_self, ==_of_ne, lt→ltb,
}
use elephant_os.LinkedList.Linked.{has-append}
use elephant_os.Memory.{PoolFlags, Memory, pool_of, zero_range}
use elephant_os.Memory.Alloc.{malloc_page}
use elephant_os.Memory.Heap.{
  MemBlockDesc, Arena, Heap, desc_loop, block_desc_init, arena2block, block2arena, fit_desc,
  add_blocks, set_desc, set_arena, pf_of, zeroed_pages, same_pool, refill, take_block, sys_malloc,
  release_block, sys_free,
}
use elephant_os.Memory.Heap.Geometry.{first_descs, arena2block_lem}

-- the first `n` blocks of the arena at `a`
abbrev pub block_list : ℕ → ℕ → ℕ → List ℕ
block_list size a zero = []
block_list size a (suc n) = block_list size a n ++ (arena2block size a n ∷ [])

not_in :
    (size a n x : ℕ)
    → ((j : ℕ) → j < n → arena2block size a j ≢ x)
    → has x (block_list size a n) ≡ false
not_in size a zero x apart = refl
not_in size a (suc n) x apart = ground (
  arith,
  has-append x (block_list size a n) (arena2block size a n ∷ []),
  not_in size a n x (λ j lt. apart j (omega arith)),
  apart n (omega arith),
)

add_blocks-block_list :
    (size a i left : ℕ)
    → ((j k : ℕ) → j < k → k < i + left → arena2block size a j ≢ arena2block size a k)
    → add_blocks size a i left (block_list size a i) ≡ done (block_list size a (i + left))
unfolding add_blocks
add_blocks-block_list size a i zero apart = let stop : i + 0 ≡ i = omega arith in rw stop refl
add_blocks-block_list size a i (suc left) apart =
    let new = not_in size a i (arena2block size a i) (λ j lt. apart j i lt (omega arith)) in
    let step : i + suc left ≡ suc i + left = omega arith in
    let rest =
      add_blocks-block_list size a (suc i) left (λ j k jk lt. apart j k jk (omega arith)) in
    let next : i + 1 ≡ suc i = omega arith in rw (new, step, next) rest

same_pool_self : (pf : PoolFlags) → same_pool pf pf ≡ true
same_pool_self PoolFlags.pf_kernel = refl
same_pool_self PoolFlags.pf_user = refl

first_sizes : (i : ℕ) → i < 7 → 0 < (first_descs i).block_size
unfolding block_desc_init desc_loop
first_sizes zero h = omega arith
first_sizes (suc zero) h = omega arith
first_sizes (suc (suc zero)) h = omega arith
first_sizes (suc (suc (suc zero))) h = omega arith
first_sizes (suc (suc (suc (suc zero)))) h = omega arith
first_sizes (suc (suc (suc (suc (suc zero))))) h = omega arith
first_sizes (suc (suc (suc (suc (suc (suc zero)))))) h = omega arith
first_sizes (suc (suc (suc (suc (suc (suc (suc i))))))) h = absurd (omega arith)

first_free_lists : (i : ℕ) → (first_descs i).free_list ≡ []
unfolding block_desc_init desc_loop
first_free_lists zero = refl
first_free_lists (suc zero) = refl
first_free_lists (suc (suc zero)) = refl
first_free_lists (suc (suc (suc zero))) = refl
first_free_lists (suc (suc (suc (suc zero)))) = refl
first_free_lists (suc (suc (suc (suc (suc zero))))) = refl
first_free_lists (suc (suc (suc (suc (suc (suc zero)))))) = refl
first_free_lists (suc (suc (suc (suc (suc (suc (suc i))))))) = refl

first_blocks_apart :
    (i a : ℕ)
    → i < 7
    → a % 4096 ≡ 0
    → a + 4096 ≤ 2 ^ 32
    → (j k : ℕ) → j < k
    → k < (first_descs i).blocks_per_arena
    → arena2block (first_descs i).block_size a j ≢ arena2block (first_descs i).block_size a k
first_blocks_apart i a hi al top j k jk hk e =
    let (lo, next, last, row, row') = arena2block_lem i a j k hi al top jk hk in
    omega (arith, first_sizes i hi)

-- For a descriptor as `block_desc_init` leaves it and a page that `malloc_page` returns,
-- `sys_malloc` makes the page an arena: none of its `ASSERT`s fails, the free list then holds the
-- blocks of the page in order, and the arena counts them all free.
refill_lem :
    (h : Heap) (pf : PoolFlags) (i a : ℕ) (m : Memory)
    → i < 7
    → h.descs pf i ≡ first_descs i
    → malloc_page h.memory pf 1 ≡ done (some a, m)
    → a % 4096 ≡ 0
    → a + 4096 ≤ 2 ^ 32
    → let d = first_descs i in
      (h' : Heap) × (refill h pf i ≡ done (true, h'))
      × ((h'.descs pf i).free_list ≡ block_list d.block_size a d.blocks_per_arena)
      × (h'.arenas a ≡ record { desc = some i; cnt = d.blocks_per_arena; large = false })
unfolding refill zeroed_pages
refill_lem h pf i a m hi e page al top =
    let d = first_descs i in
    let empty : (h.descs pf i).free_list ≡ [] =
      ap (λ (x : MemBlockDesc). x.free_list) e ∙ first_free_lists i in
    let blocks =
      add_blocks-block_list d.block_size a 0 d.blocks_per_arena
        (λ j k jk lt. first_blocks_apart i a hi al top j k jk (omega arith)) in
    let sum : 0 + d.blocks_per_arena ≡ d.blocks_per_arena = omega arith in
    let arena : Arena = record { desc = some i; cnt = d.blocks_per_arena; large = false } in
    let h1 : Heap = record h { memory = record m { words = zero_range m.words a 4096 } } in
    let h2 =
      set_desc (set_arena h1 a arena) pf i
        (record d { free_list = block_list d.block_size a d.blocks_per_arena }) in
    (
      h2,
      rw (refill, empty, page, e, first_free_lists i, blocks, sum) refl,
      rw (same_pool_self pf, ==_self) refl,
      rw ==_self refl,
    )

refill_some :
    (h : Heap) (pf : PoolFlags) (i b : ℕ) (rest : List ℕ)
    → (h.descs pf i).free_list ≡ b ∷ rest
    → refill h pf i ≡ done (true, h)
unfolding refill
refill_some h pf i b rest list = rw (refill, list) refl

-- the heaps after a block is taken, and after one is given back to an arena in use
abbrev taken : Heap → PoolFlags → ℕ → ℕ → List ℕ → Heap
taken h pf i b rest =
    let d = h.descs pf i in
    let v = h.arenas (block2arena b) in
    let m = h.memory in
    let m' = record m { words = zero_range m.words b d.block_size } in
    let h1 = set_desc h pf i (record d { free_list = rest }) in
    let h2 = set_arena h1 (block2arena b) (record v { cnt = sub32 v.cnt 1 }) in
    record h2 { memory = m' }

take_block_lem :
    (h : Heap) (pf : PoolFlags) (i b : ℕ) (rest : List ℕ)
    → (b == 0) ≡ false
    → (h.descs pf i).free_list ≡ b ∷ rest
    → take_block h pf i ≡ done (some b, taken h pf i b rest)
unfolding take_block
take_block_lem h pf i b rest null list = rw (take_block, list, null) refl

abbrev given : Heap → PoolFlags → ℕ → ℕ → Heap
given h pf i b =
    let d = h.descs pf i in
    let v = h.arenas (block2arena b) in
    set_desc (set_arena h (block2arena b) (record v { cnt = u32 (v.cnt + 1) })) pf i
      (record d { free_list = d.free_list ++ (b ∷ []) })

release_block_lem :
    (h : Heap) (pf : PoolFlags) (i b : ℕ)
    → (u32 ((h.arenas (block2arena b)).cnt + 1) == (h.descs pf i).blocks_per_arena) ≡ false
    → release_block h pf b i ≡ done (given h pf i b)
unfolding release_block
release_block_lem h pf i b busy = rw busy refl

sys_free_lem :
    (h : Heap) (i b : ℕ)
    → b ≢ 0
    → (h.memory.has_pgdir || leb 0xc0100000 b) ≡ true
    → (h.arenas (block2arena b)).desc ≡ some i
    → sys_free h b ≡ release_block h (pf_of h.memory) b i
unfolding sys_free
sys_free_lem h i b not_null allowed desc =
    let null : (b == 0) ≡ false = ground arith in rw (null, allowed, desc) refl

-- In a kernel thread or in a process, for a size from 1 to 1024 and below the size of its pool, let a
-- block stand first in the free list that serves the size, at an address that is not 0 and, in a
-- kernel thread, not below 0xc0100000; let its arena name the list's descriptor, and have at least
-- one free block and another block in use. Then `sys_malloc` takes the block from the list, and
-- `sys_free` puts it back at the end, with the count of the arena as before.
pub sys_malloc-sys_free :
    (h : Heap) (size b i : ℕ) (rest : List ℕ)
    → 0 < size
    → size ≤ 1024
    → size < (pool_of h.memory (pf_of h.memory)).pool_size
    → fit_desc (h.descs (pf_of h.memory)) size 0 7 ≡ i
    → (h.descs (pf_of h.memory) i).free_list ≡ b ∷ rest
    → (h.arenas (block2arena b)).desc ≡ some i
    → 0 < (h.arenas (block2arena b)).cnt
    → (h.arenas (block2arena b)).cnt < (h.descs (pf_of h.memory) i).blocks_per_arena
    → (h.arenas (block2arena b)).cnt < 2 ^ 32
    → b ≢ 0
    → (h.memory.has_pgdir || leb 0xc0100000 b) ≡ true
    → (h1 h2 : Heap) × (sys_malloc h size ≡ done (some b, h1))
      × ((h1.descs (pf_of h.memory) i).free_list ≡ rest)
      × (sys_free h1 b ≡ done h2)
      × ((h2.descs (pf_of h.memory) i).free_list ≡ rest ++ (b ∷ []))
      × ((h2.arenas (block2arena b)).cnt ≡ (h.arenas (block2arena b)).cnt)
unfolding sys_malloc
sys_malloc-sys_free h size b i rest pos small room fit list desc some_free some_used bound not_null
      allowed =
    let pf = pf_of h.memory in
    let a = block2arena b in
    let d = h.descs pf i in
    let v = h.arenas a in
    let h1 = taken h pf i b rest in
    let g1 : ltb 0 size ≡ true = lt→ltb 0 size pos in
    let g2 = lt→ltb size (pool_of h.memory pf).pool_size room in
    let g3 : ltb 1024 size ≡ false = ground arith in
    let desc1 : (h1.arenas a).desc ≡ some i = rw ==_self desc in
    let back : u32 ((h1.arenas a).cnt + 1) ≡ v.cnt = rw ==_self omega arith in
    let stored : ((given h1 pf i b).arenas a).cnt ≡ u32 ((h1.arenas a).cnt + 1) = rw ==_self refl in
    let whole : (h1.descs pf i).blocks_per_arena ≡ d.blocks_per_arena =
      rw (same_pool_self pf, ==_self) refl in
    let busy : (u32 ((h1.arenas a).cnt + 1) == (h1.descs pf i).blocks_per_arena) ≡ false =
      ==_of_ne _ _ (omega (arith, back, whole)) in
    (
      h1,
      given h1 pf i b,
      rw (g1, g2, g3, fit, refill_some h pf i b rest list)
          (take_block_lem h pf i b rest (ground arith) list),
      rw (same_pool_self pf, ==_self) refl,
      sys_free_lem h1 i b not_null allowed desc1 ∙ release_block_lem h1 pf i b busy,
      rw (same_pool_self pf, ==_self) refl,
      stored ∙ back,
    )
