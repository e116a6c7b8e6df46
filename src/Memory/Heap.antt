-- ===== src/Memory/Heap.antt =====
-- kernel/memory.c: the allocator of blocks. The head of an arena, which lies at the start of its
-- page, stands in `arenas` by the page's address, and the free lists are sequences of block
-- addresses. What a block holds while it is free, its place in the list, is not in `words`.
pub mod Geometry
pub mod Blocks
use elephant_os.Base.{
  ℕ, zero, suc, ◌+◌, ◌-◌, ◌*◌, ◌/◌, ◌%◌, ◌^◌, Bool, true, false, not, ◌&&◌, ◌||◌, Option, none,
  some, List, [], ◌∷◌, ◌++◌, ◌==◌, ltb, leb, if◌then◌else◌, update, u32, sub32, has, get_or,
  Outcome, done, panic, ◌>>=◌, ◌>>◌, assert,
}
use elephant_os.Memory.{PoolFlags, Memory, pool_of, pg_size, zero_range}
use elephant_os.Memory.Alloc.{malloc_page, mfree_page}

pub record MemBlockDesc : Type 0 where
  pub block_size : ℕ
  pub blocks_per_arena : ℕ
  pub free_list : List ℕ

-- `desc` is an index into the descriptors, or `NULL`
pub record Arena : Type 0 where
  pub desc : Option ℕ
  pub cnt : ℕ
  pub large : Bool

-- `descs` holds the kernel's descriptors and those of the running process
pub record Heap : Type 0 where
  pub memory : Memory
  pub descs : PoolFlags → ℕ → MemBlockDesc
  pub arenas : ℕ → Arena

abbrev pub desc_cnt : ℕ
desc_cnt = 7

-- `sizeof(struct arena)`
abbrev pub arena_size : ℕ
arena_size = 12

-- the loop of `block_desc_init`, with `block_size` on 16 bits
unfoldable pub desc_loop : ℕ → ℕ → List MemBlockDesc
desc_loop zero block_size = []
desc_loop (suc left) block_size =
    record {
      block_size = block_size;
      blocks_per_arena = (pg_size - arena_size) / block_size;
      free_list = [];
    }
    ∷ desc_loop left (block_size * 2 % 2 ^ 16)

unfoldable pub block_desc_init : List MemBlockDesc
block_desc_init = desc_loop desc_cnt 16

unfoldable pub arena2block : ℕ → ℕ → ℕ → ℕ
arena2block block_size a idx = u32 (a + arena_size + idx * block_size)

unfoldable pub block2arena : ℕ → ℕ
block2arena b = b / 4096 * 4096

-- the loop that looks for the descriptor, `desc_cnt` if none serves
unfoldable pub fit_desc : (ℕ → MemBlockDesc) → ℕ → ℕ → ℕ → ℕ
fit_desc descs size desc_idx zero = desc_idx
fit_desc descs size desc_idx (suc left) =
    let rest = fit_desc descs size (desc_idx + 1) left in
    if leb size (descs desc_idx).block_size then desc_idx else rest

-- the loop that cuts an arena into blocks
unfoldable pub add_blocks : ℕ → ℕ → ℕ → ℕ → List ℕ → Outcome (List ℕ)
add_blocks block_size a block_idx zero free_list = done free_list
add_blocks block_size a block_idx (suc left) free_list =
    let b = arena2block block_size a block_idx in
    do
      assert (not (has b free_list))
      add_blocks block_size a (block_idx + 1) left (free_list ++ (b ∷ []))

abbrev pub same_pool : PoolFlags → PoolFlags → Bool
same_pool PoolFlags.pf_kernel PoolFlags.pf_kernel = true
same_pool PoolFlags.pf_user PoolFlags.pf_user = true
same_pool _ _ = false

abbrev pub set_desc : Heap → PoolFlags → ℕ → MemBlockDesc → Heap
set_desc h pf i d = record h {
  descs = λ of j. if same_pool of pf && (j == i) then d else h.descs of j;
}

abbrev pub set_arena : Heap → ℕ → Arena → Heap
set_arena h a v = record h { arenas = λ x. if x == a then v else h.arenas x }

abbrev pub pf_of : Memory → PoolFlags
pf_of m = if m.has_pgdir then PoolFlags.pf_user else PoolFlags.pf_kernel

-- `malloc_page` and the `memset` of the pages
unfoldable pub zeroed_pages : Heap → PoolFlags → ℕ → Outcome (Option ℕ × Heap)
zeroed_pages h pf page_cnt = do
  (page, m) ← malloc_page h.memory pf page_cnt
  elim page [
    | none ↦ done (none, record h { memory = m })
    | some a ↦ done (
      some a,
      record h { memory = record m { words = zero_range m.words a (page_cnt * pg_size) } },
    )
  ]

unfoldable pub malloc_large : Heap → PoolFlags → ℕ → Outcome (Option ℕ × Heap)
malloc_large h pf size =
    let page_cnt = u32 (size + arena_size + (pg_size - 1)) / pg_size in
    do
      (page, h') ← zeroed_pages h pf page_cnt
      done (elim page [
        | none ↦ (none, h')
        | some a ↦ (
          some (u32 (a + arena_size)),
          set_arena h' a (record { desc = none; cnt = page_cnt; large = true }),
        )
      ])

-- a new arena for the descriptor, if its free list is empty; `false` if there is no page
unfoldable pub refill : Heap → PoolFlags → ℕ → Outcome (Bool × Heap)
refill h pf i = elim ((h.descs pf i).free_list) [
  | b ∷ rest ↦ done (true, h)
  | [] ↦ do
    (page, h1) ← zeroed_pages h pf 1
    elim page [
      | none ↦ done (false, h1)
      | some a ↦ do
        let d = h1.descs pf i
        let arena : Arena = record { desc = some i; cnt = d.blocks_per_arena; large = false }
        blocks ← add_blocks d.block_size a 0 d.blocks_per_arena d.free_list
        done (true, set_desc (set_arena h1 a arena) pf i (record d { free_list = blocks }))
    ]
]

-- `list_pop`, the `memset` of the block, and the count of its arena; the list is not empty here
unfoldable pub take_block : Heap → PoolFlags → ℕ → Outcome (Option ℕ × Heap)
take_block h pf i =
    let d = h.descs pf i in
    elim (d.free_list) [
      | [] ↦ panic
      | b ∷ rest ↦
          (let a = block2arena b in
            let v = h.arenas a in
            let m = h.memory in
            let m' = record m { words = zero_range m.words b d.block_size } in
            let h1 = set_desc h pf i (record d { free_list = rest }) in
            let h2 = set_arena h1 a (record v { cnt = sub32 v.cnt 1 }) in
            do assert (not (b == 0)); done (some b, record h2 { memory = m' }))
    ]

unfoldable pub sys_malloc : Heap → ℕ → Outcome (Option ℕ × Heap)
sys_malloc h size =
    let pf = pf_of h.memory in
    if not (ltb 0 size && ltb size (pool_of h.memory pf).pool_size)
    then done (none, h)
    else if ltb 1024 size
    then malloc_large h pf size
    else (do
      let i = fit_desc (h.descs pf) size 0 desc_cnt
      (filled, h') ← refill h pf i
      if filled then take_block h' pf i else done (none, h'))

-- the loop that takes the blocks of a free arena off the list
unfoldable pub remove_blocks : ℕ → ℕ → ℕ → ℕ → List ℕ → Outcome (List ℕ)
remove_blocks block_size a block_idx zero free_list = done free_list
remove_blocks block_size a block_idx (suc left) free_list =
    let b = arena2block block_size a block_idx in
    do
      assert (has b free_list)
      remove_blocks block_size a (block_idx + 1) left (without b free_list)
  where
    without : ℕ → List ℕ → List ℕ
    without b [] = []
    without b (x ∷ xs) = let rest = without b xs in if x == b then xs else x ∷ rest

unfoldable pub release_block : Heap → PoolFlags → ℕ → ℕ → Outcome Heap
release_block h pf b i =
    let a = block2arena b in
    let d = h.descs pf i in
    let v = h.arenas a in
    let cnt = u32 (v.cnt + 1) in
    let free_list = d.free_list ++ (b ∷ []) in
    let h1 = set_arena h a (record v { cnt = cnt }) in
    if cnt == d.blocks_per_arena
    then (do
      left ← remove_blocks d.block_size a 0 d.blocks_per_arena free_list
      m ← mfree_page h1.memory pf a 1
      let h2 = set_desc h1 pf i (record d { free_list = left })
      done (record h2 { memory = m }))
    else done (set_desc h1 pf i (record d { free_list = free_list }))

-- An arena that is not large has a descriptor; the code would follow a null pointer otherwise.
unfoldable pub sys_free : Heap → ℕ → Outcome Heap
sys_free h ptr =
    let pf = pf_of h.memory in
    let a = block2arena ptr in
    let v = h.arenas a in
    do
      assert (not (ptr == 0))
      assert (h.memory.has_pgdir || leb 0xc0100000 ptr)
      elim (v.desc) [
        | none ↦
            if v.large
            then (do m ← mfree_page h.memory pf a v.cnt; done (record h { memory = m }))
            else panic
        | some i ↦ release_block h pf ptr i
      ]
