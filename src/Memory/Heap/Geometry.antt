-- ===== src/Memory/Heap/Geometry.antt =====
-- Blocks in their page, and the choice of a block size.
use elephant_os.Base.{
  ℕ, zero, suc, ◌+◌, ◌%◌, ◌^◌, ◌<◌, ◌≤◌, ◌≡◌, refl, [], leb, get_or, arith, ◌⊎◌, inl, inr,
  Bool-cases,
}
use elephant_os.Memory.Heap.{
  MemBlockDesc, desc_loop, block_desc_init, arena2block, block2arena, fit_desc,
}

-- the descriptors as `block_desc_init` leaves them
abbrev pub first_descs : ℕ → MemBlockDesc
first_descs i =
    get_or block_desc_init i (record { block_size = 0; blocks_per_arena = 0; free_list = [] })

-- For each descriptor as initialised and each arena on an aligned page, the blocks stand in the
-- page behind the arena's head, one behind the other, and `block2arena` finds the arena of each.
pub arena2block_lem :
    (i a j k : ℕ)
    → i < 7
    → a % 4096 ≡ 0
    → a + 4096 ≤ 2 ^ 32
    → j < k
    → k < (first_descs i).blocks_per_arena
    → let size = (first_descs i).block_size in
      (a + 12 ≤ arena2block size a j)
      × (arena2block size a j + size ≤ arena2block size a k)
      × (arena2block size a k + size ≤ a + 4096)
      × (block2arena (arena2block size a j) ≡ a)
      × (block2arena (arena2block size a k) ≡ a)
unfolding arena2block block2arena block_desc_init desc_loop
arena2block_lem zero a j k hi al top jk hk =
    (omega arith, omega arith, omega arith, omega arith, omega arith)
arena2block_lem (suc zero) a j k hi al top jk hk =
    (omega arith, omega arith, omega arith, omega arith, omega arith)
arena2block_lem (suc (suc zero)) a j k hi al top jk hk =
    (omega arith, omega arith, omega arith, omega arith, omega arith)
arena2block_lem (suc (suc (suc zero))) a j k hi al top jk hk =
    (omega arith, omega arith, omega arith, omega arith, omega arith)
arena2block_lem (suc (suc (suc (suc zero)))) a j k hi al top jk hk =
    (omega arith, omega arith, omega arith, omega arith, omega arith)
arena2block_lem (suc (suc (suc (suc (suc zero))))) a j k hi al top jk hk =
    (omega arith, omega arith, omega arith, omega arith, omega arith)
arena2block_lem (suc (suc (suc (suc (suc (suc zero)))))) a j k hi al top jk hk =
    (omega arith, omega arith, omega arith, omega arith, omega arith)
arena2block_lem (suc (suc (suc (suc (suc (suc (suc i))))))) a j k hi al top jk hk =
    absurd (omega arith)

fit_loop :
    (descs : ℕ → MemBlockDesc) (size start left : ℕ)
    → let i = fit_desc descs size start left in
      (((i < start + left) × (size ≤ (descs i).block_size)) ⊎ (i ≡ start + left))
      × ((j : ℕ) → start ≤ j → j < i → (descs j).block_size < size)
unfolding fit_desc
fit_loop descs size start zero = (inr (omega arith), λ j lo hi. absurd (omega arith))
fit_loop descs size start (suc left) =
    let (which, low) = fit_loop descs size (start + 1) left in
    elim (Bool-cases (leb size (descs start).block_size)) [
      | inl fits ↦ rw fits (inl (omega arith, ground arith), λ j lo hi. absurd (omega arith))
      | inr more ↦ rw more (
        elim which [ inl (inside, fits) ↦ inl (omega arith, fits) | inr end ↦ inr (omega arith) ],
        λ j lo hi. ground (arith, low j),
      )
    ]

-- For a size from 1 to 1024, the loop of `sys_malloc` finds a descriptor, with the least block size
-- that holds so many bytes.
fit_desc_lem :
    (size : ℕ)
    → 0 < size
    → size ≤ 1024
    → let i = fit_desc first_descs size 0 7 in
      (i < 7)
      × (size ≤ (first_descs i).block_size)
      × ((j : ℕ) → j < i → (first_descs j).block_size < size)
fit_desc_lem size pos small =
    let (which, low) = fit_loop first_descs size 0 7 in
    elim which [
      | inl (inside, fits) ↦ (inside, fits, λ j lt. low j (omega arith) lt)
      | inr end ↦
          let last : (first_descs 6).block_size ≡ 1024 =
            (unfold block_desc_init desc_loop in refl) in
          absurd (omega (arith, low 6 (omega arith) (omega arith)))
    ]
