-- ===== src/Memory/Pools.antt =====
-- Taking and giving back physical pages and ranges of virtual pages, and the layout at the start.
use elephant_os.Base.{
  ℕ, zero, suc, ◌+◌, ◌*◌, ◌/◌, ◌^◌, ◌<◌, ◌≤◌, ◌≡◌, refl, Bool, true, false, some, ◌==◌, ltb, leb,
  if◌then◌else◌, Mem, u32, sub32, done, arith, ◌&&◌,
}
use elephant_os.Bitmap.{Bitmap, bitmap_scan_test, bitmap_init}
use elephant_os.Bitmap.Set.{
  IsValid, bitmap_set_lem, set_bit, bitmap_set_one, set_bit-IsValid, scan_test-set_bit,
}
use elephant_os.Bitmap.Runs.{FreeRun}
use elephant_os.Bitmap.Scan.{scan-lowest, scan_first_fit}
use elephant_os.Memory.{
  PoolFlags, Memory, Pool, VirtualAddr, pool_of, set_pool, palloc, pfree, set_bits, vaddr_take,
  vaddr_drop,
}
use elephant_os.Memory.Setup.{free_page_count, mem_bitmap_base, mem_pool_init}

-- the pools do not overlap and end below 4 GB
pub record IsLaidOut (m : Memory) : Type 0 where
  pub kernel_below :
      m.kernel_pool.phy_addr_start + m.kernel_pool.pool_bitmap.btmp_bytes_len * 8 * 4096
      ≤ m.user_pool.phy_addr_start
  pub user_below :
      m.user_pool.phy_addr_start + m.user_pool.pool_bitmap.btmp_bytes_len * 8 * 4096 ≤ 2 ^ 32

abbrev pub bitmap_of : Memory → PoolFlags → Bitmap
bitmap_of m pf = (pool_of m pf).pool_bitmap

-- how a map looks after its bits from `i` on, `cnt` of them, got a value
abbrev pub Marked : Bitmap → Bitmap → ℕ → ℕ → Bool → Type 0
Marked b b' i cnt v =
    (j : ℕ)
    → bitmap_scan_test b' j ≡ (if leb i j && ltb j (i + cnt) then v else bitmap_scan_test b j)

set_bit-length : (b : Bitmap) (i : ℕ) (v : Bool) → (set_bit b i v).btmp_bytes_len ≡ b.btmp_bytes_len
unfolding set_bit
set_bit-length b i v = refl

pub palloc_lem :
    (p : Pool) (s : ℕ)
    → IsValid p.pool_bitmap
    → s < p.pool_bitmap.btmp_bytes_len * 8
    → bitmap_scan_test p.pool_bitmap s ≡ false
    → (r : ℕ) × (b : Bitmap) × (palloc p
        ≡ done (some (u32 (r * 4096 + p.phy_addr_start)), record p { pool_bitmap = b }))
      × (r < p.pool_bitmap.btmp_bytes_len * 8)
      × (bitmap_scan_test p.pool_bitmap r ≡ false)
      × IsValid b
      × (b.btmp_bytes_len ≡ p.pool_bitmap.btmp_bytes_len)
      × ((j : ℕ)
          → bitmap_scan_test b j ≡ (if r == j then true else bitmap_scan_test p.pool_bitmap j))
unfolding palloc
palloc_lem p s v inside free =
    let (r, scan, room, clear, low) = scan-lowest p.pool_bitmap s v inside free in
    let b = set_bit p.pool_bitmap r true in
    (
      r,
      b,
      rw (scan, bitmap_set_one p.pool_bitmap r) refl,
      room,
      clear,
      set_bit-IsValid p.pool_bitmap r true v,
      set_bit-length p.pool_bitmap r true,
      λ j. scan_test-set_bit p.pool_bitmap r j true v,
    )

pfree_lem :
    (m : Memory) (pf : PoolFlags) (r : ℕ)
    → IsLaidOut m
    → IsValid (bitmap_of m pf)
    → r < (bitmap_of m pf).btmp_bytes_len * 8
    → (b : Bitmap) × (pfree m (u32 (r * 4096 + (pool_of m pf).phy_addr_start))
        ≡ done (set_pool m pf (record (pool_of m pf) { pool_bitmap = b })))
      × IsValid b
      × ((j : ℕ)
          → bitmap_scan_test b j ≡ (if r == j then false else bitmap_scan_test (bitmap_of m pf) j))
unfolding pfree
pfree_lem m PoolFlags.pf_kernel r lay v room =
    let (b, set, v', bits) = bitmap_set_lem m.kernel_pool.pool_bitmap r 0 v (omega arith) in
    let start = m.kernel_pool.phy_addr_start in
    let whole : u32 (r * 4096 + start) ≡ r * 4096 + start = omega arith in
    let side : leb m.user_pool.phy_addr_start (r * 4096 + start) ≡ false = ground arith in
    let index : sub32 (r * 4096 + start) start / 4096 ≡ r = omega arith in
    (b, rw (whole, side, index, set) refl, v', bits)
pfree_lem m PoolFlags.pf_user r lay v room =
    let (b, set, v', bits) = bitmap_set_lem m.user_pool.pool_bitmap r 0 v (omega arith) in
    let start = m.user_pool.phy_addr_start in
    let whole : u32 (r * 4096 + start) ≡ r * 4096 + start = omega arith in
    let side : leb start (r * 4096 + start) ≡ true = ground arith in
    let index : sub32 (r * 4096 + start) start / 4096 ≡ r = omega arith in
    (b, rw (whole, side, index, set) refl, v', bits)

pub set_bits_lem :
    (b : Bitmap) (i cnt value : ℕ)
    → IsValid b
    → value ≤ 1
    → (b' : Bitmap) × (set_bits b i cnt value ≡ done b')
      × IsValid b'
      × Marked b b' i cnt (value == 1)
unfolding set_bits
set_bits_lem b i zero value v h = (b, refl, v, λ j. ground arith)
set_bits_lem b i (suc cnt) value v h =
    let (b1, set, v1, bits1) = bitmap_set_lem b i value v h in
    let (b2, rest, v2, bits2) = set_bits_lem b1 (i + 1) cnt value v1 h in
    (b2, rw set rest, v2, λ j. ground (arith, bits1 j, bits2 j))

IsLaidOut-set_pool :
    (m : Memory) (pf : PoolFlags) (b : Bitmap)
    → IsLaidOut m
    → b.btmp_bytes_len ≡ (bitmap_of m pf).btmp_bytes_len
    → IsLaidOut (set_pool m pf (record (pool_of m pf) { pool_bitmap = b }))
IsLaidOut-set_pool m PoolFlags.pf_kernel b lay e = record {
  kernel_below = rw e lay.kernel_below;
  user_below = lay.user_below;
}
IsLaidOut-set_pool m PoolFlags.pf_user b lay e = record {
  kernel_below = lay.kernel_below;
  user_below = rw e lay.user_below;
}

-- If the pools are laid out well and the map of one is valid and has a clear bit, `palloc` from it
-- returns a page that was free and marks it and no other, and `pfree` of that page makes the map
-- as it was.
pub palloc-pfree :
    (m : Memory) (pf : PoolFlags) (s : ℕ)
    → IsLaidOut m
    → IsValid (bitmap_of m pf)
    → s < (bitmap_of m pf).btmp_bytes_len * 8
    → bitmap_scan_test (bitmap_of m pf) s ≡ false
    → (r : ℕ) × (p : Pool) × (m' : Memory) × (palloc (pool_of m pf)
        ≡ done (some (u32 (r * 4096 + (pool_of m pf).phy_addr_start)), p))
      × (bitmap_scan_test (bitmap_of m pf) r ≡ false)
      × Marked (bitmap_of m pf) p.pool_bitmap r 1 true
      × (pfree (set_pool m pf p) (u32 (r * 4096 + (pool_of m pf).phy_addr_start)) ≡ done m')
      × ((j : ℕ) → bitmap_scan_test (bitmap_of m' pf) j ≡ bitmap_scan_test (bitmap_of m pf) j)
palloc-pfree m PoolFlags.pf_kernel s lay v inside free =
    let p = pool_of m PoolFlags.pf_kernel in
    let (r, b, take, room, clear, v', len, bits) = palloc_lem p s v inside free in
    let m1 = set_pool m PoolFlags.pf_kernel (record p { pool_bitmap = b }) in
    let lay' = IsLaidOut-set_pool m PoolFlags.pf_kernel b lay len in
    let (b2, give, v2, bits2) = pfree_lem m1 PoolFlags.pf_kernel r lay' v' (omega (arith, len)) in
    let m2 = set_pool m1 PoolFlags.pf_kernel (record p { pool_bitmap = b2 }) in
    (
      r,
      record p { pool_bitmap = b },
      m2,
      take,
      clear,
      λ j. ground (arith, bits j),
      give,
      λ j. ground (arith, bits j, bits2 j),
    )
palloc-pfree m PoolFlags.pf_user s lay v inside free =
    let p = pool_of m PoolFlags.pf_user in
    let (r, b, take, room, clear, v', len, bits) = palloc_lem p s v inside free in
    let m1 = set_pool m PoolFlags.pf_user (record p { pool_bitmap = b }) in
    let lay' = IsLaidOut-set_pool m PoolFlags.pf_user b lay len in
    let (b2, give, v2, bits2) = pfree_lem m1 PoolFlags.pf_user r lay' v' (omega (arith, len)) in
    let m2 = set_pool m1 PoolFlags.pf_user (record p { pool_bitmap = b2 }) in
    (
      r,
      record p { pool_bitmap = b },
      m2,
      take,
      clear,
      λ j. ground (arith, bits j),
      give,
      λ j. ground (arith, bits j, bits2 j),
    )

-- In a valid map of virtual pages below 4 GB that has a run of `pg_cnt` free pages, not 0,
-- `vaddr_get` takes a run of free pages and marks it and nothing else, and `vaddr_remove` of that
-- run makes the map as it was.
vaddr_take-vaddr_drop :
    (v : VirtualAddr) (pg_cnt s : ℕ)
    → IsValid v.vaddr_bitmap
    → v.vaddr_start + v.vaddr_bitmap.btmp_bytes_len * 8 * 4096 ≤ 2 ^ 32
    → 0 < pg_cnt
    → s + pg_cnt ≤ v.vaddr_bitmap.btmp_bytes_len * 8
    → FreeRun v.vaddr_bitmap s pg_cnt
    → (r : ℕ) × (v1 v2 : VirtualAddr) × (vaddr_take v pg_cnt
        ≡ done (some (v.vaddr_start + r * 4096), v1))
      × FreeRun v.vaddr_bitmap r pg_cnt
      × Marked v.vaddr_bitmap v1.vaddr_bitmap r pg_cnt true
      × (vaddr_drop v1 (v.vaddr_start + r * 4096) pg_cnt ≡ done v2)
      × ((j : ℕ) → bitmap_scan_test v2.vaddr_bitmap j ≡ bitmap_scan_test v.vaddr_bitmap j)
unfolding vaddr_take vaddr_drop
vaddr_take-vaddr_drop v pg_cnt s valid top pos room run =
    let b = v.vaddr_bitmap in
    let (r, scan, low, free) = scan_first_fit b pg_cnt s valid pos room run in
    let (b1, set, valid1, bits1) = set_bits_lem b r pg_cnt 1 valid (omega arith) in
    let (b2, clear, valid2, bits2) = set_bits_lem b1 r pg_cnt 0 valid1 (omega arith) in
    let whole : u32 (v.vaddr_start + r * 4096) ≡ v.vaddr_start + r * 4096 = omega arith in
    let index : sub32 (v.vaddr_start + r * 4096) v.vaddr_start / 4096 ≡ r = omega arith in
    (
      r,
      record v { vaddr_bitmap = b1 },
      record v { vaddr_bitmap = b2 },
      rw (scan, set, whole) refl,
      free,
      bits1,
      rw (index, clear) refl,
      λ j. ground (arith, bits1 j, bits2 j, free j),
    )

-- For any amount of memory from 2 MB on, `mem_pool_init` lays the pools out one above the other
-- inside the memory, each as long as its map says or longer by less than eight pages, and the
-- three maps end before 0xc009e000, where the main thread's task begins.
mem_pool_init_lem :
    (m : Memory) (ram : Mem) (all_mem : ℕ)
    → 0x200000 ≤ all_mem
    → all_mem < 2 ^ 32
    → let m' = mem_pool_init m ram all_mem in
      let kbm = m'.kernel_pool.pool_bitmap.btmp_bytes_len in
      let ubm = m'.user_pool.pool_bitmap.btmp_bytes_len in
      IsLaidOut m'
      × (m'.user_pool.phy_addr_start + m'.user_pool.pool_size ≤ all_mem)
      × (m'.kernel_pool.phy_addr_start + m'.kernel_pool.pool_size ≡ m'.user_pool.phy_addr_start)
      × (kbm * 8 * 4096 ≤ m'.kernel_pool.pool_size)
      × (m'.kernel_pool.pool_size < (kbm + 1) * 8 * 4096)
      × (ubm * 8 * 4096 ≤ m'.user_pool.pool_size)
      × (m'.user_pool.pool_size < (ubm + 1) * 8 * 4096)
      × (mem_bitmap_base + kbm + ubm + m'.kernel_vaddr.vaddr_bitmap.btmp_bytes_len < 0xc009e000)
unfolding mem_pool_init free_page_count bitmap_init
mem_pool_init_lem m ram all_mem lo hi = (
  record { kernel_below = omega arith; user_below = omega arith },
  omega arith,
  refl,
  omega arith,
  omega arith,
  omega arith,
  omega arith,
  omega arith,
)
