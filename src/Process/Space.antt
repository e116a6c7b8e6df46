-- ===== src/Process/Space.antt =====
-- The page directory and the address map of a new process.
use elephant_os.Base.{
  ℕ, ◌+◌, ◌-◌, ◌*◌, ◌/◌, ◌<◌, ◌≤◌, ◌≡◌, ◌⊎◌, refl, ◌∙◌, ap, inl, inr, true, false, some, arith, Mem,
  done, update, ltb, ==_of_ne, ==_self,
}
use elephant_os.Bitmap.{bitmap_scan_test, bitmap_init}
use elephant_os.Bitmap.Set.{scan_test-init}
use elephant_os.Disk.{copy}
use elephant_os.Format.{div_round_up}
use elephant_os.Memory.{PoolFlags, Memory, VirtualAddr, zero_range, pte_ptr, with_flags, addr_v2p}
use elephant_os.Memory.Alloc.{malloc_page, get_kernel_pages}
use elephant_os.Process.{
  create_page_dir, create_user_vaddr_bitmap, user_map_len, user_vaddr_start, user_stack3_vaddr,
}

-- the words of a new page, and of the directory that is built in it
module _ (words : Mem) (dir : ℕ) where
  abbrev zeroed : Mem
  zeroed = zero_range words dir 4096

  abbrev copied : Mem
  copied = copy zeroed (dir + 0xc00) (λ x. zeroed (0xfffffc00 + x)) 1024

  copied-outside : (a : ℕ) → (a < dir) ⊎ (dir + 4096 ≤ a) → copied a ≡ words a
  unfolding copy zero_range
  copied-outside a (inl lt) = ground arith
  copied-outside a (inr le) = ground arith

  copied-user : (i : ℕ) → i < 768 → copied (dir + i * 4) ≡ 0
  unfolding copy zero_range
  copied-user i lt = ground arith

  copied-kernel :
      (i : ℕ)
      → dir + 4096 ≤ 0xffc00000
      → 768 ≤ i
      → i < 1024
      → copied (dir + i * 4) ≡ words (0xfffff000 + i * 4)
  unfolding copy zero_range
  copied-kernel i low ge lt =
      let inside : copied (dir + i * 4) ≡ zeroed (0xfffffc00 + (dir + i * 4 - (dir + 0xc00))) =
        ground arith in
      let at : 0xfffffc00 + (dir + i * 4 - (dir + 0xc00)) ≡ 0xfffff000 + i * 4 = omega arith in
      let far : zeroed (0xfffff000 + i * 4) ≡ words (0xfffff000 + i * 4) = ground arith in
      inside ∙ ap zeroed at ∙ far

  copied-addr_v2p : dir + 4096 ≤ 0xffc00000 → addr_v2p copied dir ≡ addr_v2p words dir
  unfolding addr_v2p pte_ptr
  copied-addr_v2p low =
      let same : copied (pte_ptr dir) ≡ words (pte_ptr dir) =
        copied-outside (pte_ptr dir) (inr (omega arith)) in
      rw same refl

-- If `malloc_page` gives the kernel a page `dir` that lies below the page tables, then
-- `create_page_dir` makes it a directory: the entries for user addresses are 0, the entries of the
-- kernel but the last are those of the running directory, the last one is the physical address of
-- the new directory with its flags, and no word outside the page changes.
pub create_page_dir_lem :
    (m m1 : Memory) (dir : ℕ)
    → malloc_page m PoolFlags.pf_kernel 1 ≡ done (some dir, m1)
    → dir + 4096 ≤ 0xffc00000
    → (m' : Memory) × (create_page_dir m ≡ done (some dir, m'))
      × ((i : ℕ) → i < 768 → m'.words (dir + i * 4) ≡ 0)
      × ((i : ℕ) → 768 ≤ i → i < 1023 → m'.words (dir + i * 4) ≡ m1.words (0xfffff000 + i * 4))
      × (m'.words (dir + 1023 * 4) ≡ with_flags (addr_v2p m1.words dir))
      × ((a : ℕ) → (a < dir) ⊎ (dir + 4096 ≤ a) → m'.words a ≡ m1.words a)
unfolding create_page_dir get_kernel_pages
create_page_dir_lem m m1 dir run low = (
  record m1 {
    words =
        update (copied m1.words dir) (dir + 1023 * 4)
          (with_flags (addr_v2p (copied m1.words dir) dir));
  },
  rw run refl,
  λ i lt.
      let other = ==_of_ne (dir + i * 4) (dir + 1023 * 4) (omega arith) in
      rw other (copied-user m1.words dir i lt),
  λ i ge lt.
      let other = ==_of_ne (dir + i * 4) (dir + 1023 * 4) (omega arith) in
      rw other (copied-kernel m1.words dir i low ge (omega arith)),
  rw (==_self, copied-addr_v2p m1.words dir low) refl,
  λ a out.
      let other = ==_of_ne a (dir + 1023 * 4) (ground (arith, out)) in
      rw other (copied-outside m1.words dir a out),
)

-- `create_user_vaddr_bitmap` makes a map with one bit for each page from the first address of a
-- program to the kernel, all bits clear, which fits into the pages taken for it, and the bit of
-- the stack's page is the last.
create_user_vaddr_bitmap_lem :
    (m m1 : Memory) (old : VirtualAddr) (bits : ℕ)
    → malloc_page m PoolFlags.pf_kernel (div_round_up user_map_len 4096) ≡ done (some bits, m1)
    → (v : VirtualAddr) × (m' : Memory) × (create_user_vaddr_bitmap m old ≡ done (v, m'))
      × (v.vaddr_start + v.vaddr_bitmap.btmp_bytes_len * 8 * 4096 ≡ 0xc0000000)
      × (v.vaddr_bitmap.btmp_bytes_len ≤ div_round_up user_map_len 4096 * 4096)
      × ((user_stack3_vaddr - v.vaddr_start) / 4096 + 1 ≡ v.vaddr_bitmap.btmp_bytes_len * 8)
      × ((i : ℕ)
          → i < v.vaddr_bitmap.btmp_bytes_len * 8
          → bitmap_scan_test v.vaddr_bitmap i ≡ false)
unfolding create_user_vaddr_bitmap get_kernel_pages bitmap_init
create_user_vaddr_bitmap_lem m m1 old bits run = (
  record {
    vaddr_bitmap = bitmap_init (record old.vaddr_bitmap { btmp_bytes_len = user_map_len });
    vaddr_start = user_vaddr_start;
  },
  record m1 {
    words =
        zero_range (zero_range m1.words bits (div_round_up user_map_len 4096 * 4096)) bits
          user_map_len;
  },
  rw run refl,
  refl,
  omega arith,
  refl,
  λ i lt.
      let inside : ltb i (user_map_len * 8) ≡ true = ground arith in
      scan_test-init (record old.vaddr_bitmap { btmp_bytes_len = user_map_len }) i ∙ rw inside refl,
)
