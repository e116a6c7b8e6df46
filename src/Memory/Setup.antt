-- ===== src/Memory/Setup.antt =====
-- kernel/memory.c: the layout of the pools and their maps at the start.
use elephant_os.Base.{ℕ, ◌+◌, ◌-◌, ◌*◌, ◌/◌, ◌%◌, ◌^◌, Mem, sub32}
use elephant_os.Bitmap.{Bitmap, bitmap_init}
use elephant_os.Memory.{Memory, pg_size}

-- `mem_pool_init`, with `ram` the bytes that the bitmaps are laid over
unfoldable pub free_page_count : ℕ → ℕ
free_page_count all_mem = sub32 all_mem 0x200000 / pg_size % 2 ^ 16

abbrev pub mem_bitmap_base : ℕ
mem_bitmap_base = 0xc009a000

abbrev pub map_at : Mem → ℕ → ℕ → Bitmap
map_at ram base length =
    bitmap_init (record { btmp_bytes_len = length; bits = λ i. ram (base + i) })

unfoldable pub mem_pool_init : Memory → Mem → ℕ → Memory
mem_pool_init m ram all_mem =
    let all_free_pages = free_page_count all_mem in
    let kernel_free_pages = all_free_pages / 2 in
    let user_free_pages = all_free_pages - kernel_free_pages in
    let kbm_length = kernel_free_pages / 8 in
    let ubm_length = user_free_pages / 8 in
    let kp_start : ℕ = 0x200000 in
    record m {
      kernel_pool = record {
        pool_bitmap = map_at ram mem_bitmap_base kbm_length;
        phy_addr_start = kp_start;
        pool_size = kernel_free_pages * pg_size;
      };
      user_pool = record {
        pool_bitmap = map_at ram (mem_bitmap_base + kbm_length) ubm_length;
        phy_addr_start = kp_start + kernel_free_pages * pg_size;
        pool_size = user_free_pages * pg_size;
      };
      kernel_vaddr = record {
        vaddr_bitmap = map_at ram (mem_bitmap_base + kbm_length + ubm_length) kbm_length;
        vaddr_start = 0xc0100000;
      };
    }
