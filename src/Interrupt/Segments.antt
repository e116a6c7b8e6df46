-- ===== src/Interrupt/Segments.antt =====
-- The base and the limit of a segment descriptor.
use elephant_os.Base.{ℕ, ◌+◌, ◌*◌, ◌/◌, ◌%◌, ◌^◌, ◌<◌, ◌≡◌, refl, arith}
use elephant_os.Interrupt.{GdtDesc, make_gdt_desc}

-- How the processor reads a segment descriptor: base, limit, the low and the high attributes.
unfoldable pub segment : GdtDesc → ℕ × ℕ × ℕ × ℕ
segment d = (
  d.base_low_word + d.base_mid_byte * 2 ^ 16 + d.base_high_byte * 2 ^ 24,
  d.limit_low_word + d.limit_high_attr_high % 2 ^ 4 * 2 ^ 16,
  d.attr_low_byte,
  d.limit_high_attr_high / 2 ^ 4,
)

-- The processor reads back what `make_gdt_desc` packed, for a base of 32 bits, a limit of 20 bits, and
-- high attributes in the upper half of a byte.
segment-make_gdt_desc :
    (base limit attr_low high : ℕ)
    → base < 2 ^ 32
    → limit < 2 ^ 20
    → high < 16
    → segment (make_gdt_desc base limit attr_low (high * 16)) ≡ (base, limit, attr_low, high)
unfolding segment make_gdt_desc
segment-make_gdt_desc base limit attr_low high b l h =
    let base' : base % 2 ^ 16 + base / 2 ^ 16 % 2 ^ 8 * 2 ^ 16 + base / 2 ^ 24 * 2 ^ 24 ≡ base =
      omega arith in
    let limit' : limit % 2 ^ 16 + (limit / 2 ^ 16 % 2 ^ 4 + high * 16) % 2 ^ 8 % 2 ^ 4 * 2 ^ 16
        ≡ limit =
      omega arith in
    let high' : (limit / 2 ^ 16 % 2 ^ 4 + high * 16) % 2 ^ 8 / 2 ^ 4 ≡ high = omega arith in
    rw (base', limit', high') refl
