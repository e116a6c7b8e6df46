-- ===== src/Base/Words.antt =====
-- 32-bit unsigned arithmetic, and filling a range of a memory.
use Prim.Native.Nat.{ℕ, zero, suc, ◌+◌, ◌-◌, ◌%◌, ◌^◌}
use mathlib.Core.Path.{◌≡◌}
use mathlib.Core.Bool.{◌&&◌}
use native.Mathlib.Omega.{arith}
use elephant_os.Base.Tests.{leb, ltb, if◌then◌else◌, update}

abbrev pub u32 : ℕ → ℕ
u32 n = n % 2 ^ 32

-- `a - b` on `uint32_t`
abbrev pub sub32 : ℕ → ℕ → ℕ
sub32 a b = (a + 2 ^ 32 - b) % 2 ^ 32

abbrev pub Mem : Type 0
Mem = ℕ → ℕ

-- The loop of `memset` (lib/string.c): `while ((size--) > 0) *dst++ = value;`
unfoldable pub fill : Mem → ℕ → ℕ → ℕ → Mem
fill m dst value zero = m
fill m dst value (suc size) = fill (update m dst value) (dst + 1) value size

pub fill_lem :
    (m : Mem) (dst value size a : ℕ)
    → fill m dst value size a ≡ (if leb dst a && ltb a (dst + size) then value else m a)
unfolding fill
fill_lem m dst value zero a = ground arith
fill_lem m dst value (suc size) a =
    ground (arith, fill_lem (update m dst value) (dst + 1) value size a)
