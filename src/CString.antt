-- ===== src/CString.antt =====
-- lib/string.c and the digits of lib/stdio.c, over a memory of bytes. A `char` is signed: where the
-- code orders two of them or compares one with a `uint8_t`, the model does so on the signed values.
-- A loop that ends at a NUL byte runs on fuel, one unit for a byte, and `none` is lack of fuel.
pub mod Copies
pub mod Orders
pub mod Digits
pub mod Printing
pub mod PlainText
mod Tests
use elephant_os.Base.{
  ℕ, zero, suc, ◌+◌, ◌-◌, ◌/◌, ◌%◌, Bool, true, false, not, ◌&&◌, ◌||◌, Option, none, some, ◌==◌,
  ltb, if◌then◌else◌, update, Mem, fill, u32, Outcome, done, panic, ◌>>=◌, ◌>>◌, assert,
}

-- the result of a comparison: -1, 0 or 1
pub data Sign : Type 0 where
  minus same plus : Sign

-- `*a > *b` on `char`
abbrev pub char_gt : ℕ → ℕ → Bool
char_gt a b = ltb ((b + 128) % 256) ((a + 128) % 256)

-- `*str == ch`, where `ch` is a `uint8_t` and `*str` is negative from 128 on
abbrev pub is_char : ℕ → ℕ → Bool
is_char byte ch = (byte == ch) && ltb byte 128

unfoldable pub memset : Mem → ℕ → ℕ → ℕ → Outcome Mem
memset m dst value size = do assert (not (dst == 0)); done (fill m dst value size)

unfoldable pub copy_loop : Mem → ℕ → ℕ → ℕ → Mem
copy_loop m dst src zero = m
copy_loop m dst src (suc size) = copy_loop (update m dst (m src)) (dst + 1) (src + 1) size

unfoldable pub memcpy : Mem → ℕ → ℕ → ℕ → Outcome Mem
memcpy m dst src size = do
  assert (not (dst == 0) && not (src == 0))
  done (copy_loop m dst src size)

unfoldable pub compare_loop : Mem → ℕ → ℕ → ℕ → Sign
compare_loop m a b zero = Sign.same
compare_loop m a b (suc size) =
    let rest = compare_loop m (a + 1) (b + 1) size in
    if not (m a == m b) then (if char_gt (m a) (m b) then Sign.plus else Sign.minus) else rest

unfoldable pub memcmp : Mem → ℕ → ℕ → ℕ → Outcome Sign
memcmp m a b size = do assert (not (a == 0) || not (b == 0)); done (compare_loop m a b size)

-- `while ((*dst++ = *src++));`
unfoldable pub strcpy_loop : ℕ → Mem → ℕ → ℕ → Option Mem
strcpy_loop zero m dst src = none
strcpy_loop (suc fuel) m dst src =
    let m' = update m dst (m src) in
    let rest = strcpy_loop fuel m' (dst + 1) (src + 1) in if m' dst == 0 then some m' else rest

unfoldable pub strcpy : ℕ → Mem → ℕ → ℕ → Outcome (Option Mem)
strcpy fuel m dst src = do
  assert (not (dst == 0) && not (src == 0))
  done (strcpy_loop fuel m dst src)

-- `while (*p++);`: the address behind the NUL
unfoldable pub end_loop : ℕ → Mem → ℕ → Option ℕ
end_loop zero m p = none
end_loop (suc fuel) m p =
    let rest = end_loop fuel m (p + 1) in if m p == 0 then some (p + 1) else rest

abbrev pub on_some {ℓ κ} : {A : Type ℓ} {B : Type κ} → Option A → (A → Option B) → Option B
on_some none f = none
on_some (some a) f = f a

unfoldable pub strlen : ℕ → Mem → ℕ → Outcome (Option ℕ)
strlen fuel m str = do
  assert (not (str == 0))
  done (on_some (end_loop fuel m str) (λ p. some (p - str - 1)))

unfoldable pub strcmp_loop : ℕ → Mem → ℕ → ℕ → Option Sign
strcmp_loop zero m a b = none
strcmp_loop (suc fuel) m a b =
    let rest = strcmp_loop fuel m (a + 1) (b + 1) in
    if not (m a == 0) && (m a == m b)
    then rest
    else some (
        if char_gt (m b) (m a)
        then Sign.minus
        else (if char_gt (m a) (m b) then Sign.plus else Sign.same))

unfoldable pub strcmp : ℕ → Mem → ℕ → ℕ → Outcome (Option Sign)
strcmp fuel m a b = do assert (not (a == 0) && not (b == 0)); done (strcmp_loop fuel m a b)

-- the address, or 0 for `NULL`
unfoldable pub chr_loop : ℕ → Mem → ℕ → ℕ → Option ℕ
chr_loop zero m str ch = none
chr_loop (suc fuel) m str ch =
    let rest = chr_loop fuel m (str + 1) ch in
    if m str == 0 then some 0 else (if is_char (m str) ch then some str else rest)

unfoldable pub strchr : ℕ → Mem → ℕ → ℕ → Outcome (Option ℕ)
strchr fuel m str ch = do assert (not (str == 0)); done (chr_loop fuel m str ch)

unfoldable pub rchr_loop : ℕ → Mem → ℕ → ℕ → ℕ → Option ℕ
rchr_loop zero m str ch last_char = none
rchr_loop (suc fuel) m str ch last_char =
    let rest = rchr_loop fuel m (str + 1) ch (if is_char (m str) ch then str else last_char) in
    if m str == 0 then some last_char else rest

unfoldable pub strrchr : ℕ → Mem → ℕ → ℕ → Outcome (Option ℕ)
strrchr fuel m str ch = do assert (not (str == 0)); done (rchr_loop fuel m str ch 0)

unfoldable pub strcat : ℕ → Mem → ℕ → ℕ → Outcome (Option Mem)
strcat fuel m dst src = do
  assert (not (dst == 0) && not (src == 0))
  done (on_some (end_loop fuel m dst) (λ str. strcpy_loop fuel m (str - 1) src))

unfoldable pub chrs_loop : ℕ → Mem → ℕ → ℕ → ℕ → Option ℕ
chrs_loop zero m p ch ch_cnt = none
chrs_loop (suc fuel) m p ch ch_cnt =
    let rest =
      chrs_loop fuel m (p + 1) ch (if is_char (m p) ch then u32 (ch_cnt + 1) else ch_cnt) in
    if m p == 0 then some ch_cnt else rest

unfoldable pub strchrs : ℕ → Mem → ℕ → ℕ → Outcome (Option ℕ)
strchrs fuel m str ch = do assert (not (str == 0)); done (chrs_loop fuel m str ch 0)

-- lib/stdio.c: `itoa`, with the buffer's pointer after it. The quotient shrinks, so 32 rounds are
-- enough for a 32-bit value and a base of at least 2.
unfoldable pub itoa : ℕ → ℕ → Mem → ℕ → ℕ → Option (Mem × ℕ)
itoa zero value m buf_ptr base = none
itoa (suc fuel) value m buf_ptr base =
    let r = value % base in
    let i = value / base in
    let high = itoa fuel i m buf_ptr base in
    on_some (if i == 0 then some (m, buf_ptr) else high)
      (λ s. some (update s.0 s.1 (if ltb r 10 then r + 48 else r - 10 + 65), s.1 + 1))
