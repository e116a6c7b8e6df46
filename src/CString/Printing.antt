-- ===== src/CString/Printing.antt =====
-- lib/stdio.c and lib/kernel/stdio-kernel.c: formatted output over the memory of bytes. The
-- arguments are words of the stack: `ap` is the address of the last one that was read, at first
-- that of the format.
use elephant_os.Base.{
  ℕ, zero, suc, ◌+◌, ◌^◌, ◌-◌, true, false, ◌==◌, leb, if◌then◌else◌, update, Mem, fill,
}
use elephant_os.Base.Flow.{Flow, returns, endless, ◌>>=◌, fueled, enough}
use elephant_os.Disk.{word_at}
use elephant_os.CString.{strcpy, strlen, itoa}

pub record Output : Type 0 where
  pub memory : Mem
  pub buf_ptr : ℕ
  pub index_ptr : ℕ
  pub ap : ℕ

-- `%s`, `%c`, `%d` and `%x`: `o` has read the `%` and stands at the character behind it
unfoldable pub put_string : ℕ → Output → Flow Output
put_string fuel o = do
  let arg_str = word_at o.memory (o.ap + 4)
  m ← fueled (strcpy fuel o.memory o.buf_ptr arg_str)
  len ← fueled (strlen fuel m arg_str)
  returns
      (record { memory = m; buf_ptr = o.buf_ptr + len; index_ptr = o.index_ptr + 1; ap = o.ap + 4 })

unfoldable pub put_char : Output → Output
put_char o = record {
  memory = update o.memory o.buf_ptr (o.memory (o.ap + 4));
  buf_ptr = o.buf_ptr + 1;
  index_ptr = o.index_ptr + 1;
  ap = o.ap + 4;
}

unfoldable pub put_number : Output → ℕ → ℕ → Flow Output
put_number o value base = do
  (m, buf_ptr) ← enough (itoa 32 value o.memory o.buf_ptr base)
  returns (record { memory = m; buf_ptr = buf_ptr; index_ptr = o.index_ptr + 1; ap = o.ap + 4 })

-- A negative number is one from `2 ^ 31` on.
unfoldable pub put_decimal : Output → Flow Output
put_decimal o =
    let arg_int = word_at o.memory (o.ap + 4) in
    if leb (2 ^ 31) arg_int
    then put_number (record o { memory = update o.memory o.buf_ptr 45; buf_ptr = o.buf_ptr + 1 })
        (2 ^ 32 - arg_int) 10
    else put_number o arg_int 10

-- the `switch`
unfoldable pub convert : ℕ → Output → Flow Output
convert fuel o =
    let c = o.memory o.index_ptr in
    if c == 115
    then put_string fuel o
    else if c == 99
    then returns (put_char o)
    else if c == 100
    then put_decimal o
    else if c == 120
    then put_number o (word_at o.memory (o.ap + 4)) 16
    else returns o

-- The loop over the format; `index_char` is the byte at `index_ptr`. `fuel` is for the loops of
-- strings, the first number for the characters of the format.
unfoldable pub print_loop : ℕ → ℕ → Output → Flow Output
print_loop zero fuel o = endless
print_loop (suc left) fuel o = elim (o.memory o.index_ptr == 0) [
  | true ↦ returns o
  | false ↦ elim (o.memory o.index_ptr == 37) [
    | true ↦ do
      o' ← convert fuel (record o { index_ptr = o.index_ptr + 1 })
      print_loop left fuel o'
    | false ↦ print_loop left fuel (record o {
      memory = update o.memory o.buf_ptr (o.memory o.index_ptr);
      buf_ptr = o.buf_ptr + 1;
      index_ptr = o.index_ptr + 1;
    })
  ]
]

-- the value that is returned and the memory
unfoldable pub vsprintf : ℕ → Mem → ℕ → ℕ → ℕ → Flow (ℕ × Mem)
vsprintf fuel m str format ap = do
  o ← print_loop fuel fuel (record { memory = m; buf_ptr = str; index_ptr = format; ap = ap })
  len ← fueled (strlen fuel o.memory str)
  returns (len, o.memory)

-- `args` is the address of the parameter `format`
unfoldable pub sprintf : ℕ → Mem → ℕ → ℕ → ℕ → Flow (ℕ × Mem)
sprintf fuel m buf format args = vsprintf fuel m buf format args

-- the number of bytes that `write` is called with, and the memory
unfoldable pub printf : ℕ → Mem → ℕ → ℕ → ℕ → Flow (ℕ × Mem)
printf fuel m buf format args = do
  (retval, m') ← vsprintf fuel (fill m buf 0 1024) buf format args
  len ← fueled (strlen fuel m' buf)
  returns (len, m')

-- the memory when `console_put_str` is called with `buf`
unfoldable pub printk : ℕ → Mem → ℕ → ℕ → ℕ → Flow Mem
printk fuel m buf format args = do
  (retval, m') ← vsprintf fuel (fill m buf 0 1024) buf format args
  returns m'
