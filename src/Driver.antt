-- ===== src/Driver.antt =====
-- device/ide.c: the driver of the hard disks of one channel. The controller is hardware: it is a
-- parameter with the documented meaning of its registers and commands. The lock of the channel and
-- the semaphore on which a task waits for the interrupt are the part on semaphores and locks.
pub mod Wait
pub mod Select
pub mod Reads
pub mod Writes
pub mod Setup
pub mod Commands
pub mod Swaps
mod Tests
use elephant_os.Base.{
  ℕ, zero, suc, ◌+◌, ◌-◌, ◌*◌, ◌/◌, ◌%◌, ◌^◌, ◌<◌, ◌≡◌, bit_and, bit_or, Bool, true, false, not,
  ◌&&◌, ◌==◌, ltb, leb, if◌then◌else◌, u32, Mem, Outcome, done, panic, ◌>>=◌, ◌>>◌, assert,
}
use elephant_os.Disk.{max_lba, copy}

-- the registers that a command reads: the number of sectors, the address and the device
pub record Registers : Type 0 where
  pub reg_sect_cnt : ℕ
  pub reg_lba_l : ℕ
  pub reg_lba_m : ℕ
  pub reg_lba_h : ℕ
  pub reg_dev : ℕ

-- what the controller does with the registers
abbrev pub sectors_in : Registers → ℕ
sectors_in r = if r.reg_sect_cnt == 0 then 256 else r.reg_sect_cnt

abbrev pub lba_in : Registers → ℕ
lba_in r = r.reg_lba_l + 2 ^ 8 * r.reg_lba_m + 2 ^ 16 * r.reg_lba_h + 2 ^ 24 * (r.reg_dev % 16)

abbrev pub device_in : Registers → ℕ
device_in r = r.reg_dev / 16 % 2

-- A controller with its disks: the bytes of a sector of a disk, the data of a read command, the
-- disks after a write command, and what reading the status register for the n-th time returns.
pub record Controller (D : Type 0) : Type 0 where
  pub sector : D → ℕ → ℕ → Mem
  pub read_data : D → Registers → Mem
  pub write_data : D → Registers → Mem → D
  pub status : D → Registers → ℕ → ℕ

-- the commands 0x20 and 0x30 as the standard has them
pub record IsAta {D : Type 0} (c : Controller D) : Type 0 where
  pub read_law :
      (d : D) (r : Registers) (x : ℕ)
      → x < sectors_in r * 512
      → c.read_data d r x ≡ c.sector d (device_in r) (lba_in r + x / 512) (x % 512)
  pub write_law :
      (d : D) (r : Registers) (buf : Mem) (dev lba o : ℕ)
      → o < 512
      → c.sector (c.write_data d r buf) dev lba o ≡ (
          if (dev == device_in r) && (leb (lba_in r) lba && ltb lba (lba_in r + sectors_in r))
          then buf ((lba - lba_in r) * 512 + o)
          else c.sector d dev lba o)

-- `select_disk`
unfoldable pub select_disk : ℕ → ℕ
select_disk dev_no =
    let reg_device = bit_or 0xa0 0x40 in if dev_no == 1 then bit_or reg_device 0x10 else reg_device

-- `select_sector`; `sec_cnt` is a `uint8_t`, and `outb` writes the low byte
unfoldable pub select_sector : ℕ → ℕ → ℕ → Outcome Registers
select_sector dev_no lba sec_cnt = do
  assert (leb lba max_lba)
  done (record {
    reg_sect_cnt = sec_cnt % 256;
    reg_lba_l = lba % 256;
    reg_lba_m = lba / 2 ^ 8 % 256;
    reg_lba_h = lba / 2 ^ 16 % 256;
    reg_dev =
        bit_or (bit_or (bit_or 0xa0 0x40) (if dev_no == 1 then 0x10 else 0)) (lba / 2 ^ 24) % 256;
  })

-- `size_in_byte` of `read_from_sector` and `write2sector`
unfoldable pub size_in_byte : ℕ → ℕ
size_in_byte sec_cnt = if sec_cnt % 256 == 0 then 256 * 512 else sec_cnt % 256 * 512

unfoldable pub read_from_sector : Mem → ℕ → Mem → ℕ → Mem
read_from_sector buf dst port sec_cnt = copy buf dst port (size_in_byte sec_cnt / 2 * 2)

-- what `write2sector` sends: the bytes behind those are not sent
unfoldable pub write2sector : Mem → ℕ → ℕ → Mem
write2sector buf src sec_cnt = copy (λ x. 0) 0 (λ x. buf (src + x)) (size_in_byte sec_cnt / 2 * 2)

abbrev pub is_busy : ℕ → Bool
is_busy status = not (bit_and status 0x80 == 0)

abbrev pub has_data : ℕ → Bool
has_data status = not (bit_and status 0x8 == 0)

-- The loop of `busy_wait`: `time_limit -= 10 >= 0` takes 1 off, and ends the loop at 0. `n` counts
-- the reads of the status register.
unfoldable pub wait_loop : ℕ → (ℕ → ℕ) → ℕ → Bool
wait_loop zero status n = false
wait_loop (suc time_limit) status n =
    let rest = wait_loop time_limit status (n + 1) in
    if time_limit == 0
    then false
    else if not (is_busy (status n))
    then has_data (status (n + 1))
    else rest

unfoldable pub busy_wait : (ℕ → ℕ) → Bool
busy_wait status = wait_loop (30 * 1000) status 0

-- how many sectors the next command transfers
abbrev pub batch : ℕ → ℕ → ℕ
batch secs_done sec_cnt = if leb (u32 (secs_done + 256)) sec_cnt then 256 else sec_cnt - secs_done

module _ {D : Type 0} (c : Controller D) (dev_no lba : ℕ) where
  -- Every round transfers a sector at least, so `sec_cnt` rounds are enough; fuel that runs out is
  -- `panic`.
  unfoldable pub read_rounds : ℕ → D → Mem → ℕ → ℕ → Outcome Mem
  read_rounds zero d buf sec_cnt secs_done = elim (ltb secs_done sec_cnt) [
    | false ↦ done buf
    | true ↦ panic
  ]
  read_rounds (suc fuel) d buf sec_cnt secs_done = elim (ltb secs_done sec_cnt) [
    | false ↦ done buf
    | true ↦ do
      r ← select_sector dev_no (u32 (lba + secs_done)) (batch secs_done sec_cnt)
      assert (busy_wait (c.status d r))
      read_rounds fuel d
          (read_from_sector buf (secs_done * 512) (c.read_data d r) (batch secs_done sec_cnt))
          sec_cnt (secs_done + batch secs_done sec_cnt)
  ]

  unfoldable pub ide_read : D → Mem → ℕ → Outcome Mem
  ide_read d buf sec_cnt = do
    assert (leb lba max_lba)
    assert (ltb 0 sec_cnt)
    read_rounds sec_cnt d buf sec_cnt 0

  unfoldable pub write_rounds : ℕ → D → Mem → ℕ → ℕ → Outcome D
  write_rounds zero d buf sec_cnt secs_done = elim (ltb secs_done sec_cnt) [
    | false ↦ done d
    | true ↦ panic
  ]
  write_rounds (suc fuel) d buf sec_cnt secs_done = elim (ltb secs_done sec_cnt) [
    | false ↦ done d
    | true ↦ do
      r ← select_sector dev_no (u32 (lba + secs_done)) (batch secs_done sec_cnt)
      assert (busy_wait (c.status d r))
      write_rounds fuel
          (c.write_data d r (write2sector buf (secs_done * 512) (batch secs_done sec_cnt))) buf
          sec_cnt (secs_done + batch secs_done sec_cnt)
  ]

  unfoldable pub ide_write : D → Mem → ℕ → Outcome D
  ide_write d buf sec_cnt = do
    assert (leb lba max_lba)
    assert (ltb 0 sec_cnt)
    write_rounds sec_cnt d buf sec_cnt 0
