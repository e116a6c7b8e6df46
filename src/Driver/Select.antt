-- ===== src/Driver/Select.antt =====
-- The registers of a transfer, and what the file system sees of a controller.
use elephant_os.Base.{
  ℕ, ◌+◌, ◌*◌, ◌/◌, ◌%◌, ◌^◌, ◌<◌, ◌≤◌, ◌≡◌, refl, inl, inr, true, arith, leb, ◌==◌, if◌then◌else◌,
  Mem, done, Bool-cases,
}
use elephant_os.Disk.{max_lba}
use elephant_os.Driver.{
  Registers, sectors_in, lba_in, device_in, Controller, select_sector, size_in_byte, busy_wait,
  batch,
}

-- the registers of a transfer of `cnt` sectors, at most 256
unfoldable pub registers : ℕ → ℕ → ℕ → Registers
registers dev_no lba cnt = record {
  reg_sect_cnt = cnt % 256;
  reg_lba_l = lba % 256;
  reg_lba_m = lba / 2 ^ 8 % 256;
  reg_lba_h = lba / 2 ^ 16 % 256;
  reg_dev = if dev_no == 1 then 0xf0 else 0xe0;
}

-- For an address the driver accepts, a device number and up to 256 sectors, the registers that
-- `select_sector` writes give the controller that address, that device and that number back.
pub select_sector_lem :
    (dev_no lba cnt : ℕ)
    → dev_no < 2
    → lba ≤ max_lba
    → 0 < cnt
    → cnt ≤ 256
    → (r : Registers) × (select_sector dev_no lba cnt ≡ done r)
      × (lba_in r ≡ lba)
      × (device_in r ≡ dev_no)
      × (sectors_in r ≡ cnt)
      × (size_in_byte cnt ≡ cnt * 512)
unfolding select_sector registers size_in_byte
select_sector_lem dev_no lba cnt two near some few =
    let fits : leb lba max_lba ≡ true = ground arith in
    let high : lba / 2 ^ 24 ≡ 0 = omega arith in
    (
      registers dev_no lba cnt,
      elim (Bool-cases (dev_no == 1)) [
        | inl e ↦ rw (fits, high, e) refl
        | inr e ↦ rw (fits, high, e) refl
      ],
      elim (Bool-cases (dev_no == 1)) [ inl e ↦ rw e (omega arith) | inr e ↦ rw e (omega arith) ],
      ground arith,
      ground arith,
      ground arith,
    )

module _ {D : Type 0} (c : Controller D) where
  -- a disk as the file system sees it
  abbrev pub flat : D → ℕ → Mem
  flat d dev_no a = c.sector d dev_no (a / 512) (a % 512)

  -- the controller is never late
  abbrev pub IsReady : Type 0
  IsReady = (d : D) (r : Registers) → busy_wait (c.status d r) ≡ true

pub batch_lem :
    (before sec_cnt : ℕ)
    → before < sec_cnt
    → sec_cnt ≤ max_lba + 1
    → (0 < batch before sec_cnt)
      × (batch before sec_cnt ≤ 256)
      × (before + batch before sec_cnt ≤ sec_cnt)
batch_lem before sec_cnt lt near =
    let no_wrap : (before + 256) % 2 ^ 32 ≡ before + 256 = omega arith in ground arith
