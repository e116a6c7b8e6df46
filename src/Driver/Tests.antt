-- ===== src/Driver/Tests.antt =====
-- Instances of the theorems about the driver, on a controller with two disks.
use elephant_os.Base.{
  ℕ, ◌+◌, ◌-◌, ◌*◌, ◌/◌, ◌%◌, ◌<◌, ◌≡◌, ◌≢◌, refl, true, false, some, none, ◌&&◌, arith, ltb, leb,
  ◌==◌, if◌then◌else◌, Mem, done,
}
use elephant_os.Disk.{read_sectors, write_sectors}
use elephant_os.Driver.{
  Controller, IsAta, sectors_in, lba_in, device_in, is_busy, busy_wait, ide_read, ide_write,
}
use elephant_os.Driver.Wait.{busy_wait_lem}
use elephant_os.Sync.{lock_init, sema_init}
use elephant_os.Driver.Setup.{Channel, intr_hd_handler}
use elephant_os.Driver.Commands.{waits_first, rings_first, set_up, command_done}
use elephant_os.Driver.Select.{flat, IsReady}
use elephant_os.Driver.Reads.{ide_read-read_sectors}
use elephant_os.Driver.Writes.{ide_write-write_sectors}

-- the disks are the bytes by device and address; the status is ready with data at once
abbrev Disks : Type 0
Disks = ℕ → ℕ → Mem

abbrev prompt : Controller Disks
prompt = record {
  sector = λ d. d;
  read_data = λ d r x. d (device_in r) (lba_in r + x / 512) (x % 512);
  write_data = λ d r buf dev lba o.
      if (dev == device_in r) && (leb (lba_in r) lba && ltb lba (lba_in r + sectors_in r))
      then buf ((lba - lba_in r) * 512 + o)
      else d dev lba o;
  status = λ d r n. 0x48;
}

prompt-IsAta : IsAta prompt
prompt-IsAta = record { read_law = λ d r x lt. refl; write_law = λ d r buf dev lba o lt. refl }

prompt-IsReady : IsReady prompt
prompt-IsReady d r = busy_wait_lem (λ n. 0x48) 0 (omega arith) (λ j lt. absurd (omega arith)) refl

-- a disk that holds the number of the sector in every byte
abbrev numbered : Disks
numbered dev lba o = lba % 256

busy_wait_lem_example : busy_wait (λ n. if ltb n 100 then 0x80 else 0x48) ≡ true
busy_wait_lem_example =
    busy_wait_lem (λ n. if ltb n 100 then 0x80 else 0x48) 100 (omega arith) hundred_busy refl
  where
    hundred_busy : (j : ℕ) → j < 100 → is_busy (if ltb j 100 then 0x80 else 0x48) ≡ true
    hundred_busy j lt = ground arith

ide_read-read_sectors_example :
    ide_read prompt 1 1000 numbered (λ x. 7) 300
    ≡ read_sectors (flat prompt numbered 1) 1000 (λ x. 7) 300
ide_read-read_sectors_example =
    ide_read-read_sectors prompt prompt-IsAta 1 1000 300 (omega arith) prompt-IsReady numbered
      (λ x. 7) (omega arith) (omega arith)

ide_write-write_sectors_example :
    (d' : Disks) × (ide_write prompt 1 1000 numbered (λ x. 7) 300 ≡ done d')
    × (write_sectors (flat prompt numbered 1) 1000 (λ x. 7) 300 ≡ done (flat prompt d' 1))
    × ((dev a : ℕ) → dev ≢ 1 → flat prompt d' dev a ≡ flat prompt numbered dev a)
ide_write-write_sectors_example =
    ide_write-write_sectors prompt prompt-IsAta 1 1000 300 (omega arith) prompt-IsReady numbered
      (λ x. 7) (omega arith) (omega arith)

abbrev blank : Channel
blank = record {
  port_base = 0;
  irq_no = 0;
  lock = lock_init;
  expecting_intr = false;
  disk_done = sema_init 0;
}

command_done_example :
    (s s' : ℕ → Channel) × (waits_first (set_up (λ i. blank) 1) 1 100 ≡ done (s, some 100, true))
    × (rings_first (set_up (λ i. blank) 1) 1 100 ≡ done (s', none, true))
    × ((i : ℕ) → (s i ≡ set_up (λ j. blank) 1 i) × (s' i ≡ set_up (λ j. blank) 1 i))
    × (intr_hd_handler s (0x2e + 1) ≡ done (s, none))
command_done_example = command_done (λ i. blank) 1 100 (omega arith)
