-- ===== src/Driver/Setup.antt =====
-- device/ide.c: the channels, the interrupt handler and what a disk says about itself. The data of
-- the command `CMD_IDENTIFY` is a parameter, as the status register is.
use elephant_os.Base.{
  ℕ, zero, suc, ◌+◌, ◌-◌, ◌*◌, ◌/◌, ◌%◌, Bool, true, false, ◌||◌, Option, none, some, ◌==◌, ltb,
  if◌then◌else◌, update, fill, u32, Mem, Outcome, done, ◌>>=◌, ◌>>◌, assert,
}
use elephant_os.CString.{on_some}
use elephant_os.Disk.{word_at}
use elephant_os.Format.{div_round_up}
use elephant_os.Sync.{Semaphore, Lock, sema_init, sema_down_round, sema_up, lock_init}
use elephant_os.Driver.{busy_wait, read_from_sector}

pub record Channel : Type 0 where
  pub port_base : ℕ
  pub irq_no : ℕ
  pub lock : Lock
  pub expecting_intr : Bool
  pub disk_done : Semaphore

-- what `cmd_out` does to the channel
unfoldable pub cmd_out : Channel → Channel
cmd_out channel = record channel { expecting_intr = true }

-- The channels, with the thread that `sema_up` hands to `thread_unblock`.
unfoldable pub intr_hd_handler : (ℕ → Channel) → ℕ → Outcome ((ℕ → Channel) × Option ℕ)
intr_hd_handler channels irq_no =
    let ch_no = irq_no - 0x2e in
    let channel = channels ch_no in
    do
      assert ((irq_no == 0x2e) || (irq_no == 0x2f))
      assert (channel.irq_no == irq_no)
      elim (channel.expecting_intr) [
        | false ↦ done (channels, none)
        | true ↦ do
          (disk_done, woken) ← sema_up channel.disk_done
          done (
            update channels ch_no
                (record channel { expecting_intr = false; disk_done = disk_done }),
            woken,
          )
      ]

-- a round of `sema_down(&channel->disk_done)` by the thread `running`
unfoldable pub wait_done : (ℕ → Channel) → ℕ → ℕ → Outcome ((ℕ → Channel) × Bool)
wait_done channels ch_no running = do
  let channel = channels ch_no
  (disk_done, through) ← sema_down_round channel.disk_done running
  done (update channels ch_no (record channel { disk_done = disk_done }), through)

-- the set-up of one channel in `ide_init`
unfoldable pub init_channel : ℕ → Channel → Channel
init_channel channel_no channel = record {
  port_base =
      if channel_no == 0 then 0x1f0 else if channel_no == 1 then 0x170 else channel.port_base;
  irq_no =
      if channel_no == 0 then 0x20 + 14 else if channel_no == 1 then 0x20 + 15 else channel.irq_no;
  expecting_intr = false;
  lock = lock_init;
  disk_done = sema_init 0;
}

unfoldable pub init_loop : ℕ → ℕ → (ℕ → Channel) → (ℕ → Channel)
init_loop zero channel_no channels = channels
init_loop (suc left) channel_no channels =
    init_loop left (channel_no + 1)
      (update channels channel_no (init_channel channel_no (channels channel_no)))

-- The channels that `ide_init` sets up for `hd_cnt` disks.
unfoldable pub init_channels : ℕ → (ℕ → Channel) → Outcome (ℕ → Channel)
init_channels hd_cnt channels = do
  assert (ltb 0 hd_cnt)
  done (init_loop (div_round_up hd_cnt 2) 0 channels)

-- The loop of `swap_pairs_bytes`, with the position in `dst`; `idx` is a `uint8_t`.
unfoldable pub swap_loop : ℕ → Mem → Mem → ℕ → ℕ → ℕ → Option (Mem × ℕ)
swap_loop zero dst buf len idx pos = none
swap_loop (suc fuel) dst buf len idx pos =
    let b = update (update buf (idx + 1) (dst pos)) idx (dst (pos + 1)) in
    let rest = swap_loop fuel dst b len ((idx + 2) % 256) (pos + 2) in
    if ltb idx len then rest else some (buf, idx)

abbrev pub end_string : Option (Mem × ℕ) → Option Mem
end_string none = none
end_string (some (buf, idx)) = some (update buf idx 0)

unfoldable pub swap_pairs_bytes : ℕ → Mem → Mem → ℕ → Option Mem
swap_pairs_bytes fuel dst buf len = end_string (swap_loop fuel dst buf len 0 0)

-- what `identify_disk` prints
pub record Identity : Type 0 where
  pub serial : Mem
  pub model : Mem
  pub sectors : ℕ
  pub capacity : ℕ

-- `id_info` and `buf` are the memory of the stack, `port` is the data that the disk sends.
unfoldable pub identify_disk : ℕ → (ℕ → ℕ) → Mem → Mem → Mem → Outcome (Option Identity)
identify_disk fuel status port id_info buf =
    let info = read_from_sector id_info 0 port 1 in
    let sectors = word_at info (60 * 2) in
    do
      assert (busy_wait status)
      done (
          on_some (swap_pairs_bytes fuel (λ x. info (10 * 2 + x)) buf 20) (λ serial.
            on_some (swap_pairs_bytes fuel (λ x. info (27 * 2 + x)) (fill serial 0 0 64) 40)
              (λ model. some (record {
                serial = serial;
                model = model;
                sectors = sectors;
                capacity = u32 (sectors * 512) / 1024 / 1024;
              }))))
