-- ===== src/FileData/Write.antt =====
-- `file_write` as a whole.
use elephant_os.Base.{
  ℕ, ◌+◌, ◌-◌, ◌/◌, ◌%◌, ◌^◌, ◌<◌, ◌≤◌, ◌≡◌, ◌≢◌, refl, true, false, some, arith, ltb, leb, ◌==◌,
  u32, sub32, Mem, done, panic,
}
use elephant_os.Disk.{Partition, block_size}
use elephant_os.Disk.Encoding.{IsWord}
use elephant_os.Disk.Alloc.{Agrees}
use elephant_os.Disk.Free.{free_blocks}
use elephant_os.Disk.Layout.{IsLaidOut}
use elephant_os.FileData.{OpenFile, first_block, max_file_size, write_data, file_write}
use elephant_os.FileData.Plan.{Grown, placed}
use elephant_os.FileData.Planned.{
  has_used, will_use, last_old, IsFile, first_block_lem, plan_blocks_lem,
}
use elephant_os.FileData.WriteLoop.{write_loop_lem}
use elephant_os.FileData.Data.{
  Written, OnDisk-all, Apart-all, inode_sync_end, Written-end, end_file,
}

write_data_lem :
    (f : OpenFile) (all : ℕ → ℕ) (buf : Mem) (count : ℕ)
    → IsLaidOut f.part
    → IsFile f
    → IsWord f.inode
    → (f.inode.i_size + count) / block_size + 1 ≤ 12
    → (p' : Partition) (sectors' all' : ℕ → ℕ)
    → Grown f.part f.inode.i_sectors
        (last_old f all)
        (has_used f)
        (will_use f count - has_used f)
        p'
        sectors'
        all'
    → (f' : OpenFile) × (write_data (placed f p' sectors') all' buf count ≡ done (some count, f'))
      × Written f buf count f'
unfolding write_data
write_data_lem f all buf count h w word room p' sectors' all' g =
    let pos = sub32 f.inode.i_size 1 in
    let pos_small : pos < 2 ^ 32 = omega arith in
    let (d', run, bytes, kept) =
      write_loop_lem all' buf count (record (placed f p' sectors') { fd_pos = pos }) (omega arith)
        pos_small (OnDisk-all f all buf count h w room p' sectors' all' g)
        (Apart-all f all buf count h w room p' sectors' all' g) in
    (
      end_file f all buf count h w room p' sectors' all' g word d' (u32 (pos + count)) bytes kept,
      rw
          (
            write_data,
            run,
            inode_sync_end f all buf count h w room p' sectors' all' g word d' (u32 (pos + count))
                bytes kept (λ x. 0),
          )
          refl,
      Written-end f all buf count h w room p' sectors' all' g word d' (u32 (pos + count)) bytes
          kept,
    )

pub file_write_lem :
    (f : OpenFile) (io_buf : Mem) (all : ℕ → ℕ) (buf : Mem) (count : ℕ)
    → IsLaidOut f.part
    → Agrees f.part.disk f.part.sb.block_bitmap_lba f.part.block_bitmap
    → IsFile f
    → IsWord f.inode
    → (f.inode.i_size + count) / block_size + 1 ≤ 12
    → (f.inode.i_size + count) / block_size - f.inode.i_size / block_size
      ≤ free_blocks f.part.block_bitmap
    → (f' : OpenFile) × (file_write (some io_buf) (some all) f buf count ≡ done (some count, f'))
      × Written f buf count f'
unfolding file_write
file_write_lem f io_buf all buf count h agrees w word room free =
    let total = f.inode.i_size + count in
    let no_wrap : total % 2 ^ 32 ≡ total = omega arith in
    let allowed : ltb max_file_size total ≡ false = ground arith in
    let few : leb (total / 512 + 1) 140 ≡ true = ground arith in
    let (p', sectors', all', plan, g) = plan_blocks_lem f all count h w agrees room free in
    let (f', run, written) = write_data_lem f all buf count h w word room p' sectors' all' g in
    (
      f',
      rw
          (
            file_write,
            no_wrap,
            allowed,
            first_block_lem f all count h w agrees room free,
            no_wrap,
            few,
            plan,
          )
          run,
      written,
    )

-- A write that would bring a file that has its first block to the full 140 blocks passes the test
-- of the size, and then fails the `ASSERT` on the number of blocks.
pub file_write_full :
    (f : OpenFile) (io_buf : Mem) (all : ℕ → ℕ) (buf : Mem) (count : ℕ)
    → f.inode.i_size + count ≡ max_file_size
    → f.inode.i_sectors 0 ≢ 0
    → file_write (some io_buf) (some all) f buf count ≡ panic
unfolding file_write first_block
file_write_full f io_buf all buf count e present =
    let has_block : (f.inode.i_sectors 0 == 0) ≡ false = ground arith in
    rw (file_write, e, first_block, has_block, e) refl
