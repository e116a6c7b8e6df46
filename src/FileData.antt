-- ===== src/FileData.antt =====
-- fs/file.c: `file_write` and `file_read` on a file of the partition `cur_part`. Blocks are sectors
-- and are known by their address; `all_blocks` is the array of addresses that both collect first.
-- The two `sys_malloc` calls are arguments: `none` is `NULL`. `none` as a result is -1.
pub mod Plan
pub mod Rounds
pub mod WriteLoop
pub mod Planned
pub mod Data
pub mod Write
pub mod Read
pub mod ReadLoop
pub mod Tests
use elephant_os.Base.{
  ℕ, zero, suc, ◌+◌, ◌-◌, ◌*◌, ◌/◌, ◌%◌, ◌^◌, Bool, true, false, not, ◌&&◌, ◌||◌, Option, none,
  some, ◌==◌, ltb, leb, if◌then◌else◌, update, u32, sub32, Mem, Outcome, done, panic, ◌>>=◌, ◌>>◌,
  assert,
}
use elephant_os.Files.{Inode}
use elephant_os.Disk.{
  Partition, SuperBlock, BitmapType, block_size, copy, read_sectors, write_sectors, word_at,
  bytes_of, inode_sync, bitmap_sync, block_bitmap_alloc,
}

-- a file of the partition: its inode and the position in `struct file`
pub record OpenFile : Type 0 where
  pub part : Partition
  pub inode : Inode
  pub fd_pos : ℕ

abbrev pub set_sector : OpenFile → ℕ → ℕ → OpenFile
set_sector f idx lba =
    let i : Inode = record f.inode { i_sectors = update f.inode.i_sectors idx lba } in
    record f { inode = i }

-- One of the loops that allocate blocks up to `file_will_use_blocks`: of the three, the first only
-- meets indices below 12 and the third only others. `false` is the early return of -1.
unfoldable pub alloc_loop : ℕ → ℕ → OpenFile → (ℕ → ℕ) → Outcome (Bool × OpenFile × (ℕ → ℕ))
alloc_loop zero block_idx f all_blocks = done (true, f, all_blocks)
alloc_loop (suc left) block_idx f all_blocks = do
  r ← block_bitmap_alloc f.part
  elim r.0 [
    | none ↦ done (false, record f { part = r.1 }, all_blocks)
    | some block_lba ↦ do
      let f1 : OpenFile = record f { part = r.1 }
      assert (leb 12 block_idx || (f1.inode.i_sectors block_idx == 0))
      let f2 = if ltb block_idx 12 then set_sector f1 block_idx block_lba else f1
      part ←
          bitmap_sync f2.part (sub32 block_lba f2.part.sb.data_start_lba)
            BitmapType.block_bitmap_type
      alloc_loop left (block_idx + 1) (record f2 { part = part })
          (update all_blocks block_idx block_lba)
  ]

-- `ide_read(.., indirect_block_table, all_blocks + 12, 1)`
unfoldable pub read_table : Mem → ℕ → (ℕ → ℕ) → Outcome (ℕ → ℕ)
read_table disk table all_blocks = do
  buf ← read_sectors disk table (λ x. 0) 1
  done (λ n. if leb 12 n && ltb n 140 then word_at buf (4 * (n - 12)) else all_blocks n)

unfoldable pub write_table : OpenFile → ℕ → (ℕ → ℕ) → Outcome OpenFile
write_table f table all_blocks = do
  disk ← write_sectors f.part.disk table (bytes_of (λ n. all_blocks (12 + n))) 1
  let part : Partition = record f.part { disk = disk }
  done (record f { part = part })

-- the block of a file that is written for the first time
unfoldable pub first_block : OpenFile → Outcome (Bool × OpenFile)
first_block f =
    if f.inode.i_sectors 0 == 0
    then (do
      r ← block_bitmap_alloc f.part
      elim r.0 [
        | none ↦ done (false, record f { part = r.1 })
        | some block_lba ↦ do
          let f1 = set_sector (record f { part = r.1 }) 0 block_lba
          let block_bitmap_idx = sub32 block_lba f1.part.sb.data_start_lba
          assert (not (block_bitmap_idx == 0))
          part ← bitmap_sync f1.part block_bitmap_idx BitmapType.block_bitmap_type
          done (true, record f1 { part = part })
      ])
    else done (true, f)

-- no new block
unfoldable pub plan_same : OpenFile → ℕ → (ℕ → ℕ) → Outcome (Bool × OpenFile × (ℕ → ℕ))
plan_same f has_used all_blocks =
    if leb has_used 12
    then done (true, f, update all_blocks (sub32 has_used 1) (f.inode.i_sectors (sub32 has_used 1)))
    else (do
      assert (not (f.inode.i_sectors 12 == 0))
      all ← read_table f.part.disk (f.inode.i_sectors 12) all_blocks
      done (true, f, all))

-- situation 1: the direct blocks suffice
unfoldable pub plan_direct : OpenFile → ℕ → ℕ → (ℕ → ℕ) → Outcome (Bool × OpenFile × (ℕ → ℕ))
plan_direct f has_used will_use all_blocks =
    let block_idx = sub32 has_used 1 in
    do
      assert (not (f.inode.i_sectors block_idx == 0))
      alloc_loop (will_use - has_used) has_used f
          (update all_blocks block_idx (f.inode.i_sectors block_idx))

-- what follows the loop in situations 2 and 3
unfoldable pub save_table : Bool × OpenFile × (ℕ → ℕ) → ℕ → Outcome (Bool × OpenFile × (ℕ → ℕ))
save_table (false, f, all) table = done (false, f, all)
save_table (true, f, all) table = do f' ← write_table f table all; done (true, f', all)

-- situation 2: the new data reach the indirect blocks
unfoldable pub plan_across : OpenFile → ℕ → ℕ → (ℕ → ℕ) → Outcome (Bool × OpenFile × (ℕ → ℕ))
plan_across f has_used will_use all_blocks =
    let block_idx = sub32 has_used 1 in
    let all = update all_blocks block_idx (f.inode.i_sectors block_idx) in
    do
      r ← block_bitmap_alloc f.part
      elim r.0 [
        | none ↦ done (false, record f { part = r.1 }, all)
        | some table ↦ do
          assert (f.inode.i_sectors 12 == 0)
          let f1 = set_sector (record f { part = r.1 }) 12 table
          res ← alloc_loop (will_use - has_used) has_used f1 all
          save_table res table
      ]

-- situation 3: the file uses indirect blocks already
unfoldable pub plan_indirect : OpenFile → ℕ → ℕ → (ℕ → ℕ) → Outcome (Bool × OpenFile × (ℕ → ℕ))
plan_indirect f has_used will_use all_blocks = do
  assert (not (f.inode.i_sectors 12 == 0))
  let table = f.inode.i_sectors 12
  all ← read_table f.part.disk table all_blocks
  res ← alloc_loop (will_use - has_used) has_used f all
  save_table res table

unfoldable pub plan_blocks : OpenFile → ℕ → ℕ → (ℕ → ℕ) → Outcome (Bool × OpenFile × (ℕ → ℕ))
plan_blocks f has_used will_use all_blocks =
    if sub32 will_use has_used == 0
    then plan_same f has_used all_blocks
    else if leb will_use 12
    then plan_direct f has_used will_use all_blocks
    else if leb has_used 12
    then plan_across f has_used will_use all_blocks
    else plan_indirect f has_used will_use all_blocks

-- the file after `chunk_size` bytes are written
abbrev pub advance : OpenFile → Mem → ℕ → OpenFile
advance f disk chunk_size =
    let part : Partition = record f.part { disk = disk } in
    let inode : Inode = record f.inode { i_size = u32 (f.inode.i_size + chunk_size) } in
    record { part = part; inode = inode; fd_pos = u32 (f.fd_pos + chunk_size) }

abbrev pub chunk : ℕ → ℕ → ℕ
chunk size_left pos =
    let sec_left_bytes = block_size - pos % block_size in
    if ltb size_left sec_left_bytes then size_left else sec_left_bytes

-- Each round writes at least one byte, so `count` rounds are enough; fuel that runs out is `panic`.
unfoldable pub write_loop : ℕ → (ℕ → ℕ) → Mem → ℕ → OpenFile → Bool → ℕ → ℕ → Outcome OpenFile
write_loop zero all_blocks buf count f first_write_block bytes_written size_left =
    elim (ltb bytes_written count) [ false ↦ done f | true ↦ panic ]
write_loop (suc fuel) all_blocks buf count f first_write_block bytes_written size_left =
    let i_size = f.inode.i_size in
    let sec_lba = all_blocks (i_size / block_size) in
    let sec_off_bytes = i_size % block_size in
    let chunk_size = chunk size_left i_size in
    elim (ltb bytes_written count) [
      | false ↦ done f
      | true ↦ do
        io_buf ←
            if first_write_block then read_sectors f.part.disk sec_lba (λ x. 0) 1 else done (λ x. 0)
        disk ←
            write_sectors f.part.disk sec_lba
              (copy io_buf sec_off_bytes (λ x. buf (bytes_written + x)) chunk_size) 1
        write_loop fuel all_blocks buf count (advance f disk chunk_size) false
            (u32 (bytes_written + chunk_size)) (sub32 size_left chunk_size)
    ]

abbrev pub max_file_size : ℕ
max_file_size = block_size * 140

-- `file_write` once the blocks are known
unfoldable pub write_data : OpenFile → (ℕ → ℕ) → Mem → ℕ → Outcome (Option ℕ × OpenFile)
write_data f all_blocks buf count =
    let inode : Inode = f.inode in
    do
      f' ←
          write_loop count all_blocks buf count (record f { fd_pos = sub32 inode.i_size 1 }) true 0
            count
      part ← inode_sync f'.part f'.inode (λ x. 0)
      done (some count, record f' { part = part })

unfoldable pub file_write :
    Option Mem → Option (ℕ → ℕ) → OpenFile → Mem → ℕ → Outcome (Option ℕ × OpenFile)
file_write none all_blocks f buf count = done (none, f)
file_write (some io_buf) none f buf count = done (none, f)
file_write (some io_buf) (some all_blocks) f buf count =
    if ltb max_file_size (u32 (f.inode.i_size + count)) then done (none, f) else (do
      r ← first_block f
      elim r.0 [
        | false ↦ done (none, r.1)
        | true ↦ do
          let has_used = r.1.inode.i_size / block_size + 1
          let will_use = u32 (r.1.inode.i_size + count) / block_size + 1
          assert (leb will_use 140)
          plan ← plan_blocks r.1 has_used will_use all_blocks
          if plan.0 then write_data plan.1 plan.2 buf count else done (none, plan.1)
      ])

-- the addresses that `file_read` collects, for a first and a last block
unfoldable pub read_blocks : OpenFile → ℕ → ℕ → (ℕ → ℕ) → Outcome (ℕ → ℕ)
read_blocks f start_idx end_idx all_blocks =
    let direct : ℕ → ℕ = λ n.
      if leb start_idx n && leb n end_idx && ltb n 12 then f.inode.i_sectors n else all_blocks n in
    let table = f.inode.i_sectors 12 in
    if ltb end_idx 12
    then done direct
    else if start_idx == end_idx
    then read_table f.part.disk table all_blocks
    else (do assert (not (table == 0)); read_table f.part.disk table direct)

unfoldable pub read_loop : ℕ → (ℕ → ℕ) → Mem → ℕ → ℕ → Mem → ℕ → ℕ → Outcome (Mem × ℕ)
read_loop zero all_blocks disk size fd_pos buf bytes_read size_left = elim (ltb bytes_read size) [
  | false ↦ done (buf, fd_pos)
  | true ↦ panic
]
read_loop (suc fuel) all_blocks disk size fd_pos buf bytes_read size_left =
    let sec_lba = all_blocks (fd_pos / block_size) in
    let sec_off_bytes = fd_pos % block_size in
    let chunk_size = chunk size_left fd_pos in
    elim (ltb bytes_read size) [
      | false ↦ done (buf, fd_pos)
      | true ↦ do
        io_buf ← read_sectors disk sec_lba (λ x. 0) 1
        read_loop fuel all_blocks disk size (u32 (fd_pos + chunk_size))
            (copy buf bytes_read (λ x. io_buf (sec_off_bytes + x)) chunk_size)
            (u32 (bytes_read + chunk_size)) (sub32 size_left chunk_size)
    ]

-- how many bytes are read
unfoldable pub read_size : OpenFile → ℕ → ℕ
read_size f count =
    if ltb f.inode.i_size (u32 (f.fd_pos + count)) then sub32 f.inode.i_size f.fd_pos else count

-- The result is the number of bytes, the caller's buffer and the file. The code only prints a
-- message when the first `sys_malloc` fails; that case is not modelled.
unfoldable pub file_read : Option (ℕ → ℕ) → OpenFile → Mem → ℕ → Outcome (Option ℕ × Mem × OpenFile)
file_read blocks f buf count =
    let size = read_size f count in
    if ltb f.inode.i_size (u32 (f.fd_pos + count)) && (size == 0)
    then done (none, buf, f)
    else elim blocks [
      | none ↦ done (none, buf, f)
      | some all_blocks ↦ do
        let start_idx = f.fd_pos / block_size
        let end_idx = u32 (f.fd_pos + size) / block_size
        assert (ltb start_idx 139 && ltb end_idx 139)
        all ← read_blocks f start_idx end_idx all_blocks
        res ← read_loop size all f.part.disk size f.fd_pos buf 0 size
        done (some size, res.0, record f { fd_pos = res.1 })
    ]
