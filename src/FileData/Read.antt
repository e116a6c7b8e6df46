-- ===== src/FileData/Read.antt =====
-- `file_read` as a whole, and reading what was written.
use elephant_os.Base.{
  ℕ, ◌+◌, ◌-◌, ◌*◌, ◌/◌, ◌%◌, ◌^◌, ◌<◌, ◌≤◌, ◌≡◌, refl, ◌∙◌, sym, ap, inr, true, false, ◌&&◌, some,
  arith, ltb, leb, ◌==◌, if◌then◌else◌, Mem, done,
}
use elephant_os.Disk.{block_size}
use elephant_os.Disk.Layout.{IsLaidOut, Owns}
use elephant_os.Disk.Encoding.{IsWord}
use elephant_os.Disk.Alloc.{Agrees}
use elephant_os.Disk.Free.{free_blocks}
use elephant_os.FileData.{OpenFile, read_blocks, read_loop, read_size, file_read, file_write}
use elephant_os.FileData.Planned.{has_used, IsFile}
use elephant_os.FileData.ReadLoop.{content, OnDisk, read_loop_lem}
use elephant_os.FileData.Write.{file_write_lem}

-- as many bytes as are asked for, or as are left
abbrev pub available : OpenFile → ℕ → ℕ
available f count =
    if ltb (f.inode.i_size - f.fd_pos) count then f.inode.i_size - f.fd_pos else count

module _ (f : OpenFile) (count : ℕ) (h : IsLaidOut f.part)
    (o : Owns f.part f.inode.i_sectors (has_used f)) (few : has_used f ≤ 12)
    (inside : f.fd_pos < f.inode.i_size) (small : count < 2 ^ 31) where
  abbrev direct_blocks : (ℕ → ℕ) → ℕ → ℕ
  direct_blocks all n =
      if leb (f.fd_pos / 512) n && leb n ((f.fd_pos + available f count) / 512) && ltb n 12
      then f.inode.i_sectors n
      else all n

  read_size_lem : read_size f count ≡ available f count
  unfolding read_size
  read_size_lem =
      let no_wrap : (f.fd_pos + count) % 2 ^ 32 ≡ f.fd_pos + count = omega arith in
      let rest : (f.inode.i_size + 2 ^ 32 - f.fd_pos) % 2 ^ 32 ≡ f.inode.i_size - f.fd_pos =
        omega arith in
      rw (read_size, no_wrap, rest) (ground arith)

  available_lem : (available f count ≤ count) × (f.fd_pos + available f count ≤ f.inode.i_size)
  available_lem = ground arith

  direct_blocks_lem :
      (all : ℕ → ℕ) (x : ℕ)
      → f.fd_pos ≤ x
      → x < f.fd_pos + available f count
      → direct_blocks all (x / 512) ≡ f.inode.i_sectors (x / 512)
  direct_blocks_lem all x lo hi =
      let first : leb (f.fd_pos / 512) (x / 512) ≡ true = ground arith in
      let last : leb (x / 512) ((f.fd_pos + available f count) / 512) ≡ true = ground arith in
      let low : ltb (x / 512) 12 ≡ true = ground (arith, available_lem) in
      rw (first, last, low) refl

  OnDisk-direct : (all : ℕ → ℕ) → OnDisk (direct_blocks all) f.fd_pos (available f count)
  unfolding OnDisk
  OnDisk-direct all x lo hi =
      rw (direct_blocks_lem all x lo hi)
        (omega (arith, (o.in_use (x / 512) (omega (arith, available_lem))).inside, h.on_disk))

  file_read_run :
      (all : ℕ → ℕ) (buf : Mem) (buf' : Mem) (pos' : ℕ)
      → read_loop
          (available f count)
          (direct_blocks all)
          f.part.disk
          (available f count)
          f.fd_pos
          buf
          0
          (available f count)
        ≡ done (buf', pos')
      → file_read (some all) f buf count
        ≡ done (some (available f count), buf', record f { fd_pos = pos' })
  unfolding file_read read_blocks
  file_read_run all buf buf' pos' run =
      let n = available f count in
      let at_end : (ltb f.inode.i_size ((f.fd_pos + count) % 2 ^ 32) && (n == 0)) ≡ false =
        ground arith in
      let end_pos : (f.fd_pos + n) % 2 ^ 32 ≡ f.fd_pos + n = omega (arith, available_lem) in
      let start_few : ltb (f.fd_pos / 512) 139 ≡ true = ground arith in
      let end_few : ltb ((f.fd_pos + n) / 512) 139 ≡ true = ground (arith, available_lem) in
      let direct : ltb ((f.fd_pos + n) / 512) 12 ≡ true = ground (arith, available_lem) in
      rw (file_read, read_size_lem, at_end, end_pos, start_few, end_few, read_blocks, direct, run)
        refl

-- On a partition whose parts follow each other on the disk, let a file have different blocks in use
-- up to the one that its end falls into, at most 12, and its position before its end. If fewer than
-- 2 ^ 31 bytes are asked for and both `sys_malloc` calls succeed, then `file_read` returns the
-- number of bytes asked for, or of those that are left if they are fewer; these bytes of the file
-- come into the buffer and the position moves behind them.
pub file_read_lem :
    (f : OpenFile) (all : ℕ → ℕ) (buf : Mem) (count : ℕ)
    → IsLaidOut f.part
    → Owns f.part f.inode.i_sectors (has_used f)
    → has_used f ≤ 12
    → f.fd_pos < f.inode.i_size
    → count < 2 ^ 31
    → (buf' : Mem) × (file_read (some all) f buf count
        ≡ done (some (available f count), buf', record f { fd_pos = f.fd_pos + available f count }))
      × ((k : ℕ)
          → k < available f count
          → buf' k ≡ content f.part.disk f.inode.i_sectors (f.fd_pos + k))
      × ((a : ℕ) → available f count ≤ a → buf' a ≡ buf a)
file_read_lem f all buf count h o few inside small =
    let n = available f count in
    let (n_count, n_size) = available_lem f count h o few inside small in
    let blocks = direct_blocks f count h o few inside small all in
    let (buf', run, bytes, others) =
      read_loop_lem n blocks f.part.disk n f.fd_pos buf 0 n (omega arith) (omega arith)
        (omega arith) (omega arith) (OnDisk-direct f count h o few inside small all) in
    (
      buf',
      file_read_run f count h o few inside small all buf buf' (f.fd_pos + n) run,
      λ k lt.
          let at : 0 + k ≡ k = omega arith in
          ap buf' (sym at)
          ∙ bytes k lt
          ∙ ap (λ b. f.part.disk (b * 512 + (f.fd_pos + k) % 512))
              (direct_blocks_lem f count h o few inside small all (f.fd_pos + k) (omega arith)
                (omega arith)),
      λ a le. others a (inr (omega arith)),
    )

-- Under the conditions of `file_write_lem`, a read of as many bytes from the old end of the file
-- that follows a write of at least one byte returns the bytes that were written, and the file has
-- grown by them.
pub write_then_read :
    (f : OpenFile) (io_buf : Mem) (all : ℕ → ℕ) (buf buf0 : Mem) (count : ℕ)
    → IsLaidOut f.part
    → Agrees f.part.disk f.part.sb.block_bitmap_lba f.part.block_bitmap
    → IsFile f
    → IsWord f.inode
    → (f.inode.i_size + count) / block_size + 1 ≤ 12
    → (f.inode.i_size + count) / block_size - f.inode.i_size / block_size
      ≤ free_blocks f.part.block_bitmap
    → 0 < count
    → (f1 f2 : OpenFile) × (buf' : Mem) × (file_write (some io_buf) (some all) f buf count
        ≡ done (some count, f1))
      × (file_read (some all) (record f1 { fd_pos = f.inode.i_size }) buf0 count
          ≡ done (some count, buf', f2))
      × ((k : ℕ) → k < count → buf' k ≡ buf k)
      × (f1.inode.i_size ≡ f.inode.i_size + count)
write_then_read f io_buf all buf buf0 count h agrees w word room free some_bytes =
    let (f1, run, written) = file_write_lem f io_buf all buf count h agrees w word room free in
    let size = f.inode.i_size in
    let grown = written.size in
    let (buf', read, bytes, others) =
      file_read_lem (record f1 { fd_pos = size }) all buf0 count written.laid_out
        written.is_file.owns written.is_file.direct (omega arith) (omega arith) in
    let whole : available (record f1 { fd_pos = size }) count ≡ count = ground arith in
    (
      f1,
      record f1 { fd_pos = size + count },
      buf',
      run,
      rw whole at read,
      λ k lt. bytes k (rw whole lt) ∙ written.new_bytes k lt,
      written.size,
    )
