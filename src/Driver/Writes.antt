-- ===== src/Driver/Writes.antt =====
-- `ide_write` as a whole transfer of sectors.
use elephant_os.Base.{
  ℕ, zero, suc, ◌+◌, ◌-◌, ◌*◌, ◌/◌, ◌%◌, ◌^◌, ◌<◌, ◌≤◌, ◌≡◌, ◌≢◌, refl, ==_of_ne, ◌∙◌, ap, inl, inr,
  true, false, ◌&&◌, arith, ltb, lt→ltb, leb, ◌==◌, if◌then◌else◌, Mem, done, Bool-cases,
}
use mathlib.Core.Path.{fun_ext}
use elephant_os.Disk.{max_lba, copy, write_sectors}
use elephant_os.Disk.Bytes.{copy-start}
use elephant_os.Driver.{
  Registers, sectors_in, lba_in, device_in, Controller, IsAta, select_sector, size_in_byte,
  write2sector, batch, write_rounds, ide_write,
}
use elephant_os.Driver.Select.{select_sector_lem, flat, IsReady, batch_lem}

module _ {D : Type 0} (c : Controller D) (law : IsAta c) (dev_no lba sec_cnt : ℕ) (two : dev_no < 2)
    (ready : IsReady c) where
  -- the disks after the first sectors of the buffer are written
  unfoldable Wrote : D → Mem → D → ℕ → Type 0
  Wrote d0 buf d before =
      (dev a : ℕ)
      → flat c d dev a ≡ (
          if (dev == dev_no) && (leb (lba * 512) a && ltb a ((lba + before) * 512))
          then buf (a - lba * 512)
          else flat c d0 dev a)

  write2sector_lem :
      (buf : Mem) (src cnt k : ℕ)
      → size_in_byte cnt ≡ cnt * 512
      → k < cnt * 512
      → write2sector buf src cnt k ≡ buf (src + k)
  unfolding write2sector
  write2sector_lem buf src cnt k size lt =
      copy-start (λ x. 0) (λ x. buf (src + x)) (size_in_byte cnt / 2 * 2) k (omega arith)

  write_chunk :
      (d0 d : D) (buf : Mem) (r : Registers) (before cnt : ℕ)
      → lba_in r ≡ lba + before
      → device_in r ≡ dev_no
      → sectors_in r ≡ cnt
      → size_in_byte cnt ≡ cnt * 512
      → Wrote d0 buf d before
      → Wrote d0 buf (c.write_data d r (write2sector buf (before * 512) cnt)) (before + cnt)
  unfolding Wrote
  write_chunk d0 d buf r before cnt at devs many size wrote dev a =
      let new =
        law.write_law d r (write2sector buf (before * 512) cnt) dev (a / 512) (a % 512)
          (omega arith) in
      let moved : (if (dev == device_in r)
              && (leb (lba_in r) (a / 512) && ltb (a / 512) (lba_in r + sectors_in r))
            then write2sector buf (before * 512) cnt ((a / 512 - lba_in r) * 512 + a % 512)
            else flat c d dev a)
          ≡ (if (dev == dev_no) && (leb (lba * 512) a && ltb a ((lba + (before + cnt)) * 512))
              then buf (a - lba * 512)
              else flat c d0 dev a) =
        rw (devs, at, many)
          (elim (Bool-cases (leb (lba + before) (a / 512) && ltb (a / 512) (lba + before + cnt))) [
            | inl within ↦
                let k = (a / 512 - (lba + before)) * 512 + a % 512 in
                let low : k < cnt * 512 = ground arith in
                let back : before * 512 + k ≡ a - lba * 512 = ground arith in
                let sent : write2sector buf (before * 512) cnt k ≡ buf (a - lba * 512) =
                  write2sector_lem buf (before * 512) cnt k size low ∙ ap buf back in
                ground (arith, wrote dev a)
            | inr outside ↦ ground (arith, wrote dev a)
          ]) in
      new ∙ moved

  write_round :
      (fuel : ℕ) (d : D) (buf : Mem) (before : ℕ) (r : Registers)
      → ltb before sec_cnt ≡ true
      → (lba + before) % 2 ^ 32 ≡ lba + before
      → select_sector dev_no (lba + before) (batch before sec_cnt) ≡ done r
      → write_rounds c dev_no lba (suc fuel) d buf sec_cnt before
        ≡ write_rounds c dev_no lba fuel
            (c.write_data d r (write2sector buf (before * 512) (batch before sec_cnt)))
            buf
            sec_cnt
            (before + batch before sec_cnt)
  unfolding write_rounds
  write_round fuel d buf before r more no_wrap sel =
      rw (write_rounds, more, no_wrap, sel, ready d r) refl

  write_rounds_lem :
      (fuel : ℕ) (d0 d : D) (buf : Mem) (before : ℕ)
      → before ≤ sec_cnt
      → sec_cnt ≤ before + fuel
      → lba + sec_cnt ≤ max_lba + 1
      → Wrote d0 buf d before
      → (d' : D) × (write_rounds c dev_no lba fuel d buf sec_cnt before ≡ done d')
        × Wrote d0 buf d' sec_cnt
  unfolding write_rounds
  write_rounds_lem zero d0 d buf before le enough near wrote =
      let over : ltb before sec_cnt ≡ false = ground arith in
      let all : before ≡ sec_cnt = omega arith in (d, rw (write_rounds, over) refl, rw all at wrote)
  write_rounds_lem (suc fuel) d0 d buf before le enough near wrote =
      elim (Bool-cases (ltb before sec_cnt)) [
        | inr over ↦
            let all : before ≡ sec_cnt = ground arith in
            (d, rw (write_rounds, over) refl, rw all at wrote)
        | inl more ↦
            let less : before < sec_cnt = ground arith in
            let (some, few, fits) = batch_lem before sec_cnt less (omega arith) in
            let no_wrap : (lba + before) % 2 ^ 32 ≡ lba + before = omega arith in
            let (r, sel, at, dev, many, size) =
              select_sector_lem dev_no (lba + before) (batch before sec_cnt) two (omega arith) some
                few in
            let (d', run, all) =
              write_rounds_lem fuel d0
                (c.write_data d r (write2sector buf (before * 512) (batch before sec_cnt))) buf
                (before + batch before sec_cnt) fits (omega arith) near
                (write_chunk d0 d buf r before (batch before sec_cnt) at dev many size wrote) in
            (d', write_round fuel d buf before r more no_wrap sel ∙ run, all)
      ]

  Wrote-copy :
      (d0 d : D) (buf : Mem) (n : ℕ)
      → Wrote d0 buf d n
      → (a : ℕ) → copy (flat c d0 dev_no) (lba * 512) buf (n * 512) a ≡ flat c d dev_no a
  unfolding Wrote copy
  Wrote-copy d0 d buf n wrote a = ground (arith, wrote dev_no a)

  -- On a controller that keeps to the standard and is never late, a write of sectors that lie on
  -- the disk succeeds; it does to the disk what `write_sectors` does, and nothing to other disks.
  pub ide_write-write_sectors :
      (d : D) (buf : Mem)
      → 0 < sec_cnt
      → lba + sec_cnt ≤ max_lba + 1
      → (d' : D) × (ide_write c dev_no lba d buf sec_cnt ≡ done d')
        × (write_sectors (flat c d dev_no) lba buf sec_cnt ≡ done (flat c d' dev_no))
        × ((dev a : ℕ) → dev ≢ dev_no → flat c d' dev a ≡ flat c d dev a)
  unfolding ide_write write_sectors Wrote
  ide_write-write_sectors d buf some near =
      let fits : leb lba max_lba ≡ true = ground arith in
      let (d', run, wrote) =
        write_rounds_lem sec_cnt d d buf 0 (omega arith) (omega arith) near
          (λ dev a. ground arith) in
      (
        d',
        rw (fits, lt→ltb 0 sec_cnt some) run,
        rw (fits, lt→ltb 0 sec_cnt some) (ap done (fun_ext (Wrote-copy d d' buf sec_cnt wrote))),
        λ dev a ne. wrote dev a ∙ rw (==_of_ne dev dev_no ne) refl,
      )
