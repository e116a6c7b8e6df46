-- ===== src/Driver/Reads.antt =====
-- `ide_read` as a whole transfer of sectors.
use elephant_os.Base.{
  ℕ, zero, suc, ◌+◌, ◌-◌, ◌*◌, ◌/◌, ◌%◌, ◌^◌, ◌<◌, ◌≤◌, ◌≡◌, refl, ◌∙◌, sym, ap, inl, inr, true,
  false, arith, ltb, lt→ltb, leb, Mem, done, Bool-cases,
}
use mathlib.Core.Path.{fun_ext}
use elephant_os.Disk.{max_lba, copy, read_sectors}
use elephant_os.Disk.Bytes.{copy-inside, copy-before, copy-behind, copy-start}
use elephant_os.Driver.{
  Registers, sectors_in, lba_in, device_in, Controller, IsAta, select_sector, size_in_byte,
  read_from_sector, batch, read_rounds, ide_read,
}
use elephant_os.Driver.Select.{select_sector_lem, flat, IsReady, batch_lem}

module _ {D : Type 0} (c : Controller D) (law : IsAta c) (dev_no lba sec_cnt : ℕ) (two : dev_no < 2)
    (ready : IsReady c) where
  read_byte :
      (d : D) (r : Registers) (before cnt k : ℕ)
      → lba_in r ≡ lba + before
      → device_in r ≡ dev_no
      → sectors_in r ≡ cnt
      → k < cnt * 512
      → c.read_data d r k ≡ flat c d dev_no (lba * 512 + (before * 512 + k))
  read_byte d r before cnt k at dev many lt =
      let quot : (lba * 512 + (before * 512 + k)) / 512 ≡ lba_in r + k / 512 = omega arith in
      let rest : (lba * 512 + (before * 512 + k)) % 512 ≡ k % 512 = omega arith in
      law.read_law d r k (omega arith) ∙ (λ i. c.sector d (dev i) (sym quot i) (sym rest i))

  -- One round of a read adds its sectors to those in the buffer.
  read_chunk :
      (d : D) (buf : Mem) (r : Registers) (before cnt : ℕ)
      → lba_in r ≡ lba + before
      → device_in r ≡ dev_no
      → sectors_in r ≡ cnt
      → size_in_byte cnt ≡ cnt * 512
      → read_from_sector
          (copy buf 0 (λ x. flat c d dev_no (lba * 512 + x)) (before * 512))
          (before * 512)
          (c.read_data d r)
          cnt
        ≡ copy buf 0 (λ x. flat c d dev_no (lba * 512 + x)) ((before + cnt) * 512)
  unfolding read_from_sector
  read_chunk d buf r before cnt at dev many size = fun_ext (λ x.
      let src : Mem = λ y. flat c d dev_no (lba * 512 + y) in
      let old = copy buf 0 src (before * 512) in
      let bytes : size_in_byte cnt / 2 * 2 ≡ cnt * 512 = omega arith in
      let whole : before * 512 + cnt * 512 ≡ (before + cnt) * 512 = omega arith in
      rw bytes (elim (Bool-cases (ltb x (before * 512))) [
        | inl early ↦
            copy-before old (c.read_data d r) (before * 512) (cnt * 512) x (ground arith)
            ∙ copy-start buf src (before * 512) x (ground arith)
            ∙ sym (copy-start buf src ((before + cnt) * 512) x (ground arith))
        | inr late ↦ elim (Bool-cases (ltb x ((before + cnt) * 512))) [
          | inl within ↦
              let back : lba * 512 + (before * 512 + (x - before * 512)) ≡ lba * 512 + x =
                ground arith in
              copy-inside old (c.read_data d r) (before * 512) (cnt * 512) x (ground arith)
                (ground arith)
              ∙ read_byte d r before cnt (x - before * 512) at dev many (ground arith)
              ∙ ap (flat c d dev_no) back
              ∙ sym (copy-start buf src ((before + cnt) * 512) x (ground arith))
          | inr behind ↦
              copy-behind old (c.read_data d r) (before * 512) (cnt * 512) x (ground arith)
              ∙ copy-behind buf src 0 (before * 512) x (ground arith)
              ∙ sym (copy-behind buf src 0 ((before + cnt) * 512) x (ground arith))
        ]
      ]))

  read_round :
      (fuel : ℕ) (d : D) (buf : Mem) (before : ℕ) (r : Registers)
      → ltb before sec_cnt ≡ true
      → (lba + before) % 2 ^ 32 ≡ lba + before
      → select_sector dev_no (lba + before) (batch before sec_cnt) ≡ done r
      → read_rounds c dev_no lba (suc fuel) d buf sec_cnt before
        ≡ read_rounds c dev_no lba fuel d
            (read_from_sector buf (before * 512) (c.read_data d r) (batch before sec_cnt))
            sec_cnt
            (before + batch before sec_cnt)
  unfolding read_rounds
  read_round fuel d buf before r more no_wrap sel =
      rw (read_rounds, more, no_wrap, sel, ready d r) refl

  read_rounds_lem :
      (fuel : ℕ) (d : D) (buf : Mem) (before : ℕ)
      → before ≤ sec_cnt
      → sec_cnt ≤ before + fuel
      → lba + sec_cnt ≤ max_lba + 1
      → read_rounds c dev_no lba fuel d
          (copy buf 0 (λ x. flat c d dev_no (lba * 512 + x)) (before * 512))
          sec_cnt
          before
        ≡ done (copy buf 0 (λ x. flat c d dev_no (lba * 512 + x)) (sec_cnt * 512))
  unfolding read_rounds
  read_rounds_lem zero d buf before le enough near =
      let over : ltb before sec_cnt ≡ false = ground arith in
      let all : before ≡ sec_cnt = omega arith in rw (read_rounds, over, all) refl
  read_rounds_lem (suc fuel) d buf before le enough near = elim (Bool-cases (ltb before sec_cnt)) [
    | inr over ↦ let all : before ≡ sec_cnt = ground arith in rw (read_rounds, over, all) refl
    | inl more ↦
        let less : before < sec_cnt = ground arith in
        let (some, few, fits) = batch_lem before sec_cnt less (omega arith) in
        let no_wrap : (lba + before) % 2 ^ 32 ≡ lba + before = omega arith in
        let (r, sel, at, dev, many, size) =
          select_sector_lem dev_no (lba + before) (batch before sec_cnt) two (omega arith) some
            few in
        read_round fuel d _ before r more no_wrap sel
        ∙ ap (λ m. read_rounds c dev_no lba fuel d m sec_cnt (before + batch before sec_cnt))
            (read_chunk d buf r before (batch before sec_cnt) at dev many size)
        ∙ read_rounds_lem fuel d buf (before + batch before sec_cnt) fits (omega arith) near
  ]

  -- On a controller that keeps to the standard and is never late, a read of sectors that lie on the
  -- disk is `read_sectors` of the disk: however many commands it takes, it fills the buffer with
  -- those sectors.
  pub ide_read-read_sectors :
      (d : D) (buf : Mem)
      → 0 < sec_cnt
      → lba + sec_cnt ≤ max_lba + 1
      → ide_read c dev_no lba d buf sec_cnt ≡ read_sectors (flat c d dev_no) lba buf sec_cnt
  unfolding ide_read read_sectors
  ide_read-read_sectors d buf some near =
      let fits : leb lba max_lba ≡ true = ground arith in
      let start : copy buf 0 (λ x. flat c d dev_no (lba * 512 + x)) (0 * 512) ≡ buf =
        fun_ext (λ x. copy-behind buf (λ x. flat c d dev_no (lba * 512 + x)) 0 0 x (omega arith)) in
      rw (fits, lt→ltb 0 sec_cnt some)
        (ap (λ m. read_rounds c dev_no lba sec_cnt d m sec_cnt 0) (sym start)
          ∙ read_rounds_lem sec_cnt d buf 0 (omega arith) (omega arith) near)
