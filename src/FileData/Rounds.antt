-- ===== src/FileData/Rounds.antt =====
-- One round of the data loop of `file_write`, with what the rest of the loop leaves behind it.
use elephant_os.Base.{
  ℕ, ◌+◌, ◌-◌, ◌*◌, ◌/◌, ◌%◌, ◌<◌, ◌≤◌, ◌≡◌, ◌≢◌, ◌⊎◌, ◌∙◌, sym, ap, inl, inr, Bool, true, arith,
  ltb, ◌==◌, if◌then◌else◌, Mem, Bool-cases,
}
use elephant_os.Disk.{copy}
use elephant_os.Disk.Bytes.{copy-inside, copy-before, copy-behind, copy-start}
use elephant_os.FileData.ReadLoop.{content, content-sector}

-- the blocks of these positions are different
unfoldable pub Apart : (ℕ → ℕ) → ℕ → ℕ → Type 0
Apart blocks pos size =
    (x y : ℕ)
    → pos ≤ x
    → x < y
    → y < pos + size
    → x / 512 ≢ y / 512
    → blocks (x / 512) ≢ blocks (y / 512)

-- The byte `a` of the disk is in none of the blocks of these positions, or before the first of them
-- in its block.
unfoldable pub Kept : (ℕ → ℕ) → ℕ → ℕ → ℕ → Type 0
Kept blocks pos size a =
    (x : ℕ)
    → pos ≤ x
    → x < pos + size
    → a / 512 ≡ blocks (x / 512)
    → (x / 512 ≡ pos / 512) × (a % 512 < pos % 512)

pub Apart-rest :
    (blocks : ℕ → ℕ) (pos size c : ℕ)
    → Apart blocks pos size
    → c ≤ size
    → Apart blocks (pos + c) (size - c)
unfolding Apart
Apart-rest blocks pos size c apart le x y lo lt hi = apart x y (omega arith) lt (omega arith)

-- One round, with what the rest of the loop leaves behind it.
module _ (disk : Mem) (blocks : ℕ → ℕ) (buf : Mem) (pos written left c : ℕ) (first : Bool) where
  abbrev io_sector : Mem
  io_sector =
      if first then copy (λ x. 0) 0 (λ x. disk (blocks (pos / 512) * 512 + x)) 512 else (λ x. 0)

  abbrev new_sector : Mem
  new_sector = copy io_sector (pos % 512) (λ x. buf (written + x)) c

  abbrev pub after_round : Mem
  after_round = copy disk (blocks (pos / 512) * 512) new_sector 512

  module _ (disk' : Mem) (c_left : c ≤ left) (c_room : c ≤ 512 - pos % 512) (c_some : 0 < left)
      (c_end : c < left → c ≡ 512 - pos % 512) (start : (first ≡ true) ⊎ (pos % 512 ≡ 0))
      (apart : Apart blocks pos left)
      (bytes : (k : ℕ) → k < left - c → content disk' blocks (pos + c + k) ≡ buf (written + c + k))
      (kept : (a : ℕ) → Kept blocks (pos + c) (left - c) a → disk' a ≡ after_round a) where
    -- no later position shares the block
    later : (x : ℕ) → pos + c ≤ x → x < pos + c + (left - c) → pos / 512 ≢ x / 512
    later x lo hi = let end = c_end (omega arith) in omega arith

    Kept-sector : (a : ℕ) → a / 512 ≡ blocks (pos / 512) → Kept blocks (pos + c) (left - c) a
    unfolding Kept Apart
    Kept-sector a here x lo hi e =
        let ne = later x lo hi in
        absurd (apart pos x (omega arith) (omega arith) (omega arith) ne (sym here ∙ e))

    Kept-later : (a : ℕ) → Kept blocks pos left a → Kept blocks (pos + c) (left - c) a
    unfolding Kept
    Kept-later a k x lo hi e =
        let ne = later x lo hi in absurd (ne (sym (k x (omega arith) (omega arith) e).0))

    pub round_bytes : (k : ℕ) → k < left → content disk' blocks (pos + k) ≡ buf (written + k)
    round_bytes k lt = elim (Bool-cases (ltb k c)) [
      | inl early ↦
          let less : k < c = ground arith in
          let slide : blocks (pos / 512) * 512 + (pos % 512 + k) - blocks (pos / 512) * 512
              ≡ pos % 512 + k =
            omega arith in
          let back : pos % 512 + k - pos % 512 ≡ k = omega arith in
          content-sector disk' blocks pos k (omega arith)
          ∙ kept (blocks (pos / 512) * 512 + (pos % 512 + k)) (Kept-sector _ (omega arith))
          ∙ copy-inside disk new_sector (blocks (pos / 512) * 512) 512 _ (omega arith) (omega arith)
          ∙ ap new_sector slide
          ∙ copy-inside io_sector (λ x. buf (written + x)) (pos % 512) c (pos % 512 + k)
              (omega arith) (omega arith)
          ∙ ap (λ x. buf (written + x)) back
      | inr late ↦
          let more : c ≤ k = ground arith in
          let left_slide : pos + k ≡ pos + c + (k - c) = omega arith in
          let right_slide : written + c + (k - c) ≡ written + k = omega arith in
          ap (content disk' blocks) left_slide ∙ bytes (k - c) (omega arith) ∙ ap buf right_slide
    ]

    kept_sector :
        (a : ℕ) → a / 512 ≡ blocks (pos / 512) → a % 512 < pos % 512 → after_round a ≡ disk a
    kept_sector a here before =
        let slide : a - blocks (pos / 512) * 512 ≡ a % 512 = omega arith in
        let back : blocks (pos / 512) * 512 + a % 512 ≡ a = omega arith in
        let is_first : first ≡ true = elim start [ inl e ↦ e | inr z ↦ absurd (omega arith) ] in
        copy-inside disk new_sector (blocks (pos / 512) * 512) 512 a (omega arith) (omega arith)
        ∙ ap new_sector slide
        ∙ copy-before io_sector (λ x. buf (written + x)) (pos % 512) c (a % 512) before
        ∙ rw is_first (
            copy-start (λ x. 0) (λ x. disk (blocks (pos / 512) * 512 + x)) 512 (a % 512)
              (omega arith)
            ∙ ap disk back)

    pub round_unchanged : (a : ℕ) → Kept blocks pos left a → disk' a ≡ disk a
    unfolding Kept
    round_unchanged a k =
        kept a (Kept-later a k) ∙ elim (Bool-cases (a / 512 == blocks (pos / 512))) [
          | inl same ↦
              let here : a / 512 ≡ blocks (pos / 512) = ground arith in
              kept_sector a here (k pos (omega arith) (omega arith) here).1
          | inr other ↦
              let apart_here : a / 512 ≢ blocks (pos / 512) = ground arith in
              elim (Bool-cases (ltb a (blocks (pos / 512) * 512))) [
                | inl before ↦ copy-before disk new_sector _ 512 a (ground arith)
                | inr behind ↦ copy-behind disk new_sector _ 512 a (ground arith)
              ]
        ]
