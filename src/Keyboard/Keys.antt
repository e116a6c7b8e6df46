-- ===== src/Keyboard/Keys.antt =====
-- What key presses and releases do.
use elephant_os.Base.{
  ℕ, ◌-◌, ◌<◌, ◌≡◌, refl, Bool, true, false, not, ◌&&◌, ◌||◌, [], ◌∷◌, ◌++◌, ◌⊎◌, inl, inr, arith,
  ◌==◌, ltb, leb, if◌then◌else◌, bit_and, bit_or, length, done, Bool-cases,
}
use elephant_os.Base.Bits.{all_below, all_below_sound, eqb, eqb_sound}
use elephant_os.IoQueue.{IoQueue, returned, ioq_full}
use elephant_os.IoQueue.Queue.{IsValid, contents, putchar-snoc}
use elephant_os.Keyboard.{
  Flags, keymap, keymap_at, merged, is_break, is_known, is_two_symbols, with_shift, release, press,
  pressed, intr_keyboard_handler,
}

abbrev pub Kept : IoQueue → IoQueue → Type 0
Kept q q' = (contents q' ≡ contents q) ⊎ ((c : ℕ) × (contents q' ≡ contents q ++ (c ∷ [])))

pressed_lem :
    (f : Flags) (q : IoQueue) (running scancode : ℕ)
    → IsValid q
    → (f' : Flags) × (woken : ℕ) × (q' : IoQueue) × (pressed f q running scancode
        ≡ done (returned f' woken q'))
      × IsValid q'
      × Kept q q'
unfolding pressed
pressed_lem f q running scancode v =
    let c =
      keymap_at (bit_and scancode 0xff) (with_shift scancode f.shift_status f.caps_lock_status) in
    elim (Bool-cases (c == 0)) [
      | inl e ↦ rw e (press f (bit_and scancode 0xff), 0, q, refl, v, inl refl)
      | inr e ↦ elim (Bool-cases (ioq_full q)) [
        | inl full ↦ rw (e, full) (f, 0, q, refl, v, inl refl)
        | inr room ↦
            let (q', run, v', snoc, w) = putchar-snoc q c running v room in
            rw (e, room, run) (f, q.consumer, q', refl, v', inr (c, snoc))
      ]
    ]

-- With a valid buffer the handler never blocks and never fails an assertion, whatever byte
-- arrives: it returns with the buffer valid and with at most one character appended to it.
handler_returns :
    (f : Flags) (q : IoQueue) (running byte : ℕ)
    → IsValid q
    → (f' : Flags) × (woken : ℕ) × (q' : IoQueue) × (intr_keyboard_handler f q running byte
        ≡ done (returned f' woken q'))
      × IsValid q'
      × Kept q q'
unfolding intr_keyboard_handler
handler_returns f q running byte v =
    let f0 = record f { ext_scancode = false } in
    elim (Bool-cases (byte == 0xe0)) [
      | inl e ↦ rw e (record f { ext_scancode = true }, 0, q, refl, v, inl refl)
      | inr e ↦ elim (Bool-cases (is_break (merged f byte))) [
        | inl b ↦ rw (e, b) (release f0 (bit_and (merged f byte) 0xff7f), 0, q, refl, v, inl refl)
        | inr b ↦ elim (Bool-cases (is_known (merged f byte))) [
          | inl k ↦ rw (e, b, k) (pressed_lem f0 q running (merged f byte) v)
          | inr k ↦ rw (e, b, k) (f0, 0, q, refl, v, inl refl)
        ]
      ]
    ]

bounds_table :
    all_below 256 (λ byte.
      (not (is_known byte) || ltb (bit_and byte 0xff) (length keymap))
      && (not (is_known (bit_or 0xe000 byte))
          || ltb (bit_and (bit_or 0xe000 byte) 0xff) (length keymap)))
    ≡ true
unfolding all_below is_known
bounds_table = refl

-- Every index that the handler uses in `keymap` is below the table's length.
keymap_in_bounds :
    (f : Flags) (byte : ℕ)
    → byte < 256
    → is_known (merged f byte) ≡ true
    → bit_and (merged f byte) 0xff < length keymap
unfolding merged
keymap_in_bounds f byte h k =
    let t = all_below_sound 256 _ byte bounds_table h in
    elim (Bool-cases f.ext_scancode) [ inl e ↦ ground arith | inr e ↦ ground arith ]

abbrev pub is_letter : ℕ → Bool
is_letter c = leb 97 c && leb c 122

-- the character of a key: a letter is a capital if just one of shift and caps lock is on, any
-- other key gives its second symbol if shift is on
abbrev pub typed : ℕ → Bool → Bool → ℕ
typed byte shift caps =
    let plain = keymap_at byte false in
    if is_letter plain
    then (if eqb shift caps then plain else plain - 32)
    else (if shift then keymap_at byte true else plain)

agrees : ℕ → Bool → Bool → Bool
agrees byte shift caps = keymap_at byte (with_shift byte shift caps) == typed byte shift caps

typed_table :
    all_below 0x3b (λ byte.
      agrees byte true true
      && agrees byte true false
      && agrees byte false true
      && agrees byte false false)
    ≡ true
unfolding all_below keymap_at with_shift is_two_symbols agrees
typed_table = refl

typed_lem :
    (byte : ℕ) (shift caps : Bool)
    → byte < 0x3b
    → keymap_at byte (with_shift byte shift caps) ≡ typed byte shift caps
unfolding agrees
typed_lem byte shift caps h =
    let t = all_below_sound 0x3b _ byte typed_table h in
    elim (Bool-cases shift) [
      | inl e ↦ elim (Bool-cases caps) [
        | inl e' ↦ rw (e, e') ground arith
        | inr e' ↦ rw (e, e') ground arith
      ]
      | inr e ↦ elim (Bool-cases caps) [
        | inl e' ↦ rw (e, e') ground arith
        | inr e' ↦ rw (e, e') ground arith
      ]
    ]

code_table :
    all_below 0x3b (λ byte.
      not (is_break byte)
      && (is_known byte || (byte == 0))
      && (bit_and byte 0xff == byte)
      && eqb (keymap_at byte false == 0) (keymap_at byte true == 0))
    ≡ true
unfolding all_below keymap_at is_known is_break
code_table = refl

typed_nonzero :
    (byte : ℕ) (shift caps : Bool)
    → byte < 0x3b
    → (keymap_at byte false == 0) ≡ false
    → (typed byte shift caps == 0) ≡ false
typed_nonzero byte shift caps h e =
    let t = all_below_sound 0x3b _ byte code_table h in
    ground (arith, eqb_sound (keymap_at byte false == 0) (keymap_at byte true == 0))

-- If the buffer is valid and has room and the last byte was not 0xe0, a press of a key that has a
-- character puts that character in the buffer: caps lock changes the case of a letter and no other
-- key, and shift together with it undoes it.
pub typed_char :
    (f : Flags) (q : IoQueue) (running byte : ℕ)
    → IsValid q
    → ioq_full q ≡ false
    → f.ext_scancode ≡ false
    → 0 < byte
    → byte < 0x3b
    → (keymap_at byte false == 0) ≡ false
    → (q' : IoQueue) × (intr_keyboard_handler f q running byte
        ≡ done (returned (record f { ext_scancode = false }) q.consumer q'))
      × (contents q' ≡ contents q ++ (typed byte f.shift_status f.caps_lock_status ∷ []))
unfolding intr_keyboard_handler merged pressed
typed_char f q running byte v room ext pos h has_char =
    let t = all_below_sound 0x3b _ byte code_table h in
    let ne : (byte == 0xe0) ≡ false = ground arith in
    let nb : is_break byte ≡ false = ground arith in
    let kn : is_known byte ≡ true = ground arith in
    let ix : bit_and byte 0xff ≡ byte = ground arith in
    let nz = typed_nonzero byte f.shift_status f.caps_lock_status h has_char in
    let (q', run, v', snoc, w) =
      putchar-snoc q (typed byte f.shift_status f.caps_lock_status) running v room in
    rw (ext, ne, nb, kn, ix, typed_lem byte f.shift_status f.caps_lock_status h, nz, room, run)
      (q', refl, snoc)

-- The presses and releases of control, shift, alt and caps lock, by their scan codes.
abbrev pub Handles : Flags → ℕ → Flags → Type 0
Handles f byte f' =
    (q : IoQueue) (running : ℕ) → intr_keyboard_handler f q running byte ≡ done (returned f' 0 q)

abbrev pub plain : Flags → Flags
plain f = record f { ext_scancode = false }

abbrev pub extended : Flags → Flags
extended f = record f { ext_scancode = true }

no_char :
    (f : Flags) (q : IoQueue) (running code : ℕ)
    → keymap_at (bit_and code 0xff) true ≡ 0
    → keymap_at (bit_and code 0xff) false ≡ 0
    → pressed f q running code ≡ done (returned (press f (bit_and code 0xff)) 0 q)
unfolding pressed
no_char f q running code t e =
    elim (Bool-cases (with_shift code f.shift_status f.caps_lock_status)) [
      | inl w ↦ rw (w, t) refl
      | inr w ↦ rw (w, e) refl
    ]

-- Shift, control, alt and caps lock, by their scan codes: a key sets its flag when it goes down and
-- clears it when it comes up, the right control and alt keys after the prefix 0xe0, whose mark goes
-- away with the next byte; caps lock is inverted when its key goes down, and kept when it comes up.
modifier_keys :
    (f : Flags)
    → Handles f 0xe0 (extended f)
      × Handles (plain f) 0x2a (record (plain f) { shift_status = true })
      × Handles (plain f) 0x36 (record (plain f) { shift_status = true })
      × Handles (plain f) 0xaa (record (plain f) { shift_status = false })
      × Handles (plain f) 0xb6 (record (plain f) { shift_status = false })
      × Handles (plain f) 0x1d (record (plain f) { ctrl_status = true })
      × Handles (plain f) 0x9d (record (plain f) { ctrl_status = false })
      × Handles (extended f) 0x1d (record (plain f) { ctrl_status = true })
      × Handles (extended f) 0x9d (record (plain f) { ctrl_status = false })
      × Handles (plain f) 0x38 (record (plain f) { alt_status = true })
      × Handles (plain f) 0xb8 (record (plain f) { alt_status = false })
      × Handles (extended f) 0x38 (record (plain f) { alt_status = true })
      × Handles (extended f) 0xb8 (record (plain f) { alt_status = false })
      × Handles (plain f) 0x3a (record (plain f) { caps_lock_status = not f.caps_lock_status })
      × Handles (plain f) 0xba (plain f)
unfolding intr_keyboard_handler press release merged is_break is_known keymap_at
modifier_keys f = (
  λ q running. refl,
  λ q running. no_char (plain f) q running 0x2a refl refl,
  λ q running. no_char (plain f) q running 0x36 refl refl,
  λ q running. refl,
  λ q running. refl,
  λ q running. no_char (plain f) q running 0x1d refl refl,
  λ q running. refl,
  λ q running. no_char (plain f) q running 0xe01d refl refl,
  λ q running. refl,
  λ q running. no_char (plain f) q running 0x38 refl refl,
  λ q running. refl,
  λ q running. no_char (plain f) q running 0xe038 refl refl,
  λ q running. refl,
  λ q running. no_char (plain f) q running 0x3a refl refl,
  λ q running. refl,
)
