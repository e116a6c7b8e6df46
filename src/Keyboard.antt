-- ===== src/Keyboard.antt =====
-- device/keyboard.c: the handler of the keyboard's interrupt, which turns scan codes into
-- characters in `kbd_buf`. The byte read from port 0x60 is an argument of the handler, and the
-- message on an unknown key is left out. Characters are their ASCII codes.
pub mod Keys
mod Tests
use elephant_os.Base.{
  ℕ, ◌+◌, Bool, true, false, not, ◌&&◌, ◌||◌, List, [], ◌∷◌, ◌==◌, ltb, if◌then◌else◌, get_or,
  bit_and, bit_or, Outcome, done, ◌>>=◌,
}
use elephant_os.IoQueue.{IoQueue, Round, blocked, returned, ioq_full, ioq_putchar}

pub record Flags : Type 0 where
  pub ctrl_status : Bool
  pub shift_status : Bool
  pub alt_status : Bool
  pub caps_lock_status : Bool
  pub ext_scancode : Bool

-- by make code: the character without and with shift, 0 for a key without one
abbrev pub keymap : List (ℕ × ℕ)
keymap =
    (0, 0)
    ∷ (27, 27)
    ∷ (49, 33)
    ∷ (50, 64)
    ∷ (51, 35)
    ∷ (52, 36)
    ∷ (53, 37)
    ∷ (54, 94)
    ∷ (55, 38)
    ∷ (56, 42)
    ∷ (57, 40)
    ∷ (48, 41)
    ∷ (45, 95)
    ∷ (61, 43)
    ∷ (8, 8)
    ∷ (9, 9)
    ∷ (113, 81)
    ∷ (119, 87)
    ∷ (101, 69)
    ∷ (114, 82)
    ∷ (116, 84)
    ∷ (121, 89)
    ∷ (117, 85)
    ∷ (105, 73)
    ∷ (111, 79)
    ∷ (112, 80)
    ∷ (91, 123)
    ∷ (93, 125)
    ∷ (13, 13)
    ∷ (0, 0)
    ∷ (97, 65)
    ∷ (115, 83)
    ∷ (100, 68)
    ∷ (102, 70)
    ∷ (103, 71)
    ∷ (104, 72)
    ∷ (106, 74)
    ∷ (107, 75)
    ∷ (108, 76)
    ∷ (59, 58)
    ∷ (39, 34)
    ∷ (96, 126)
    ∷ (0, 0)
    ∷ (92, 124)
    ∷ (122, 90)
    ∷ (120, 88)
    ∷ (99, 67)
    ∷ (118, 86)
    ∷ (98, 66)
    ∷ (110, 78)
    ∷ (109, 77)
    ∷ (44, 60)
    ∷ (46, 62)
    ∷ (47, 63)
    ∷ (0, 0)
    ∷ (42, 42)
    ∷ (0, 0)
    ∷ (32, 32)
    ∷ (0, 0)
    ∷ []

-- `keymap[index][shift]`; `keymap_in_bounds` shows that the default is never read.
unfoldable pub keymap_at : ℕ → Bool → ℕ
keymap_at index shift = let row = get_or keymap index (0, 0) in if shift then row.1 else row.0

abbrev pub is_ctrl : ℕ → Bool
is_ctrl code = (code == 0x1d) || (code == 0xe01d)

abbrev pub is_shift : ℕ → Bool
is_shift code = (code == 0x2a) || (code == 0x36)

abbrev pub is_alt : ℕ → Bool
is_alt code = (code == 0x38) || (code == 0xe038)

-- the two halves of a key code, merged if the byte before was 0xe0
unfoldable pub merged : Flags → ℕ → ℕ
merged f byte = if f.ext_scancode then bit_or 0xe000 byte else byte

unfoldable pub is_break : ℕ → Bool
is_break scancode = not (bit_and scancode 0x80 == 0)

-- the codes that the handler looks up
unfoldable pub is_known : ℕ → Bool
is_known scancode =
    (ltb 0 scancode && ltb scancode 0x3b) || (scancode == 0xe038) || (scancode == 0xe01d)

-- the keys with two symbols
unfoldable pub is_two_symbols : ℕ → Bool
is_two_symbols scancode =
    ltb scancode 0x0e
    || (scancode == 0x29)
    || (scancode == 0x1a)
    || (scancode == 0x1b)
    || (scancode == 0x2b)
    || (scancode == 0x27)
    || (scancode == 0x28)
    || (scancode == 0x33)
    || (scancode == 0x34)
    || (scancode == 0x35)

unfoldable pub with_shift : ℕ → Bool → Bool → Bool
with_shift scancode shift_down_last caps_lock_last =
    if is_two_symbols scancode
    then shift_down_last
    else if shift_down_last && caps_lock_last
    then false
    else (if shift_down_last || caps_lock_last then true else false)

unfoldable pub release : Flags → ℕ → Flags
release f make_code =
    if is_ctrl make_code
    then record f { ctrl_status = false }
    else if is_shift make_code
    then record f { shift_status = false }
    else (if is_alt make_code then record f { alt_status = false } else f)

unfoldable pub press : Flags → ℕ → Flags
press f scancode =
    if is_ctrl scancode
    then record f { ctrl_status = true }
    else if is_shift scancode
    then record f { shift_status = true }
    else if is_alt scancode
    then record f { alt_status = true }
    else if scancode == 0x3a
    then record f { caps_lock_status = not f.caps_lock_status }
    else f

-- the rest of the handler after its call of `ioq_putchar`
abbrev pub resume : Flags → Round (Unit {0}) → Round Flags
resume f (blocked q) = blocked q
resume f (returned u w q) = returned f w q

unfoldable pub pressed : Flags → IoQueue → ℕ → ℕ → Outcome (Round Flags)
pressed f q running scancode =
    let shift = with_shift scancode f.shift_status f.caps_lock_status in
    let index = bit_and scancode 0xff in
    let cur_char = keymap_at index shift in
    if not (cur_char == 0)
    then if not (ioq_full q)
      then (do r ← ioq_putchar q cur_char running; done (resume f r))
      else done (returned f 0 q)
    else done (returned (press f index) 0 q)

unfoldable pub intr_keyboard_handler : Flags → IoQueue → ℕ → ℕ → Outcome (Round Flags)
intr_keyboard_handler f q running byte =
    if byte == 0xe0
    then done (returned (record f { ext_scancode = true }) 0 q)
    else (let scancode = merged f byte in
        let f' = record f { ext_scancode = false } in
        if is_break scancode
        then done (returned (release f' (bit_and scancode 0xff7f)) 0 q)
        else if is_known scancode
        then pressed f' q running scancode
        else done (returned f' 0 q))
