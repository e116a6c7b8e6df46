-- ===== src/Keyboard/Tests.antt =====
-- Instances of the theorems about the keyboard.
use elephant_os.Base.{◌≡◌, refl, true, false, [], ◌∷◌, ◌++◌, arith, ◌==◌, done}
use elephant_os.IoQueue.{IoQueue, returned, ioq_full, next_pos}
use elephant_os.IoQueue.Queue.{IsValid, contents}
use elephant_os.Keyboard.{Flags, keymap_at, merged, is_known, intr_keyboard_handler}
use elephant_os.Keyboard.Keys.{typed, typed_char}

abbrev caps_on : Flags
caps_on = record {
  ctrl_status = false;
  shift_status = false;
  alt_status = false;
  caps_lock_status = true;
  ext_scancode = false;
}

abbrev kbd_buf : IoQueue
kbd_buf = record { producer = 0; consumer = 0x9000; buf = λ i. 0; head = 5; tail = 5 }

kbd_buf-IsValid : IsValid kbd_buf
kbd_buf-IsValid = record { head_in = omega arith; tail_in = omega arith }

kbd_buf_room : ioq_full kbd_buf ≡ false
unfolding ioq_full next_pos
kbd_buf_room = refl

a_known : is_known (merged caps_on 0x1e) ≡ true
unfolding is_known merged
a_known = refl

a_has_char : (keymap_at 0x1e false == 0) ≡ false
unfolding keymap_at
a_has_char = refl

typed_char_example :
    (q' : IoQueue) × (intr_keyboard_handler caps_on kbd_buf 0xa000 0x1e
      ≡ done (returned (record caps_on { ext_scancode = false }) 0x9000 q'))
    × (contents q' ≡ contents kbd_buf ++ (typed 0x1e false true ∷ []))
typed_char_example =
    typed_char caps_on kbd_buf 0xa000 0x1e kbd_buf-IsValid kbd_buf_room refl (omega arith)
      (omega arith) a_has_char
