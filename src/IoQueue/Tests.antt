-- ===== src/IoQueue/Tests.antt =====
-- Runs of the ring, and instances of the theorems about it.
use elephant_os.Base.{ℕ, ◌≡◌, refl, false, [], ◌∷◌, ◌++◌, arith, ◌==◌, if◌then◌else◌, done}
use elephant_os.IoQueue.{IoQueue, next_pos, ioq_full, ioq_empty, returned, ioq_getchar, ioq_putchar}
use elephant_os.IoQueue.Queue.{IsValid, contents, putchar-snoc, getchar-cons}

-- two bytes, 7 and 8, round the end of the buffer; thread 0x9000 waits for a byte
abbrev two_bytes : IoQueue
two_bytes = record {
  producer = 0;
  consumer = 0x9000;
  buf = λ i. if i == 63 then 7 else 8;
  head = 1;
  tail = 63;
}

two_bytes-IsValid : IsValid two_bytes
two_bytes-IsValid = record { head_in = omega arith; tail_in = omega arith }

two_bytes_room : ioq_full two_bytes ≡ false
unfolding ioq_full next_pos
two_bytes_room = refl

two_bytes_some : ioq_empty two_bytes ≡ false
unfolding ioq_empty
two_bytes_some = refl

two_bytes-contents : contents two_bytes ≡ 7 ∷ 8 ∷ []
two_bytes-contents = refl

putchar-snoc_example :
    (q' : IoQueue) × (ioq_putchar two_bytes 9 0xa000 ≡ done (returned tt 0x9000 q'))
    × IsValid q'
    × (contents q' ≡ contents two_bytes ++ (9 ∷ []))
    × (q'.consumer ≡ 0)
putchar-snoc_example = putchar-snoc two_bytes 9 0xa000 two_bytes-IsValid two_bytes_room

getchar-cons_example :
    (byte : ℕ) × (q' : IoQueue) × (ioq_getchar two_bytes 0xa000 ≡ done (returned byte 0 q'))
    × IsValid q'
    × (contents two_bytes ≡ byte ∷ contents q')
    × (q'.producer ≡ 0)
getchar-cons_example = getchar-cons two_bytes 0xa000 two_bytes-IsValid two_bytes_some
