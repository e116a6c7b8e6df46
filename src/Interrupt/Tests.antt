-- ===== src/Interrupt/Tests.antt =====
-- Instances of the theorems about interrupts and descriptors.
use elephant_os.Base.{ℕ, ◌≡◌}
use elephant_os.Interrupt.{
  GateDesc, intr_off, intr_get_status, intr_disable, intr_set_status, make_idt_desc,
}
use elephant_os.Interrupt.Status.{intr_set_status-intr_disable}

-- flags 0x202: interrupts are on
intr_set_status-intr_disable_example :
    ((intr_disable 0x202).0 ≡ intr_get_status 0x202)
    × (intr_get_status (intr_disable 0x202).1 ≡ intr_off)
    × ((intr_set_status (intr_disable 0x202).0 (intr_disable 0x202).1).1 ≡ 0x202)
    × ((intr_set_status
          (intr_disable (intr_disable 0x202).1).0
          (intr_disable (intr_disable 0x202).1).1).1
        ≡ (intr_disable 0x202).1)
intr_set_status-intr_disable_example = intr_set_status-intr_disable 0x202

abbrev entries : ℕ → ℕ
entries n = 0xc0001500

abbrev empty_idt : ℕ → GateDesc
empty_idt n = make_idt_desc 0 0
