-- ===== src/Interrupt/Gates.antt =====
-- Which handler a gate of the table leads to.
use elephant_os.Base.{
  ℕ, zero, suc, ◌+◌, ◌*◌, ◌/◌, ◌%◌, ◌^◌, ◌<◌, ◌≡◌, ap, arith, ◌==◌, ltb, leb, ◌&&◌, if◌then◌else◌,
}
use elephant_os.Interrupt.{
  GateDesc, selector_k_code, make_idt_desc, idt_loop, idt_desc_init, idt_desc_attr_dpl0,
  idt_desc_attr_dpl3,
}

-- How the processor reads a gate: the address of the handler, the lowest privilege that may call it,
-- and the code segment.
unfoldable pub target : GateDesc → ℕ × ℕ × ℕ
target g =
    (g.func_offset_low_word + g.func_offset_high_word * 2 ^ 16, g.attribute / 2 ^ 5 % 4, g.selector)

idt_loop_lem :
    (i left : ℕ) (entry : ℕ → ℕ) (idt : ℕ → GateDesc) (v : ℕ)
    → idt_loop i left entry idt v
      ≡ (if leb i v && ltb v (i + left) then make_idt_desc idt_desc_attr_dpl0 (entry v) else idt v)
unfolding idt_loop
idt_loop_lem i zero entry idt v = ground arith
idt_loop_lem i (suc left) entry idt v = ground (
  arith,
  idt_loop_lem (i + 1) left entry
      (λ a. if a == i then make_idt_desc idt_desc_attr_dpl0 (entry i) else idt a) v,
)

target-make_idt_desc :
    (attr f : ℕ)
    → f < 2 ^ 32
    → target (make_idt_desc attr f) ≡ (f, attr / 2 ^ 5 % 4, selector_k_code)
unfolding target make_idt_desc
target-make_idt_desc attr f small =
    let whole : f % 2 ^ 16 + f / 2 ^ 16 % 2 ^ 16 * 2 ^ 16 ≡ f = omega arith in
    ap (λ x. (x, attr / 2 ^ 5 % 4, selector_k_code)) whole

-- If the entry points are 32-bit addresses, then after `idt_desc_init` every vector below 0x80 leads
-- to its own entry point, in the kernel's code and only from the kernel, vector 0x80 leads to
-- the system call handler also from user code, and no other descriptor is changed.
idt_desc_init_lem :
    (entry : ℕ → ℕ) (syscall : ℕ) (idt : ℕ → GateDesc) (v : ℕ)
    → ((n : ℕ) → entry n < 2 ^ 32)
    → syscall < 2 ^ 32
    → target (idt_desc_init entry syscall idt v) ≡ (
        if ltb v 0x80
        then (entry v, 0, selector_k_code)
        else if v == 0x80
        then (syscall, 3, selector_k_code)
        else target (idt v))
unfolding idt_desc_init
idt_desc_init_lem entry syscall idt v small small' = ground (
  arith,
  idt_loop_lem 0 0x81 entry idt v,
  target-make_idt_desc idt_desc_attr_dpl0 (entry v) (small v),
  target-make_idt_desc idt_desc_attr_dpl3 syscall small',
)
