-- ===== src/Interrupt.antt =====
-- kernel/interrupt.c, the descriptor attributes of kernel/global.h, and the segment descriptors of
-- userprog/tss.c. A handler is known by its address; the table of entry points (kernel/kernel.asm)
-- and the address of `syscall_handler` are arguments. A mask of low bits is written as a remainder,
-- a shift as a quotient.
pub mod Status
pub mod Gates
pub mod Segments
mod Tests
use elephant_os.Base.{
  ℕ, zero, suc, ◌+◌, ◌-◌, ◌*◌, ◌/◌, ◌%◌, ◌^◌, Bool, true, false, ◌||◌, List, [], ◌∷◌, ◌==◌, ltb,
  if◌then◌else◌, update, u32, Outcome, done, panic,
}

pub record GateDesc : Type 0 where
  pub func_offset_low_word : ℕ
  pub selector : ℕ
  pub dcount : ℕ
  pub attribute : ℕ
  pub func_offset_high_word : ℕ

abbrev pub idt_desc_cnt : ℕ
idt_desc_cnt = 0x81

abbrev pub selector_k_code : ℕ
selector_k_code = 1 * 2 ^ 3 + 0 * 2 ^ 2 + 0

abbrev pub idt_desc_attr_dpl0 : ℕ
idt_desc_attr_dpl0 = 1 * 2 ^ 7 + 0 * 2 ^ 5 + 0xe

abbrev pub idt_desc_attr_dpl3 : ℕ
idt_desc_attr_dpl3 = 1 * 2 ^ 7 + 3 * 2 ^ 5 + 0xe

unfoldable pub make_idt_desc : ℕ → ℕ → GateDesc
make_idt_desc attr function = record {
  func_offset_low_word = function % 2 ^ 16;
  selector = selector_k_code;
  dcount = 0;
  attribute = attr;
  func_offset_high_word = function / 2 ^ 16 % 2 ^ 16;
}

-- the loop from `i` on, over the entries that are left
unfoldable pub idt_loop : ℕ → ℕ → (ℕ → ℕ) → (ℕ → GateDesc) → ℕ → GateDesc
idt_loop i zero intr_entry_table idt = idt
idt_loop i (suc left) intr_entry_table idt =
    idt_loop (i + 1) left intr_entry_table
      (update idt i (make_idt_desc idt_desc_attr_dpl0 (intr_entry_table i)))

unfoldable pub idt_desc_init : (ℕ → ℕ) → ℕ → (ℕ → GateDesc) → ℕ → GateDesc
idt_desc_init intr_entry_table syscall_handler idt =
    update (idt_loop 0 idt_desc_cnt intr_entry_table idt) (idt_desc_cnt - 1)
      (make_idt_desc idt_desc_attr_dpl3 syscall_handler)

-- A spurious interrupt is passed over; any other prints its message and spins.
unfoldable pub general_intr_handler : ℕ → Outcome ℕ
general_intr_handler vec_nr = if (vec_nr == 0x27) || (vec_nr == 0x2f) then done vec_nr else panic

-- the part of `exception_init` on the table of handlers
unfoldable pub exception_loop : ℕ → ℕ → ℕ → (ℕ → ℕ) → ℕ → ℕ
exception_loop i zero handler idt_table = idt_table
exception_loop i (suc left) handler idt_table =
    exception_loop (i + 1) left handler (update idt_table i handler)

unfoldable pub register_handler : (ℕ → ℕ) → ℕ → ℕ → ℕ → ℕ
register_handler idt_table vector_no function = update idt_table vector_no function

-- the bytes that are written to ports, in their order
unfoldable pub pic_init : List (ℕ × ℕ)
pic_init =
    (0x20, 0x11)
    ∷ (0x21, 0x20)
    ∷ (0x21, 0x04)
    ∷ (0x21, 0x01)
    ∷ (0xa0, 0x11)
    ∷ (0xa1, 0x28)
    ∷ (0xa1, 0x02)
    ∷ (0xa1, 0x01)
    ∷ (0x21, 0xf8)
    ∷ (0xa1, 0xbf)
    ∷ []

-- the operand of `lidt`, for the table at the address `idt`
unfoldable pub idt_operand : ℕ → ℕ
idt_operand idt = idt_desc_cnt * 8 - 1 + idt * 2 ^ 16

pub data IntrStatus : Type 0 where
  intr_off intr_on : IntrStatus

-- `EFLAGS_IF & eflags`
abbrev pub eflags_if : ℕ → Bool
eflags_if eflags = eflags / 512 % 2 == 1

unfoldable pub intr_get_status : ℕ → IntrStatus
intr_get_status eflags = if eflags_if eflags then intr_on else intr_off

-- `sti` and `cli` set and clear the interrupt flag
abbrev pub sti : ℕ → ℕ
sti eflags = if eflags_if eflags then eflags else eflags + 512

abbrev pub cli : ℕ → ℕ
cli eflags = if eflags_if eflags then eflags - 512 else eflags

unfoldable pub intr_enable : ℕ → IntrStatus × ℕ
intr_enable eflags = elim (intr_get_status eflags) [
  | IntrStatus.intr_on ↦ (intr_on, eflags)
  | IntrStatus.intr_off ↦ (intr_off, sti eflags)
]

unfoldable pub intr_disable : ℕ → IntrStatus × ℕ
intr_disable eflags = elim (intr_get_status eflags) [
  | IntrStatus.intr_on ↦ (intr_on, cli eflags)
  | IntrStatus.intr_off ↦ (intr_off, eflags)
]

unfoldable pub intr_set_status : IntrStatus → ℕ → IntrStatus × ℕ
intr_set_status intr_on eflags = intr_enable eflags
intr_set_status intr_off eflags = intr_disable eflags

pub record GdtDesc : Type 0 where
  pub limit_low_word : ℕ
  pub base_low_word : ℕ
  pub base_mid_byte : ℕ
  pub attr_low_byte : ℕ
  pub limit_high_attr_high : ℕ
  pub base_high_byte : ℕ

unfoldable pub make_gdt_desc : ℕ → ℕ → ℕ → ℕ → GdtDesc
make_gdt_desc desc_addr limit attr_low attr_high = record {
  limit_low_word = limit % 2 ^ 16;
  base_low_word = desc_addr % 2 ^ 16;
  base_mid_byte = desc_addr / 2 ^ 16 % 2 ^ 8;
  attr_low_byte = attr_low;
  limit_high_attr_high = (limit / 2 ^ 16 % 2 ^ 4 + attr_high) % 2 ^ 8;
  base_high_byte = desc_addr / 2 ^ 24;
}

abbrev pub gdt_attr_high : ℕ
gdt_attr_high = 1 * 2 ^ 7 + 1 * 2 ^ 6 + 0 * 2 ^ 5 + 0 * 2 ^ 4

abbrev pub gdt_code_attr_low_dpl3 : ℕ
gdt_code_attr_low_dpl3 = 1 * 2 ^ 7 + 3 * 2 ^ 5 + 1 * 2 ^ 4 + 8

abbrev pub gdt_data_attr_low_dpl3 : ℕ
gdt_data_attr_low_dpl3 = 1 * 2 ^ 7 + 3 * 2 ^ 5 + 1 * 2 ^ 4 + 2

abbrev pub tss_attr_high : ℕ
tss_attr_high = 1 * 2 ^ 7 + 0 * 2 ^ 6 + 0 * 2 ^ 5 + 0 * 2 ^ 4 + 0

abbrev pub tss_attr_low : ℕ
tss_attr_low = 1 * 2 ^ 7 + 0 * 2 ^ 5 + 0 * 2 ^ 4 + 9

-- `sizeof(tss)`: 27 words
abbrev pub tss_size : ℕ
tss_size = 108

-- The descriptors that `tss_init` stores, by the address where it stores them, for the state segment
-- at `tss`.
unfoldable pub tss_init : ℕ → (ℕ → GdtDesc) → ℕ → GdtDesc
tss_init tss gdt =
    let g1 = update gdt 0xc0000920 (make_gdt_desc tss (tss_size - 1) tss_attr_low tss_attr_high) in
    let g2 = update g1 0xc0000928 (make_gdt_desc 0 0xfffff gdt_code_attr_low_dpl3 gdt_attr_high) in
    update g2 0xc0000930 (make_gdt_desc 0 0xfffff gdt_data_attr_low_dpl3 gdt_attr_high)
