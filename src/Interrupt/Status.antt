-- ===== src/Interrupt/Status.antt =====
-- Turning interrupts off and back on.
use elephant_os.Base.{ℕ, ◌≡◌, refl, sym, inl, inr, true, false, arith, Bool-cases}
use elephant_os.Interrupt.{
  intr_on, intr_off, intr_get_status, intr_enable, intr_disable, intr_set_status, sti, cli,
  eflags_if,
}

get_status_on : (e : ℕ) → eflags_if e ≡ true → intr_get_status e ≡ intr_on
unfolding intr_get_status
get_status_on e on = rw on refl

get_status_off : (e : ℕ) → eflags_if e ≡ false → intr_get_status e ≡ intr_off
unfolding intr_get_status
get_status_off e off = rw off refl

disable_on : (e : ℕ) → eflags_if e ≡ true → intr_disable e ≡ (intr_on, cli e)
unfolding intr_disable
disable_on e on = rw (intr_disable, get_status_on e on) refl

disable_off : (e : ℕ) → eflags_if e ≡ false → intr_disable e ≡ (intr_off, e)
unfolding intr_disable
disable_off e off = rw (intr_disable, get_status_off e off) refl

enable_off : (e : ℕ) → eflags_if e ≡ false → intr_enable e ≡ (intr_off, sti e)
unfolding intr_enable
enable_off e off = rw (intr_enable, get_status_off e off) refl

cli_off : (e : ℕ) → eflags_if (cli e) ≡ false
cli_off e = ground arith

sti-cli : (e : ℕ) → eflags_if e ≡ true → sti (cli e) ≡ e
sti-cli e on = ground arith

-- Whatever the flags are, `intr_disable` leaves interrupts off and returns their status before, and
-- setting that status afterwards restores the flags; so does a nested pair in between.
pub intr_set_status-intr_disable :
    (e : ℕ)
    → ((intr_disable e).0 ≡ intr_get_status e)
      × (intr_get_status (intr_disable e).1 ≡ intr_off)
      × ((intr_set_status (intr_disable e).0 (intr_disable e).1).1 ≡ e)
      × ((intr_set_status (intr_disable (intr_disable e).1).0 (intr_disable (intr_disable e).1).1).1
          ≡ (intr_disable e).1)
unfolding intr_set_status
intr_set_status-intr_disable e = elim (Bool-cases (eflags_if e)) [
  | inl on ↦
      let off = cli_off e in
      rw (disable_on e on, disable_off (cli e) off, enable_off (cli e) off, disable_off (cli e) off)
        (sym (get_status_on e on), get_status_off (cli e) off, sti-cli e on, refl)
  | inr off ↦
      rw (disable_off e off, disable_off e off, disable_off e off)
        (sym (get_status_off e off), get_status_off e off, refl, refl)
]
