-- ===== src/Base.antt =====
-- What every component uses: the libraries' names, tests on numbers, lists with native indices,
-- the outcome of code that may stop in `panic_spin` (kernel/debug.c), and facts on bits of a byte.
mod Tests
mod Lists
mod Halt
mod Words
pub mod Bits
pub mod Flow
pub use Tests.*
pub use Lists.*
pub use Words.*
pub use Halt.*
pub use Prim.Native.Nat.{ℕ, zero, suc, ◌+◌, ◌-◌, ◌*◌, ◌/◌, ◌%◌, ◌^◌, ◌≤◌, ◌<◌, min}
pub use Prim.Native.Nat.{bit_and, bit_or}
pub use mathlib.Core.Path.{◌≡◌, refl, sym, ap, ◌∙◌}
pub use mathlib.Core.Logic.{◌≢◌, ◌↔◌, ◌⊎◌, inl, inr}
pub use mathlib.Core.Bool.{Bool, true, false, not, ◌&&◌, ◌||◌}
pub use mathlib.Core.Option.{Option, none, some}
pub use mathlib.Core.List.{List, [], ◌∷◌, ◌++◌}
pub use native.Mathlib.Omega.{arith}
