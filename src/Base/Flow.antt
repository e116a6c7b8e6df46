-- ===== src/Base/Flow.antt =====
-- Code that may also not return: a loop without end, or a recursion that the fuel does not reach.
use mathlib.Core.Bool.{Bool, true, false}
use mathlib.Core.Option.{Option, none, some}
use elephant_os.Base.Halt.{Outcome, done, panic}

pub data Flow {ℓ} (A : Type ℓ) : Type ℓ where
  returns : A → Flow A
  halts : Flow A
  endless : Flow A

infixl 5 ◌>>=◌ ◌>>◌
abbrev pub ◌>>=◌ {ℓ κ} : {A : Type ℓ} {B : Type κ} → Flow A → (A → Flow B) → Flow B
returns a >>= f = f a
halts >>= f = halts
endless >>= f = endless

abbrev pub ◌>>◌ {ℓ} : {B : Type ℓ} → Flow (Unit {0}) → Flow B → Flow B
m >> k = m >>= λ _. k

abbrev pub require : Bool → Flow (Unit {0})
require true = returns tt
require false = halts

abbrev pub lift {ℓ} : {A : Type ℓ} → Outcome A → Flow A
lift (done a) = returns a
lift panic = halts

-- a call whose fuel may lift out
abbrev pub fueled {ℓ} : {A : Type ℓ} → Outcome (Option A) → Flow A
fueled (done (some a)) = returns a
fueled (done none) = endless
fueled panic = halts

abbrev pub enough {ℓ} : {A : Type ℓ} → Option A → Flow A
enough (some a) = returns a
enough none = endless
