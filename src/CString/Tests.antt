-- ===== src/CString/Tests.antt =====
-- Instances of the theorems about strings.
use elephant_os.Base.{
  ℕ, ◌+◌, ◌<◌, ◌≤◌, ◌≡◌, refl, inr, ◌⊎◌, List, [], ◌∷◌, ◌==◌, if◌then◌else◌, Mem, arith,
}
use elephant_os.Base.Flow.{returns}
use elephant_os.CString.Copies.{HasString}
use elephant_os.CString.Printing.{vsprintf}
use elephant_os.CString.PlainText.{vsprintf_lem}

-- "ab" at 100, "ac" at 200
abbrev two_strings : Mem
two_strings = λ a.
    if a == 100
    then 97
    else if a == 101
    then 98
    else if a == 200
    then 97
    else if a == 201
    then 99
    else 0

ab : HasString two_strings 100 (97 ∷ 98 ∷ [])
ab = (refl, λ e. omega (arith, e), (refl, λ e. omega (arith, e), refl))

ac : HasString two_strings 200 (97 ∷ 99 ∷ [])
ac = (refl, λ e. omega (arith, e), (refl, λ e. omega (arith, e), refl))

abbrev chars_ab : List ℕ
chars_ab = 97 ∷ 98 ∷ []

abbrev chars_ac : List ℕ
chars_ac = 97 ∷ 99 ∷ []

-- The buffer at 198 has "ac" behind the place of the two characters.
vsprintf_lem_example :
    (m' : Mem) × (vsprintf 9 two_strings 198 100 300 ≡ returns (4, m'))
    × HasString m' 198 (97 ∷ 98 ∷ 97 ∷ 99 ∷ [])
    × ((a : ℕ) → (a < 198) ⊎ (198 + 2 ≤ a) → m' a ≡ two_strings a)
vsprintf_lem_example =
    vsprintf_lem 9 two_strings 198 100 300 (97 ∷ 98 ∷ []) (97 ∷ 99 ∷ []) (λ e. omega (arith, e)) ab
      refl ac (omega arith) (inr (omega arith))
