-- ===== src/Cwd/Tests.antt =====
-- An instance of the theorem about turning a path around.
use elephant_os.Base.{ℕ, ◌≡◌, refl, List, [], ◌∷◌, length}
use elephant_os.Cwd.{last_slash, reverse_loop}
use elephant_os.Cwd.Reverse.{collected, AreNames, reverse_loop_lem}

-- "ab" and "c"
abbrev two_names : List (List ℕ)
two_names = (97 ∷ 98 ∷ []) ∷ (99 ∷ []) ∷ []

two_names-AreNames : AreNames two_names
unfolding last_slash
two_names-AreNames = (refl, (refl, refl))

reverse_loop_lem_example :
    reverse_loop (length (collected two_names)) (collected two_names) []
    ≡ 47 ∷ 97 ∷ 98 ∷ 47 ∷ 99 ∷ []
reverse_loop_lem_example = reverse_loop_lem two_names two_names-AreNames
