-- ===== src/Cwd/Reverse.antt =====
-- `sys_getcwd` collects the names from the directory up to the root, and turns their order around.
use elephant_os.Base.{
  ℕ, zero, suc, ◌≤◌, ◌≡◌, refl, ◌∙◌, sym, arith, none, some, List, [], ◌∷◌, ◌++◌, length,
  length-append,
}
use mathlib.Core.List.{append_assoc, append-nil}
use elephant_os.Files.{slash}
use elephant_os.Cwd.{last_slash, reverse_loop}

-- a name without a slash
abbrev pub IsName : List ℕ → Type 0
IsName n = last_slash n ≡ none

abbrev pub AreNames : List (List ℕ) → Type 0
AreNames [] = slash ≡ slash
AreNames (n ∷ names) = IsName n × AreNames names

-- the path through these names, from the root
abbrev pub path_of : List (List ℕ) → List ℕ
path_of [] = []
path_of (n ∷ names) = (slash ∷ n) ++ path_of names

-- what the loop up to the root collects, the last name first
abbrev pub collected : List (List ℕ) → List ℕ
collected [] = []
collected (n ∷ names) = collected names ++ (slash ∷ n)

last_slash-append :
    (path n : List ℕ) → IsName n → last_slash (path ++ (slash ∷ n)) ≡ some (path, slash ∷ n)
unfolding last_slash
last_slash-append [] n name = rw name refl
last_slash-append (c ∷ path) n name = rw (last_slash-append path n name) refl

reverse_loop-collected :
    (fuel : ℕ) (names : List (List ℕ)) (buf : List ℕ)
    → AreNames names
    → length names ≤ fuel
    → reverse_loop fuel (collected names) buf ≡ buf ++ path_of names
unfolding reverse_loop last_slash
reverse_loop-collected zero [] buf all le = sym (append-nil buf)
reverse_loop-collected zero (n ∷ names) buf all le = absurd (omega arith)
reverse_loop-collected (suc fuel) [] buf all le = sym (append-nil buf)
reverse_loop-collected (suc fuel) (n ∷ names) buf (name, all) le =
    rw (reverse_loop, last_slash-append (collected names) n name)
      (reverse_loop-collected fuel names (buf ++ (slash ∷ n)) all (omega arith)
        ∙ append_assoc buf (slash ∷ n) (path_of names))

length-collected : (names : List (List ℕ)) → length names ≤ length (collected names)
length-collected [] = omega arith
length-collected (n ∷ names) =
    omega (arith, length-append (collected names) (slash ∷ n), length-collected names)

-- If no name has a slash, then turning around what the loop collected gives the path through the
-- names from the root, and the length of the string is enough fuel.
pub reverse_loop_lem :
    (names : List (List ℕ))
    → AreNames names
    → reverse_loop (length (collected names)) (collected names) [] ≡ path_of names
reverse_loop_lem names all =
    reverse_loop-collected (length (collected names)) names [] all (length-collected names)
