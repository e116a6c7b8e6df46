-- ===== src/LinkedList/Tests.antt =====
-- A list of two elements, and instances of the theorems about lists.
use elephant_os.Base.{refl, [], ◌∷◌}
use elephant_os.LinkedList.{Links, list_init, list_append, list_remove}
use elephant_os.LinkedList.Laws.{IsList, list_init-nil, list_append-snoc, list_remove-append}

abbrev blank : Links
blank = record { prev = λ e. 0; next = λ e. 0 }

abbrev none_in : Links
none_in = list_init blank 100

abbrev one_in : Links
one_in = list_append none_in 100 200

abbrev two_in : Links
two_in = list_append one_in 100 300

one_in-IsList : IsList one_in 100 (200 ∷ [])
one_in-IsList = list_append-snoc none_in 100 200 [] (list_init-nil blank 100) refl

two_in-IsList : IsList two_in 100 (200 ∷ 300 ∷ [])
two_in-IsList = list_append-snoc one_in 100 300 (200 ∷ []) one_in-IsList refl

list_remove-append_example : IsList (list_remove two_in 300) 100 (200 ∷ [])
list_remove-append_example = list_remove-append two_in 100 300 (200 ∷ []) [] two_in-IsList
