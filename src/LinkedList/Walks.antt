-- ===== src/LinkedList/Walks.antt =====
-- The walks over a list: with more fuel than elements each ends, and gives what it should.
use elephant_os.Base.{
  ℕ, zero, suc, ◌+◌, ◌<◌, ◌≡◌, refl, ◌∙◌, ap, Bool, false, some, List, [], ◌∷◌, ◌++◌, arith, ◌==◌,
  if◌then◌else◌, has, length,
}
use elephant_os.LinkedList.{
  Links, head, tail, list_empty, find_loop, elem_find, traversal_loop, list_traversal, len_loop,
  list_len,
}
use elephant_os.LinkedList.Linked.{Linked, Distinct, has-append}
use elephant_os.LinkedList.Laws.{IsList}

-- the first element that satisfies the callback, 0 if there is none
unfoldable pub first_such : (ℕ → Bool) → List ℕ → ℕ
first_such func [] = 0
first_such func (x ∷ xs) = if func x then x else first_such func xs

-- The first node of a chain that ends in the tail.
abbrev pub first : ℕ → List ℕ → ℕ
first l [] = tail l
first l (x ∷ xs) = x

module _ (m : Links) (l : ℕ) where
  find_loop-has :
      (fuel obj x : ℕ) (xs : List ℕ)
      → length xs < fuel
      → Linked m (x ∷ (xs ++ (tail l ∷ [])))
      → has (tail l) xs ≡ false
      → find_loop fuel m l obj (m.next x) ≡ some (has obj xs)
  unfolding find_loop
  find_loop-has zero obj x xs short h out = absurd (omega arith)
  find_loop-has (suc fuel) obj x [] short h out = rw h.0 (ground arith)
  find_loop-has (suc fuel) obj x (y ∷ xs) short h out =
      rw h.0 (ground (arith, find_loop-has fuel obj y xs (omega arith) h.2))

  traversal_loop-first :
      (fuel : ℕ) (func : ℕ → Bool) (x : ℕ) (xs : List ℕ)
      → length xs < fuel
      → Linked m (x ∷ (xs ++ (tail l ∷ [])))
      → has (tail l) xs ≡ false
      → traversal_loop fuel m l func (m.next x) ≡ some (first_such func xs)
  unfolding traversal_loop first_such
  traversal_loop-first zero func x xs short h out = absurd (omega arith)
  traversal_loop-first (suc fuel) func x [] short h out = rw h.0 (ground arith)
  traversal_loop-first (suc fuel) func x (y ∷ xs) short h out =
      rw h.0 (ground (arith, traversal_loop-first fuel func y xs (omega arith) h.2))

  len_loop-length :
      (fuel n x : ℕ) (xs : List ℕ)
      → length xs < fuel
      → Linked m (x ∷ (xs ++ (tail l ∷ [])))
      → has (tail l) xs ≡ false
      → len_loop fuel m l n (m.next x) ≡ some (n + length xs)
  unfolding len_loop
  len_loop-length zero n x xs short h out = absurd (omega arith)
  len_loop-length (suc fuel) n x [] short h out = rw h.0 (ground arith)
  len_loop-length (suc fuel) n x (y ∷ xs) short h out =
      rw h.0 (ground (arith, len_loop-length fuel (n + 1) y xs (omega arith) h.2))

  list_empty-first : (xs : List ℕ) → IsList m l xs → list_empty m l ≡ (first l xs == tail l)
  unfolding list_empty
  list_empty-first [] is = rw is.linked.0
  list_empty-first (x ∷ xs) is = rw is.linked.0

  tail_out : (xs : List ℕ) → Distinct (xs ++ (tail l ∷ [])) → has (tail l) xs ≡ false
  tail_out [] d = refl
  tail_out (x ∷ xs) d = ground (arith, has-append x xs (tail l ∷ []), tail_out xs d.1)

  empty_or_not :
      (xs : List ℕ)
      → has (tail l) xs ≡ false
      → (func : ℕ → Bool)
      → (if first l xs == tail l then some 0 else some (first_such func xs))
        ≡ some (first_such func xs)
  unfolding first_such
  empty_or_not [] out func = ground arith
  empty_or_not (x ∷ xs) out func = ground arith

  -- `list_empty` says whether the list has no element.
  list_empty_lem : (xs : List ℕ) → IsList m l xs → list_empty m l ≡ (length xs == 0)
  list_empty_lem [] is = list_empty-first [] is ∙ ground arith
  list_empty_lem (x ∷ xs) is =
      list_empty-first (x ∷ xs) is ∙ ground (arith, tail_out (x ∷ xs) is.distinct.1)

  module _ (fuel : ℕ) (xs : List ℕ) (is : IsList m l xs) (short : length xs < fuel) where
    -- With fuel for the list, `elem_find` on a well-formed list says whether the element is in the list.
    elem_find-has : (obj : ℕ) → elem_find fuel m l obj ≡ some (has obj xs)
    unfolding elem_find
    elem_find-has obj =
        find_loop-has fuel obj (head l) xs short is.linked (tail_out xs is.distinct.1)

    -- With fuel for the list, `list_traversal` on a well-formed list returns the first element for which the callback is true, else `NULL`.
    list_traversal-first_such :
        (func : ℕ → Bool) → list_traversal fuel m l func ≡ some (first_such func xs)
    unfolding list_traversal
    list_traversal-first_such func =
        let out = tail_out xs is.distinct.1 in
        let walk = traversal_loop-first fuel func (head l) xs short is.linked out in
        rw (list_empty-first xs is, walk) (empty_or_not xs out func)

    -- With fuel for the list, `list_len` on a well-formed list returns the number of its elements.
    list_len-length : list_len fuel m l ≡ some (length xs)
    unfolding list_len
    list_len-length =
        len_loop-length fuel 0 (head l) xs short is.linked (tail_out xs is.distinct.1)
        ∙ ap some (omega arith)
