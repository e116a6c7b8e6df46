-- ===== src/LinkedList/Laws.antt =====
-- What the operations do to the sequence of elements that a `struct list` stands for.
use elephant_os.Base.{ℕ, ◌≡◌, refl, sym, ◌∙◌, ap, false, List, [], ◌∷◌, ◌++◌, arith, has}
use mathlib.Core.Path.{subst}
use mathlib.Core.List.{append_assoc}
use elephant_os.LinkedList.{
  Links, head, tail, list_init, list_push, list_append, list_remove, list_pop,
}
use elephant_os.LinkedList.Linked.{Linked, Distinct, Distinct-insert, Distinct-remove}
use elephant_os.LinkedList.Shape.{insert_before-Linked, remove-Linked}

-- all nodes of the list at `l`, the sentinels included
abbrev pub nodes : ℕ → List ℕ → List ℕ
nodes l xs = head l ∷ (xs ++ (tail l ∷ []))

-- The list at `l` stands for the elements `xs`, in order.
pub record IsList (m : Links) (l : ℕ) (xs : List ℕ) : Type 0 where
  pub linked : Linked m (nodes l xs)
  pub distinct : Distinct (nodes l xs)

-- `list_init` makes an empty list.
pub list_init-nil : (m : Links) (l : ℕ) → IsList (list_init m l) l []
unfolding list_init
list_init-nil m l = record {
  linked = (ground arith, ground arith, tt);
  distinct = (ground arith, (refl, tt));
}

-- the last of `x` and `xs`, with what stands before it
last_node :
    (x : ℕ) (xs : List ℕ)
    → (ps : List ℕ) × (p : ℕ) × ((ys : List ℕ) → x ∷ (xs ++ ys) ≡ ps ++ (p ∷ ys))
last_node x [] = ([], x, λ ys. refl)
last_node x (x' ∷ xs) =
    let (ps, p, e) = last_node x' xs in (x ∷ ps, p, λ ys. ap (λ (r : List ℕ). x ∷ r) (e ys))

-- the element behind the position where `ys` begins, or the tail
next_node : (l : ℕ) (ys : List ℕ) → (q : ℕ) × (qs : List ℕ) × (ys ++ (tail l ∷ []) ≡ q ∷ qs)
next_node l [] = (tail l, [], refl)
next_node l (y ∷ ys) = (y, ys ++ (tail l ∷ []), refl)

-- On a well-formed list that does not contain it, `list_push` puts a new element in front.
list_push-cons :
    (m : Links) (l e : ℕ) (xs : List ℕ)
    → IsList m l xs
    → has e (nodes l xs) ≡ false
    → IsList (list_push m l e) l (e ∷ xs)
unfolding list_push
list_push-cons m l e [] is out = rw is.linked.0 (record {
  linked = insert_before-Linked m [] (head l) (tail l) e [] is.linked is.distinct out;
  distinct = Distinct-insert e (head l ∷ []) (tail l ∷ []) is.distinct out;
})
list_push-cons m l e (x ∷ xs) is out = rw is.linked.0 (record {
  linked = insert_before-Linked m [] (head l) x e (xs ++ (tail l ∷ [])) is.linked is.distinct out;
  distinct = Distinct-insert e (head l ∷ []) (x ∷ (xs ++ (tail l ∷ []))) is.distinct out;
})

module _ (m : Links) (l e : ℕ) where
  -- On a well-formed list that does not contain it, and does not have it for its head or tail,
  -- `list_append` puts a new element at the end.
  pub list_append-snoc :
      (xs : List ℕ)
      → IsList m l xs
      → has e (nodes l xs) ≡ false
      → IsList (list_append m l e) l (xs ++ (e ∷ []))
  unfolding list_append
  list_append-snoc xs is out =
      let (ps, p, split) = last_node (head l) xs in
      let old = split (tail l ∷ []) in
      let new : nodes l (xs ++ (e ∷ [])) ≡ ps ++ (p ∷ e ∷ tail l ∷ []) =
        ap (λ (r : List ℕ). head l ∷ r) (append_assoc xs (e ∷ []) (tail l ∷ []))
        ∙ split (e ∷ tail l ∷ []) in
      record {
        linked = rw new (
            insert_before-Linked m ps p (tail l) e [] (rw old at is.linked)
              (subst Distinct old is.distinct) (subst (λ r. has e r ≡ false) old out));
        distinct =
            subst Distinct
              (sym (ap (λ (r : List ℕ). head l ∷ r) (append_assoc xs (e ∷ []) (tail l ∷ []))))
              (Distinct-insert e (head l ∷ xs) (tail l ∷ []) is.distinct out);
      }

  -- On a well-formed list, `list_remove` takes an element of it out, wherever it stands.
  pub list_remove-append :
      (xs ys : List ℕ) → IsList m l (xs ++ (e ∷ ys)) → IsList (list_remove m e) l (xs ++ ys)
  list_remove-append xs ys is =
      let (ps, p, split) = last_node (head l) xs in
      let (q, qs, after) = next_node l ys in
      let old : nodes l (xs ++ (e ∷ ys)) ≡ ps ++ (p ∷ e ∷ q ∷ qs) =
        ap (λ (r : List ℕ). head l ∷ r) (append_assoc xs (e ∷ ys) (tail l ∷ []))
        ∙ split (e ∷ (ys ++ (tail l ∷ [])))
        ∙ ap (λ (r : List ℕ). ps ++ (p ∷ e ∷ r)) after in
      let new : nodes l (xs ++ ys) ≡ ps ++ (p ∷ q ∷ qs) =
        ap (λ (r : List ℕ). head l ∷ r) (append_assoc xs ys (tail l ∷ []))
        ∙ split (ys ++ (tail l ∷ []))
        ∙ ap (λ (r : List ℕ). ps ++ (p ∷ r)) after in
      record {
        linked =
            rw new
              (remove-Linked m ps p e q qs (rw old at is.linked) (subst Distinct old is.distinct));
        distinct =
            subst Distinct
              (sym (ap (λ (r : List ℕ). head l ∷ r) (append_assoc xs ys (tail l ∷ []))))
              (Distinct-remove e (head l ∷ xs) (ys ++ (tail l ∷ [])) (
                subst Distinct
                  (ap (λ (r : List ℕ). head l ∷ r) (append_assoc xs (e ∷ ys) (tail l ∷ [])))
                  is.distinct));
      }

-- On a well-formed list with an element, `list_pop` returns the first one and leaves the rest.
list_pop-cons :
    (m : Links) (l x : ℕ) (xs : List ℕ)
    → IsList m l (x ∷ xs)
    → ((list_pop m l).0 ≡ x) × IsList (list_pop m l).1 l xs
unfolding list_pop
list_pop-cons m l x xs is = (is.linked.0, rw is.linked.0 (list_remove-append m l x [] xs is))
