-- ===== src/LinkedList/Shape.antt =====
-- The two updates of a chain: `list_insert_before` puts an element between two neighbours, and
-- `list_remove` takes one out from between its neighbours.
use elephant_os.Base.{ℕ, ◌≡◌, false, List, [], ◌∷◌, ◌++◌, arith, ◌==◌, has, update}
use elephant_os.LinkedList.{Links, list_insert_before, list_remove}
use elephant_os.LinkedList.Linked.{
  Linked, Distinct, has-append, Linked-left, Linked-right, Linked-join, Linked-frame_left,
  Linked-frame_right, Distinct-apart, Distinct-right,
}

module _ (m : Links) (ps : List ℕ) (p q e : ℕ) (qs : List ℕ) (h : Linked m (ps ++ (p ∷ q ∷ qs)))
    (d : Distinct (ps ++ (p ∷ q ∷ qs))) (out : has e (ps ++ (p ∷ q ∷ qs)) ≡ false) where
  prev_is : m.prev q ≡ p
  prev_is = (Linked-right m ps p (q ∷ qs) h).1

  abbrev inserted : Links
  inserted = record { prev = update (update m.prev e p) q e; next = update (update m.next p e) e q }

  insert_before-eq : list_insert_before m q e ≡ inserted
  unfolding list_insert_before
  insert_before-eq = rw prev_is

  pub insert_before-Linked : Linked (list_insert_before m q e) (ps ++ (p ∷ e ∷ q ∷ qs))
  insert_before-Linked =
      let right = Distinct-right ps (p ∷ q ∷ qs) d in
      let new = has-append e ps (p ∷ q ∷ qs) in
      rw insert_before-eq (
        Linked-join inserted ps p (e ∷ q ∷ qs)
          (Linked-frame_left m inserted ps p (Linked-left m ps p (q ∷ qs) h)
            (λ a i. ground (arith, Distinct-apart a ps (p ∷ q ∷ qs) d))
            (λ a i. ground (arith, has-append a ps (p ∷ []), Distinct-apart a ps (p ∷ q ∷ qs) d)))
          (
            ground arith,
            ground arith,
            (
              ground arith,
              ground arith,
              Linked-frame_right m inserted q qs (Linked-right m ps p (q ∷ qs) h).2
                  (λ a i. ground arith) (λ a i. ground arith),
            ),
          ))

module _ (m : Links) (ps : List ℕ) (p e q : ℕ) (qs : List ℕ) (h : Linked m (ps ++ (p ∷ e ∷ q ∷ qs)))
    (d : Distinct (ps ++ (p ∷ e ∷ q ∷ qs))) where
  abbrev removed : Links
  removed = record { prev = update m.prev q p; next = update m.next p q }

  remove-eq : list_remove m e ≡ removed
  unfolding list_remove
  remove-eq =
      let right = Linked-right m ps p (e ∷ q ∷ qs) h in
      let ne = Distinct-right ps (p ∷ e ∷ q ∷ qs) d in
      let before : m.prev e ≡ p = right.1 in
      let after : m.next e ≡ q = right.2.0 in
      let other : (e == p) ≡ false = ground arith in rw (before, after, other)

  pub remove-Linked : Linked (list_remove m e) (ps ++ (p ∷ q ∷ qs))
  remove-Linked =
      let right = Distinct-right ps (p ∷ e ∷ q ∷ qs) d in
      rw remove-eq (
        Linked-join removed ps p (q ∷ qs)
          (Linked-frame_left m removed ps p (Linked-left m ps p (e ∷ q ∷ qs) h)
            (λ a i. ground (arith, Distinct-apart a ps (p ∷ e ∷ q ∷ qs) d))
            (λ a i.
              ground (arith, has-append a ps (p ∷ []), Distinct-apart a ps (p ∷ e ∷ q ∷ qs) d)))
          (
            ground arith,
            ground arith,
            Linked-frame_right m removed q qs (Linked-right m ps p (e ∷ q ∷ qs) h).2.2
                (λ a i. ground arith) (λ a i. ground arith),
          ))
