-- ===== src/LinkedList/Linked.antt =====
-- Sequences of distinct elements, each linked to the next in both directions.
use elephant_os.Base.{ℕ, ◌≡◌, refl, true, false, ◌||◌, List, [], ◌∷◌, ◌++◌, arith, has}
use elephant_os.LinkedList.{Links}

abbrev pub Linked : Links → List ℕ → Type 0
Linked m [] = Unit {0}
Linked m (x ∷ []) = Unit {0}
Linked m (x ∷ y ∷ zs) = (m.next x ≡ y) × (m.prev y ≡ x) × Linked m (y ∷ zs)

abbrev pub Distinct : List ℕ → Type 0
Distinct [] = Unit {0}
Distinct (x ∷ xs) = (has x xs ≡ false) × Distinct xs

pub has-append : (a : ℕ) (xs ys : List ℕ) → has a (xs ++ ys) ≡ (has a xs || has a ys)
has-append a [] ys = refl
has-append a (x ∷ xs) ys = ground (arith, has-append a xs ys)

-- The two parts of a sequence that meet in `p`.
pub Linked-left :
    (m : Links) (ps : List ℕ) (p : ℕ) (qs : List ℕ)
    → Linked m (ps ++ (p ∷ qs))
    → Linked m (ps ++ (p ∷ []))
Linked-left m [] p qs h = tt
Linked-left m (a ∷ []) p qs h = (h.0, h.1, tt)
Linked-left m (a ∷ a' ∷ ps) p qs h = (h.0, h.1, Linked-left m (a' ∷ ps) p qs h.2)

pub Linked-right :
    (m : Links) (ps : List ℕ) (p : ℕ) (qs : List ℕ) → Linked m (ps ++ (p ∷ qs)) → Linked m (p ∷ qs)
Linked-right m [] p qs h = h
Linked-right m (a ∷ []) p qs h = h.2
Linked-right m (a ∷ a' ∷ ps) p qs h = Linked-right m (a' ∷ ps) p qs h.2

pub Linked-join :
    (m : Links) (ps : List ℕ) (p : ℕ) (qs : List ℕ)
    → Linked m (ps ++ (p ∷ []))
    → Linked m (p ∷ qs)
    → Linked m (ps ++ (p ∷ qs))
Linked-join m [] p qs h k = k
Linked-join m (a ∷ []) p qs h k = (h.0, h.1, k)
Linked-join m (a ∷ a' ∷ ps) p qs h k = (h.0, h.1, Linked-join m (a' ∷ ps) p qs h.2 k)

-- A sequence survives a change that spares its own links.
pub Linked-frame_left :
    (m g : Links) (ps : List ℕ) (p : ℕ)
    → Linked m (ps ++ (p ∷ []))
    → ((a : ℕ) → has a ps ≡ true → g.next a ≡ m.next a)
    → ((a : ℕ) → has a (ps ++ (p ∷ [])) ≡ true → g.prev a ≡ m.prev a)
    → Linked g (ps ++ (p ∷ []))
Linked-frame_left m g [] p h n v = tt
Linked-frame_left m g (a ∷ []) p h n v = (ground (arith, n a), ground (arith, v p), tt)
Linked-frame_left m g (a ∷ a' ∷ ps) p h n v = (
  ground (arith, n a),
  ground (arith, v a'),
  Linked-frame_left m g (a' ∷ ps) p h.2 (λ x i. ground (arith, n x)) (λ x i. ground (arith, v x)),
)

pub Linked-frame_right :
    (m g : Links) (q : ℕ) (qs : List ℕ)
    → Linked m (q ∷ qs)
    → ((a : ℕ) → has a (q ∷ qs) ≡ true → g.next a ≡ m.next a)
    → ((a : ℕ) → has a qs ≡ true → g.prev a ≡ m.prev a)
    → Linked g (q ∷ qs)
Linked-frame_right m g q [] h n v = tt
Linked-frame_right m g q (b ∷ qs) h n v = (
  ground (arith, n q),
  ground (arith, v b),
  Linked-frame_right m g b qs h.2 (λ x i. ground (arith, n x)) (λ x i. ground (arith, v x)),
)

-- Distinctness of an appended sequence.
pub Distinct-apart :
    (a : ℕ) (xs ys : List ℕ) → Distinct (xs ++ ys) → has a xs ≡ true → has a ys ≡ false
Distinct-apart a [] ys d i = cc
Distinct-apart a (x ∷ xs) ys d i = ground (arith, has-append x xs ys, Distinct-apart a xs ys d.1)

pub Distinct-right : (xs ys : List ℕ) → Distinct (xs ++ ys) → Distinct ys
Distinct-right [] ys d = d
Distinct-right (x ∷ xs) ys d = Distinct-right xs ys d.1

pub Distinct-insert :
    (e : ℕ) (xs ys : List ℕ)
    → Distinct (xs ++ ys)
    → has e (xs ++ ys) ≡ false
    → Distinct (xs ++ (e ∷ ys))
Distinct-insert e [] ys d out = (out, d)
Distinct-insert e (x ∷ xs) ys d out = (
  ground (arith, has-append x xs ys, has-append x xs (e ∷ ys)),
  Distinct-insert e xs ys d.1 (ground arith),
)

pub Distinct-remove : (e : ℕ) (xs ys : List ℕ) → Distinct (xs ++ (e ∷ ys)) → Distinct (xs ++ ys)
Distinct-remove e [] ys d = d.1
Distinct-remove e (x ∷ xs) ys d =
    (ground (arith, has-append x xs ys, has-append x xs (e ∷ ys)), Distinct-remove e xs ys d.1)
