-- ===== src/LinkedList.antt =====
-- lib/kernel/list.c: the intrusive doubly linked list. An element is the address of its
-- `struct list_elem`; the two link fields of all elements in memory are two functions of it. A
-- `struct list` at address `l` holds its sentinels: `head` at `l`, `tail` eight bytes further.
-- `intr_disable` and `intr_set_status` make each update one step; see Interrupt for them.
pub mod Linked
pub mod Shape
pub mod Laws
pub mod Walks
mod Tests
use elephant_os.Base.{
  ℕ, zero, suc, ◌+◌, Bool, true, false, Option, none, some, ◌==◌, if◌then◌else◌, update,
}

pub record Links : Type 0 where
  pub prev : ℕ → ℕ
  pub next : ℕ → ℕ

abbrev pub head : ℕ → ℕ
head l = l

abbrev pub tail : ℕ → ℕ
tail l = l + 8

abbrev pub set_prev : Links → ℕ → ℕ → Links
set_prev m e p = record m { prev = update m.prev e p }

abbrev pub set_next : Links → ℕ → ℕ → Links
set_next m e p = record m { next = update m.next e p }

unfoldable pub list_init : Links → ℕ → Links
list_init m l =
    let m1 = set_prev m (head l) 0 in
    let m2 = set_next m1 (head l) (tail l) in
    let m3 = set_prev m2 (tail l) (head l) in set_next m3 (tail l) 0

unfoldable pub list_insert_before : Links → ℕ → ℕ → Links
list_insert_before m before elem =
    let m1 = set_next m (m.prev before) elem in
    let m2 = set_prev m1 elem (m1.prev before) in
    let m3 = set_next m2 elem before in set_prev m3 before elem

unfoldable pub list_push : Links → ℕ → ℕ → Links
list_push m plist elem = list_insert_before m (m.next (head plist)) elem

unfoldable pub list_append : Links → ℕ → ℕ → Links
list_append m plist elem = list_insert_before m (tail plist) elem

unfoldable pub list_remove : Links → ℕ → Links
list_remove m pelem =
    let m1 = set_next m (m.prev pelem) (m.next pelem) in set_prev m1 (m1.next pelem) (m1.prev pelem)

unfoldable pub list_pop : Links → ℕ → ℕ × Links
list_pop m plist = let elem = m.next (head plist) in (elem, list_remove m elem)

unfoldable pub list_empty : Links → ℕ → Bool
list_empty m plist = m.next (head plist) == tail plist

-- The walks follow `next` up to the tail. `none` is fuel that ran out.
unfoldable pub find_loop : ℕ → Links → ℕ → ℕ → ℕ → Option Bool
find_loop zero m plist obj_elem elem = none
find_loop (suc fuel) m plist obj_elem elem =
    let rest = find_loop fuel m plist obj_elem (m.next elem) in
    if elem == tail plist then some false else if elem == obj_elem then some true else rest

unfoldable pub elem_find : ℕ → Links → ℕ → ℕ → Option Bool
elem_find fuel m plist obj_elem = find_loop fuel m plist obj_elem (m.next (head plist))

unfoldable pub traversal_loop : ℕ → Links → ℕ → (ℕ → Bool) → ℕ → Option ℕ
traversal_loop zero m plist func elem = none
traversal_loop (suc fuel) m plist func elem =
    let rest = traversal_loop fuel m plist func (m.next elem) in
    if elem == tail plist then some 0 else if func elem then some elem else rest

-- `func` is the callback with its second argument; it must not change the links. 0 is `NULL`.
unfoldable pub list_traversal : ℕ → Links → ℕ → (ℕ → Bool) → Option ℕ
list_traversal fuel m plist func =
    if list_empty m plist then some 0 else traversal_loop fuel m plist func (m.next (head plist))

unfoldable pub len_loop : ℕ → Links → ℕ → ℕ → ℕ → Option ℕ
len_loop zero m plist length elem = none
len_loop (suc fuel) m plist length elem =
    let rest = len_loop fuel m plist (length + 1) (m.next elem) in
    if elem == tail plist then some length else rest

unfoldable pub list_len : ℕ → Links → ℕ → Option ℕ
list_len fuel m plist = len_loop fuel m plist 0 (m.next (head plist))
