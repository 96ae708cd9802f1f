-- ===== src/FreeList.antt =====
-- The free list of src/channel.h, an `slist_head` of PostgreSQL's lib/ilist.h: what the code relies on.
-- A node stands for the slot that holds it, as `slist_container` finds it again.
use postfga.Prelude.{
  ℕ, ◌+◌, ◌≡◌, ◌↔◌, refl, Bool, true, false, List, [], ◌∷◌, ◌++◌, ◌==◌, if◌then◌else◌, arith,
}

-- How often a slot stands in a list.
abbrev pub occurrences : ℕ → List ℕ → ℕ
occurrences i [] = 0
occurrences i (x ∷ xs) = (if x == i then 1 else 0) + occurrences i xs

pub occurrences-append :
    (i : ℕ) (xs ys : List ℕ) → occurrences i (xs ++ ys) ≡ occurrences i xs + occurrences i ys
occurrences-append i [] ys = omega arith
occurrences-append i (x ∷ xs) ys = omega (arith, occurrences-append i xs ys)

pub record SlotList (T : Type 0) : Type 0 where
  pub init : T
  pub is_empty : T → Bool
  pub push_head : T → ℕ → T
  -- Only called on a list that is not empty.
  pub pop_head_node : T → ℕ × T
  -- The slots of the list, head first.
  pub nodes : T → List ℕ
  pub nodes-init : nodes init ≡ []
  pub is_empty_iff : (t : T) → (is_empty t ≡ true) ↔ (nodes t ≡ [])
  -- The list is intrusive: a node that is in it already must not be pushed.
  pub nodes-push_head :
      (t : T) (i : ℕ) → occurrences i (nodes t) ≡ 0 → nodes (push_head t i) ≡ i ∷ nodes t
  pub pop_head_node_lem :
      (t : T) (i : ℕ) (is : List ℕ)
      → nodes t ≡ i ∷ is
      → ((pop_head_node t).0 ≡ i) × (nodes (pop_head_node t).1 ≡ is)

-- A list that meets this.
abbrev pub list_pop : List ℕ → ℕ × List ℕ
list_pop [] = (0, [])
list_pop (x ∷ xs) = (x, xs)

abbrev pub list_empty : List ℕ → Bool
list_empty [] = true
list_empty (x ∷ xs) = false

pub list_empty_iff : (xs : List ℕ) → (list_empty xs ≡ true) ↔ (xs ≡ [])
list_empty_iff [] = (λ p. refl, λ p. refl)
list_empty_iff (x ∷ xs) = (λ p. cc, λ p. cc)

pub list_pop_lem :
    (t : List ℕ) (i : ℕ) (is : List ℕ) → t ≡ i ∷ is → ((list_pop t).0 ≡ i) × ((list_pop t).1 ≡ is)
list_pop_lem [] i is e = cc
list_pop_lem (x ∷ xs) i is e = (cc, cc)

abbrev pub list_slots : SlotList (List ℕ)
list_slots = record {
  init = [];
  is_empty = list_empty;
  push_head = λ xs i. i ∷ xs;
  pop_head_node = list_pop;
  nodes = λ xs. xs;
  nodes-init = refl;
  is_empty_iff = list_empty_iff;
  nodes-push_head = λ t i e. refl;
  pop_head_node_lem = list_pop_lem;
}
