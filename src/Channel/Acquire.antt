-- ===== src/Channel/Acquire.antt =====
-- What `acquire_slot` of src/channel_slot.h hands out.
use postfga.Prelude.{
  ℕ, ◌+◌, ◌<◌, ◌≡◌, ◌≢◌, refl, ap, ◌∙◌, sym, Option, none, some, List, [], ◌∷◌, length, ◌==◌,
  if◌then◌else◌, arith, inl, inr, Bool-cases,
}
use postfga.FreeList.{SlotList, occurrences}
use postfga.Channel.{empty, pending, Pool, state_of, write_state, acquire_slot}
use postfga.Channel.Vacancy.{
  vacancy, vacancy_le_one, empty_of_vacancy, vacancy-outside, IsConsistent, state_of-write_state,
  length-write_state,
}

module _ {T : Type 0} (S : SlotList T) where
  abbrev pub Acquired : Pool T → Option ℕ × Pool T → Type 0
  Acquired pool (none, pool') = (pool' ≡ pool) × ((i : ℕ) → state_of S pool i ≢ empty)
  Acquired pool (some i, pool') =
      (i < length pool.slots)
      × (state_of S pool i ≡ empty)
      × ((j : ℕ) → state_of S pool' j ≡ (if i == j then pending else state_of S pool j))
      × (length pool'.slots ≡ length pool.slots)
      × IsConsistent S pool'

  taken-Acquired :
      (pool : Pool T) (head : T) (i : ℕ) (is : List ℕ)
      → IsConsistent S pool
      → S.nodes pool.head ≡ i ∷ is
      → S.nodes head ≡ is
      → Acquired pool (some i, write_state S (record pool { head = head }) i pending)
  unfolding vacancy write_state
  taken-Acquired pool head i is c full rest = (
    bound,
    empty_of_vacancy _ free,
    seen,
    length-write_state S emptied i pending,
    λ j. elim (Bool-cases (i == j)) [
      | inl e ↦
          rw (seen j, e)
            (ap (occurrences j) rest
              ∙ ground (arith, count j, vacancy_le_one (state_of S pool j), e))
      | inr e ↦ rw (seen j, e) (ap (occurrences j) rest ∙ ground (arith, count j, e))
    ],
  )
    where
      emptied : Pool T
      emptied = record pool { head = head }

      count : (j : ℕ) → (if i == j then 1 else 0) + occurrences j is ≡ vacancy (state_of S pool j)
      count j = sym (ap (occurrences j) full) ∙ c j

      free : 0 < vacancy (state_of S pool i)
      free = ground (arith, count i)

      bound : i < length pool.slots
      bound = ground (arith, free, vacancy-outside pool.slots i)

      seen :
          (j : ℕ)
          → state_of S (write_state S emptied i pending) j
            ≡ (if i == j then pending else state_of S pool j)
      seen j = state_of-write_state S emptied i j pending bound

  -- `acquire_slot` of a consistent pool takes a slot that was EMPTY and makes it PENDING, touches no other
  -- state, and keeps the pool consistent; it fails only when no slot is EMPTY, and then changes nothing.
  pub acquire_slot-Acquired :
      (pool : Pool T) → IsConsistent S pool → Acquired pool (acquire_slot S pool)
  unfolding acquire_slot vacancy
  acquire_slot-Acquired pool c = by_nodes (S.nodes pool.head) refl
    where
      by_nodes : (is : List ℕ) → S.nodes pool.head ≡ is → Acquired pool (acquire_slot S pool)
      by_nodes [] e =
          rw ((S.is_empty_iff pool.head).1 e)
            (refl, λ i p. omega (arith, c i, ap (occurrences i) e, ap vacancy p))
      by_nodes (x ∷ is) e =
          let (first, rest) = S.pop_head_node_lem pool.head x is e in
          elim (Bool-cases (S.is_empty pool.head)) [
            | inl b ↦ let q = (S.is_empty_iff pool.head).0 b in absurd (cc)
            | inr b ↦ rw (b, first) (taken-Acquired pool _ x is c e rest)
          ]
