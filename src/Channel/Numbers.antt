-- ===== src/Channel/Numbers.antt =====
-- The request ids that `fga_channel_acquire_slot` of src/channel.c gives.
use postfga.Prelude.{
  sym, true, false, Option, none, some, ◌+◌, ◌%◌, ◌^◌, set, ◌∙◌, ◌<◌, ap, length, ◌==◌, ==_iff,
  get_or-set_self, get_or-set_ne, arith, ℕ, ◌≡◌, refl, Bool, if◌then◌else◌, inl, inr, Bool-cases,
}
use postfga.FreeList.{SlotList}
use postfga.Channel.{acquire, acquire_slot, Slot, Pool, outside, slot_at, write_state, Channel}
use postfga.Channel.Acquire.{Acquired, acquire_slot-Acquired}
use postfga.Channel.Vacancy.{IsConsistent}

module _ {T : Type 0} (S : SlotList T) where
  abbrev pub id_at : Pool T → ℕ → ℕ
  id_at pool i = (slot_at S pool i).payload.request.request_id

  -- `fga_channel_acquire_slot` gives the slot that it hands out the next request id, and touches no other id.
  abbrev pub Numbered : Channel T → Option ℕ × Channel T → Type 0
  Numbered ch (none, ch') = Unit
  Numbered ch (some i, ch') =
      (ch'.request_id ≡ (ch.request_id + 1) % 2 ^ 64)
      × ((j : ℕ)
          → id_at ch'.pool j ≡ (if i == j then (ch.request_id + 1) % 2 ^ 64 else id_at ch.pool j))

  pub id-set :
      (pool : Pool T) (i j : ℕ) (slot : Slot)
      → i < length pool.slots
      → id_at (record pool { slots = set pool.slots i slot }) j
        ≡ (if i == j then slot.payload.request.request_id else id_at pool j)
  id-set pool i j slot h = elim (Bool-cases (i == j)) [
    | inl same ↦
        rw (same, ← (==_iff i j).0 same) (numbered (get_or-set_self pool.slots i slot outside h))
    | inr apart ↦
        rw apart
          (numbered (get_or-set_ne pool.slots i j slot outside (λ p. ground (arith, ==_iff i j))))
  ]
    where
      numbered : {a b : Slot} → a ≡ b → a.payload.request.request_id ≡ b.payload.request.request_id
      numbered p = ap (λ (x : Slot). x.payload.request.request_id) p

  chosen :
      (b : Bool) (i0 i : ℕ) (x y z : Pool T)
      → ◌≡◌ {A = Option ℕ × Pool T} (if b then (none, x) else (some i0, y)) (some i, z)
      → (y ≡ z) × (i0 ≡ i)
  chosen true i0 i x y z e = absurd (cc)
  chosen false i0 i x y z e = (ap (λ (p : Option ℕ × Pool T). p.1) e, cc)

  id-acquire_slot :
      (pool : Pool T) (i j : ℕ) (pool' : Pool T)
      → acquire_slot S pool ≡ (some i, pool')
      → i < length pool.slots
      → id_at pool' j ≡ id_at pool j
  unfolding acquire_slot write_state
  id-acquire_slot pool i j pool' e h =
      let (last, first) = chosen (S.is_empty pool.head) _ i pool _ pool' e in
      let inside : (S.pop_head_node pool.head).0 < length pool.slots = rw first h in
      ap (λ (p : Pool T). id_at p j) (sym last)
      ∙ id-set pool _ j _ inside
      ∙ elim (Bool-cases ((S.pop_head_node pool.head).0 == j)) [
        | inl same ↦ rw (same, (==_iff _ j).0 same) refl
        | inr apart ↦ rw apart refl
      ]

  pub acquire-Numbered :
      (ch : Channel T) (my_pid : ℕ) → IsConsistent S ch.pool → Numbered ch (acquire S ch my_pid)
  unfolding acquire
  acquire-Numbered ch my_pid c =
      by_slot (acquire_slot S ch.pool) (acquire_slot-Acquired S ch.pool c) refl
    where
      by_slot :
          (r : Option ℕ × Pool T)
          → Acquired S ch.pool r
          → acquire_slot S ch.pool ≡ r
          → Numbered ch (acquire S ch my_pid)
      by_slot (none, pool) t e = rw e tt
      by_slot (some i, pool) (inside, free, states, long, consistent) e = rw e (
        refl,
        λ j. id-set pool i j _ (rw long inside) ∙ elim (Bool-cases (i == j)) [
          | inl same ↦ rw same refl
          | inr apart ↦ rw apart (id-acquire_slot ch.pool i j pool e inside)
        ],
      )
