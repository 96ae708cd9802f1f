-- ===== src/Channel/Payloads.antt =====
-- What the operations of src/channel.c and the worker do to the payloads: what a state change leaves of them.
use postfga.Prelude.{
  set, ◌∙◌, ◌<◌, ap, length, ◌==◌, ==_iff, get_or-set_self, get_or-set_ne, arith, ℕ, ◌≡◌, refl,
  Bool, if◌then◌else◌, inl, inr, Bool-cases,
}
use postfga.FreeList.{SlotList}
use postfga.Channel.{
  Slot, Pool, outside, slot_at, write_state, release_slot, SlotState, empty, canceled, pending,
  processing, done, Channel, state_of, release, catch_interrupt, wake_backend, begin_processing,
  handle_response,
}
use postfga.Channel.Vacancy.{length-write_state}

module _ {T : Type 0} (S : SlotList T) where
  pub payload-write_state :
      (pool : Pool T) (i j : ℕ) (s : SlotState)
      → i < length pool.slots
      → (slot_at S (write_state S pool i s) j).payload ≡ (slot_at S pool j).payload
  unfolding write_state
  payload-write_state pool i j s h = elim (Bool-cases (i == j)) [
    | inl same ↦ rw (← (==_iff i j).0 same) (carried (get_or-set_self pool.slots i _ outside h))
    | inr apart ↦ carried (get_or-set_ne pool.slots i j _ outside (λ p. ground (arith, ==_iff i j)))
  ]
    where
      carried : {a b : Slot} → a ≡ b → a.payload ≡ b.payload
      carried p = ap (λ (x : Slot). x.payload) p

  pub payload-begin_processing :
      (ch : Channel T) (i j : ℕ)
      → i < length ch.pool.slots
      → (slot_at S (begin_processing S ch i).1.pool j).payload ≡ (slot_at S ch.pool j).payload
  unfolding begin_processing release release_slot
  payload-begin_processing ch i j h = by_state (state_of S ch.pool i) refl
    where
      by_state :
          (s : SlotState)
          → state_of S ch.pool i ≡ s
          → (slot_at S (begin_processing S ch i).1.pool j).payload ≡ (slot_at S ch.pool j).payload
      by_state empty e = rw e refl
      by_state canceled e = rw e (payload-write_state ch.pool i j empty h)
      by_state pending e = rw e (payload-write_state ch.pool i j processing h)
      by_state processing e = rw e refl
      by_state done e = rw e refl

  pub payload-release :
      (ch : Channel T) (i j : ℕ)
      → i < length ch.pool.slots
      → (slot_at S (release S ch i).pool j).payload ≡ (slot_at S ch.pool j).payload
  unfolding release release_slot
  payload-release ch i j h = payload-write_state ch.pool i j empty h

  -- A write to slot `i` that keeps its payload keeps all payloads.
  payload-set :
      (pool : Pool T) (i j : ℕ) (slot : Slot)
      → i < length pool.slots
      → slot.payload ≡ (slot_at S pool i).payload
      → (slot_at S (record pool { slots = set pool.slots i slot }) j).payload
        ≡ (slot_at S pool j).payload
  payload-set pool i j slot h e = elim (Bool-cases (i == j)) [
    | inl same ↦
        rw (← (==_iff i j).0 same) (carried (get_or-set_self pool.slots i slot outside h) ∙ e)
    | inr apart ↦
        carried (get_or-set_ne pool.slots i j slot outside (λ p. ground (arith, ==_iff i j)))
  ]
    where
      carried : {a b : Slot} → a ≡ b → a.payload ≡ b.payload
      carried p = ap (λ (x : Slot). x.payload) p

  pub payload-catch_interrupt :
      (ch : Channel T) (i j : ℕ)
      → i < length ch.pool.slots
      → (slot_at S (catch_interrupt S ch i).pool j).payload ≡ (slot_at S ch.pool j).payload
  unfolding catch_interrupt release release_slot write_state
  payload-catch_interrupt ch i j h = by_state (state_of S ch.pool i) refl
    where
      marked : (s : SlotState) → i < length (write_state S ch.pool i s).slots
      marked s = rw (length-write_state S ch.pool i s) h

      by_state :
          (s : SlotState)
          → state_of S ch.pool i ≡ s
          → (slot_at S (catch_interrupt S ch i).pool j).payload ≡ (slot_at S ch.pool j).payload
      by_state empty e = rw e (payload-set ch.pool i j _ h refl)
      by_state canceled e = rw e (payload-set ch.pool i j _ h refl)
      by_state pending e = rw e (
          payload-set (write_state S ch.pool i canceled) i j _ (marked canceled) refl
          ∙ payload-write_state ch.pool i j canceled h)
      by_state processing e = rw e (
          payload-set (write_state S ch.pool i canceled) i j _ (marked canceled) refl
          ∙ payload-write_state ch.pool i j canceled h)
      by_state done e =
          rw e
            (payload-set (release S ch i).pool i j _ (marked empty) refl ∙ payload-release ch i j h)

  pub payload-handle_response :
      (is_running : ℕ → Bool) (ch : Channel T) (i j : ℕ)
      → i < length ch.pool.slots
      → (slot_at S (handle_response S is_running ch i).pool j).payload
        ≡ (slot_at S ch.pool j).payload
  unfolding handle_response
  payload-handle_response is_running ch i j h = by_state (state_of S ch.pool i) refl
    where
      ch' : Channel T
      ch' = record ch { pool = write_state S ch.pool i done }

      completed :
          (slot_at S
            (if wake_backend S is_running ch' i then ch' else release S ch' i).pool
            j).payload
          ≡ (slot_at S ch.pool j).payload
      completed = elim (Bool-cases (wake_backend S is_running ch' i)) [
        | inl woken ↦ rw woken (payload-write_state ch.pool i j done h)
        | inr gone ↦ rw gone (
            payload-release ch' i j (rw (length-write_state S ch.pool i done) h)
            ∙ payload-write_state ch.pool i j done h)
      ]

      by_state :
          (s : SlotState)
          → state_of S ch.pool i ≡ s
          → (slot_at S (handle_response S is_running ch i).pool j).payload
            ≡ (slot_at S ch.pool j).payload
      by_state empty e = rw e completed
      by_state canceled e = rw e (payload-release ch i j h)
      by_state pending e = rw e completed
      by_state processing e = rw e completed
      by_state done e = rw e completed

  -- Only an acquisition counts.
  pub request_id-release : (ch : Channel T) (i : ℕ) → (release S ch i).request_id ≡ ch.request_id
  unfolding release
  request_id-release ch i = refl

  pub request_id-catch_interrupt :
      (ch : Channel T) (i : ℕ) → (catch_interrupt S ch i).request_id ≡ ch.request_id
  unfolding catch_interrupt release
  request_id-catch_interrupt ch i = by_state (state_of S ch.pool i) refl
    where
      by_state :
          (s : SlotState)
          → state_of S ch.pool i ≡ s
          → (catch_interrupt S ch i).request_id ≡ ch.request_id
      by_state empty e = rw e refl
      by_state canceled e = rw e refl
      by_state pending e = rw e refl
      by_state processing e = rw e refl
      by_state done e = rw e refl

  pub request_id-begin_processing :
      (ch : Channel T) (i : ℕ) → (begin_processing S ch i).1.request_id ≡ ch.request_id
  unfolding begin_processing release
  request_id-begin_processing ch i = by_state (state_of S ch.pool i) refl
    where
      by_state :
          (s : SlotState)
          → state_of S ch.pool i ≡ s
          → (begin_processing S ch i).1.request_id ≡ ch.request_id
      by_state empty e = rw e refl
      by_state canceled e = rw e refl
      by_state pending e = rw e refl
      by_state processing e = rw e refl
      by_state done e = rw e refl

  pub request_id-handle_response :
      (is_running : ℕ → Bool) (ch : Channel T) (i : ℕ)
      → (handle_response S is_running ch i).request_id ≡ ch.request_id
  unfolding handle_response release
  request_id-handle_response is_running ch i = by_state (state_of S ch.pool i) refl
    where
      woken :
          (ch' : Channel T)
          → (if wake_backend S is_running ch' i then ch' else release S ch' i).request_id
            ≡ ch'.request_id
      woken ch' = elim (Bool-cases (wake_backend S is_running ch' i)) [
        | inl e ↦ rw e refl
        | inr e ↦ rw e refl
      ]

      by_state :
          (s : SlotState)
          → state_of S ch.pool i ≡ s
          → (handle_response S is_running ch i).request_id ≡ ch.request_id
      by_state empty e = rw e (woken _)
      by_state canceled e = rw e refl
      by_state pending e = rw e (woken _)
      by_state processing e = rw e (woken _)
      by_state done e = rw e (woken _)
