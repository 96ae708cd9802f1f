-- ===== src/Channel/Effect.antt =====
-- What each operation on a slot does to the states of all slots.
use postfga.Prelude.{
  ℕ, ◌<◌, ◌≡◌, ◌≢◌, refl, ap, ◌∙◌, sym, Bool, true, false, length, set, length-set, get_or-set_self,
  get_or-set_ne, ◌==◌, ==_iff, ==_refl, if◌then◌else◌, arith, inl, inr, Bool-cases,
}
use postfga.FreeList.{SlotList}
use postfga.Channel.{
  Slot, SlotState, empty, canceled, pending, processing, done, Pool, Channel, outside, state_of,
  write_state, release_slot, release, catch_interrupt, wake_backend, begin_processing,
  handle_response,
}
use postfga.Channel.Vacancy.{
  vacancy, IsConsistent, state_of-write_state, length-write_state, write_state-IsConsistent,
  release_slot-IsConsistent,
}
use postfga.Channel.Busy.{Busy, canceled-ne-empty, processing-ne-empty, done-ne-empty}

-- The state after an interrupt of the backend,
unfoldable pub interrupted_state : SlotState → SlotState
interrupted_state empty = empty
interrupted_state canceled = canceled
interrupted_state pending = canceled
interrupted_state processing = canceled
interrupted_state done = empty

-- after the worker has begun with the slot,
unfoldable pub begun_state : SlotState → SlotState
begun_state empty = empty
begun_state canceled = empty
begun_state pending = processing
begun_state processing = processing
begun_state done = done

-- and after the worker has handled the response, where the process can be woken.
unfoldable pub responded_state : Bool → SlotState → SlotState
responded_state woken canceled = empty
responded_state woken empty = if woken then done else empty
responded_state woken pending = if woken then done else empty
responded_state woken processing = if woken then done else empty
responded_state woken done = if woken then done else empty

unfoldable pub is_pending : SlotState → Bool
is_pending empty = false
is_pending canceled = false
is_pending pending = true
is_pending processing = false
is_pending done = false

module _ {T : Type 0} (S : SlotList T) where
  -- The pool stays consistent and as long, and only slot `i` has another state, `s`.
  pub record Effect (i : ℕ) (s : SlotState) (pool pool' : Pool T) : Type 0 where
    pub consistent : IsConsistent S pool'
    pub same_length : length pool'.slots ≡ length pool.slots
    pub states : (j : ℕ) → state_of S pool' j ≡ (if i == j then s else state_of S pool j)

  pub unchanged :
      (pool : Pool T) (i : ℕ) (s : SlotState)
      → Busy S i pool
      → state_of S pool i ≡ s
      → Effect i s pool pool
  unchanged pool i s b e = record {
    consistent = b.consistent;
    same_length = refl;
    states = λ j. elim (Bool-cases (i == j)) [
      | inl same ↦ rw (same, ← (==_iff i j).0 same) e
      | inr apart ↦ rw apart refl
    ];
  }

  written :
      (pool : Pool T) (i : ℕ) (s : SlotState)
      → Busy S i pool
      → s ≢ empty
      → Effect i s pool (write_state S pool i s)
  written pool i s b new = record {
    consistent = write_state-IsConsistent S pool i s b.consistent b.inside b.used new;
    same_length = length-write_state S pool i s;
    states = λ j. state_of-write_state S pool i j s b.inside;
  }

  pub released :
      (ch : Channel T) (i : ℕ) → Busy S i ch.pool → Effect i empty ch.pool (release S ch i).pool
  unfolding release release_slot
  released ch i b = record {
    consistent = release_slot-IsConsistent S ch.pool i b.consistent b.inside b.used;
    same_length = length-write_state S ch.pool i empty;
    states = λ j. state_of-write_state S ch.pool i j empty b.inside;
  }

  -- A write to slot `i` that keeps its state keeps all states.
  rewritten :
      (pool : Pool T) (i : ℕ) (slot : Slot)
      → i < length pool.slots
      → slot.state ≡ state_of S pool i
      → (j : ℕ) → state_of S (record pool { slots = set pool.slots i slot }) j ≡ state_of S pool j
  rewritten pool i slot h e j = elim (Bool-cases (i == j)) [
    | inl same ↦ rw (← (==_iff i j).0 same) (seen (get_or-set_self pool.slots i slot outside h) ∙ e)
    | inr apart ↦ seen (get_or-set_ne pool.slots i j slot outside (λ p. ground (arith, ==_iff i j)))
  ]
    where
      seen : {a b : Slot} → a ≡ b → a.state ≡ b.state
      seen p = ap (λ (x : Slot). x.state) p

  pub rewritten-Effect :
      (pool mid : Pool T) (i : ℕ) (s : SlotState) (slot : Slot)
      → i < length pool.slots
      → Effect i s pool mid
      → slot.state ≡ state_of S mid i
      → Effect i s pool (record mid { slots = set mid.slots i slot })
  rewritten-Effect pool mid i s slot h f e =
      let keep = rewritten mid i slot (rw f.same_length h) e in
      record {
        consistent = λ j. f.consistent j ∙ sym (ap vacancy (keep j));
        same_length = length-set mid.slots i slot ∙ f.same_length;
        states = λ j. keep j ∙ f.states j;
      }

  pub interrupted :
      (ch : Channel T) (i : ℕ)
      → Busy S i ch.pool
      → Effect i (interrupted_state (state_of S ch.pool i)) ch.pool (catch_interrupt S ch i).pool
  unfolding catch_interrupt interrupted_state
  interrupted ch i b = by_state (state_of S ch.pool i) refl
    where
      marked : Effect i canceled ch.pool (write_state S ch.pool i canceled)
      marked = written ch.pool i canceled b canceled-ne-empty

      by_state :
          (s : SlotState)
          → state_of S ch.pool i ≡ s
          → Effect i
              (interrupted_state (state_of S ch.pool i))
              ch.pool
              (catch_interrupt S ch i).pool
      by_state empty e = absurd (b.used e)
      by_state canceled e = rw e (
          rewritten-Effect ch.pool ch.pool i canceled _ b.inside (unchanged ch.pool i canceled b e)
            refl)
      by_state pending e = rw e (rewritten-Effect ch.pool _ i canceled _ b.inside marked refl)
      by_state processing e = rw e (rewritten-Effect ch.pool _ i canceled _ b.inside marked refl)
      by_state done e = rw e (rewritten-Effect ch.pool _ i empty _ b.inside (released ch i b) refl)

  pub begun :
      (ch : Channel T) (i : ℕ)
      → Busy S i ch.pool
      → Effect i (begun_state (state_of S ch.pool i)) ch.pool (begin_processing S ch i).1.pool
  unfolding begin_processing begun_state
  begun ch i b = by_state (state_of S ch.pool i) refl
    where
      by_state :
          (s : SlotState)
          → state_of S ch.pool i ≡ s
          → Effect i (begun_state (state_of S ch.pool i)) ch.pool (begin_processing S ch i).1.pool
      by_state empty e = absurd (b.used e)
      by_state canceled e = rw e (released ch i b)
      by_state pending e = rw e (written ch.pool i processing b processing-ne-empty)
      by_state processing e = rw e (unchanged ch.pool i processing b e)
      by_state done e = rw e (unchanged ch.pool i done b e)

  -- A release may follow another write to the slot.
  then_released :
      (pool : Pool T) (ch : Channel T) (i : ℕ) (s : SlotState)
      → Effect i s pool ch.pool
      → i < length pool.slots
      → s ≢ empty
      → Effect i empty pool (release S ch i).pool
  then_released pool ch i s f h new =
      let at : state_of S ch.pool i ≡ s = f.states i ∙ rw (==_refl i) refl in
      let g = released ch i (record {
        consistent = f.consistent;
        inside = rw f.same_length h;
        used = λ p. new (sym at ∙ p);
      }) in
      record {
        consistent = g.consistent;
        same_length = g.same_length ∙ f.same_length;
        states = λ j. g.states j ∙ elim (Bool-cases (i == j)) [
          | inl same ↦ rw same refl
          | inr apart ↦ rw apart (f.states j ∙ rw apart refl)
        ];
      }

  -- Writing the state does not change whom to wake.
  wake-write_state :
      (is_running : ℕ → Bool) (ch : Channel T) (i : ℕ) (s : SlotState)
      → i < length ch.pool.slots
      → wake_backend S is_running (record ch { pool = write_state S ch.pool i s }) i
        ≡ wake_backend S is_running ch i
  unfolding wake_backend write_state
  wake-write_state is_running ch i s h = rw (get_or-set_self ch.pool.slots i _ outside h) refl

  pub responded :
      (is_running : ℕ → Bool) (ch : Channel T) (i : ℕ)
      → Busy S i ch.pool
      → Effect i
          (responded_state (wake_backend S is_running ch i) (state_of S ch.pool i))
          ch.pool
          (handle_response S is_running ch i).pool
  unfolding handle_response responded_state
  responded is_running ch i b = by_state (state_of S ch.pool i) refl
    where
      ch' : Channel T
      ch' = record ch { pool = write_state S ch.pool i done }

      completed :
          Effect i
            (if wake_backend S is_running ch i then done else empty)
            ch.pool
            (if wake_backend S is_running ch' i then ch' else release S ch' i).pool
      completed =
          let f = written ch.pool i done b done-ne-empty in
          elim (Bool-cases (wake_backend S is_running ch i)) [
            | inl woken ↦ rw (wake-write_state is_running ch i done b.inside, woken) f
            | inr gone ↦
                rw (wake-write_state is_running ch i done b.inside, gone)
                  (then_released ch.pool ch' i done f b.inside done-ne-empty)
          ]

      by_state :
          (s : SlotState)
          → state_of S ch.pool i ≡ s
          → Effect i
              (responded_state (wake_backend S is_running ch i) (state_of S ch.pool i))
              ch.pool
              (handle_response S is_running ch i).pool
      by_state empty e = absurd (b.used e)
      by_state canceled e = rw e (released ch i b)
      by_state pending e = rw e completed
      by_state processing e = rw e completed
      by_state done e = rw e completed
