-- ===== src/Channel/Busy.antt =====
-- A slot in use: what its owner, a backend or the worker, may do to it in the pool of src/channel_slot.h.
use postfga.Prelude.{
  zero, suc, List, [], ◌∷◌, ◌⊎◌, inl, inr, set, get_or, ℕ, ◌<◌, ◌≡◌, ◌≢◌, refl, ap, ◌∙◌, sym,
  length, ==_refl, arith,
}
use postfga.FreeList.{SlotList}
use postfga.Channel.{
  Slot, outside, SlotState, empty, canceled, processing, done, Pool, Channel, state_of, write_state,
  release_slot, release,
}
use postfga.Channel.Vacancy.{
  vacancy, IsConsistent, state_of-write_state, length-write_state, write_state-IsConsistent,
  release_slot-IsConsistent,
}

pub canceled-ne-empty : canceled ≢ empty
unfolding vacancy
canceled-ne-empty p = omega (arith, ap vacancy p)

pub processing-ne-empty : processing ≢ empty
unfolding vacancy
processing-ne-empty p = omega (arith, ap vacancy p)

pub done-ne-empty : done ≢ empty
unfolding vacancy
done-ne-empty p = omega (arith, ap vacancy p)

rewritten-empty :
    (slots : List Slot) (i : ℕ)
    → ((get_or slots i outside).state ≡ empty) ⊎ ((get_or slots i outside).state ≡ canceled)
    → (get_or (set slots i (record (get_or slots i outside) { state = empty })) i outside).state
      ≡ empty
rewritten-empty [] i (inl e) = absurd (cc)
rewritten-empty [] i (inr e) = absurd (cc)
rewritten-empty (s ∷ slots) zero h = refl
rewritten-empty (s ∷ slots) (suc i) h = rewritten-empty slots i h

module _ {T : Type 0} (S : SlotList T) where
  -- The pool is consistent, and slot `i` is one of its slots and in use.
  pub record Busy (i : ℕ) (pool : Pool T) : Type 0 where
    pub consistent : IsConsistent S pool
    pub inside : i < length pool.slots
    pub used : state_of S pool i ≢ empty

  -- Any state but EMPTY may be written to a slot in use,
  pub write_state-Busy :
      (pool : Pool T) (i : ℕ) (s : SlotState)
      → Busy i pool
      → s ≢ empty
      → Busy i (write_state S pool i s) × (state_of S (write_state S pool i s) i ≡ s)
  write_state-Busy pool i s b new =
      let at : state_of S (write_state S pool i s) i ≡ s =
        state_of-write_state S pool i i s b.inside ∙ rw (==_refl i) refl in
      (
        record {
          consistent = write_state-IsConsistent S pool i s b.consistent b.inside b.used new;
          inside = rw (length-write_state S pool i s) b.inside;
          used = λ p. new (sym at ∙ p);
        },
        at,
      )

  -- and the slot may be put back.
  pub release-Busy :
      (ch : Channel T) (i : ℕ)
      → Busy i ch.pool
      → IsConsistent S (release S ch i).pool × (state_of S (release S ch i).pool i ≡ empty)
  unfolding release release_slot
  release-Busy ch i b = (
    release_slot-IsConsistent S ch.pool i b.consistent b.inside b.used,
    state_of-write_state S ch.pool i i empty b.inside ∙ rw (==_refl i) refl,
  )

  -- A release leaves the slot EMPTY, also one that is EMPTY or CANCELED before.
  pub release-empty :
      (ch : Channel T) (i : ℕ)
      → (state_of S ch.pool i ≡ empty) ⊎ (state_of S ch.pool i ≡ canceled)
      → state_of S (release S ch i).pool i ≡ empty
  unfolding release release_slot write_state
  release-empty ch i h = rewritten-empty ch.pool.slots i h
