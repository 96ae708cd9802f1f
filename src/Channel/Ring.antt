-- ===== src/Channel/Ring.antt =====
-- The operations of src/channel.c on one slot leave the ring alone.
use postfga.Prelude.{ℕ, ◌≡◌, refl, Bool, if◌then◌else◌, inl, inr, Bool-cases}
use postfga.FreeList.{SlotList}
use postfga.Channel.{
  SlotState, empty, canceled, pending, processing, done, Channel, state_of, release,
  catch_interrupt, wake_backend, begin_processing, handle_response,
}
use postfga.Channel.Effect.{is_pending}

module _ {T : Type 0} (S : SlotList T) where
  -- None of them touches the ring.
  pub queue-release : (ch : Channel T) (i : ℕ) → (release S ch i).queue ≡ ch.queue
  unfolding release
  queue-release ch i = refl

  pub queue-catch_interrupt : (ch : Channel T) (i : ℕ) → (catch_interrupt S ch i).queue ≡ ch.queue
  unfolding catch_interrupt release
  queue-catch_interrupt ch i = by_state (state_of S ch.pool i) refl
    where
      by_state :
          (s : SlotState) → state_of S ch.pool i ≡ s → (catch_interrupt S ch i).queue ≡ ch.queue
      by_state empty e = rw e refl
      by_state canceled e = rw e refl
      by_state pending e = rw e refl
      by_state processing e = rw e refl
      by_state done e = rw e refl

  pub queue-begin_processing :
      (ch : Channel T) (i : ℕ) → (begin_processing S ch i).1.queue ≡ ch.queue
  unfolding begin_processing release
  queue-begin_processing ch i = by_state (state_of S ch.pool i) refl
    where
      by_state :
          (s : SlotState) → state_of S ch.pool i ≡ s → (begin_processing S ch i).1.queue ≡ ch.queue
      by_state empty e = rw e refl
      by_state canceled e = rw e refl
      by_state pending e = rw e refl
      by_state processing e = rw e refl
      by_state done e = rw e refl

  pub queue-handle_response :
      (is_running : ℕ → Bool) (ch : Channel T) (i : ℕ)
      → (handle_response S is_running ch i).queue ≡ ch.queue
  unfolding handle_response release
  queue-handle_response is_running ch i = by_state (state_of S ch.pool i) refl
    where
      woken :
          (ch' : Channel T)
          → (if wake_backend S is_running ch' i then ch' else release S ch' i).queue ≡ ch'.queue
      woken ch' = elim (Bool-cases (wake_backend S is_running ch' i)) [
        | inl e ↦ rw e refl
        | inr e ↦ rw e refl
      ]

      by_state :
          (s : SlotState)
          → state_of S ch.pool i ≡ s
          → (handle_response S is_running ch i).queue ≡ ch.queue
      by_state empty e = rw e (woken _)
      by_state canceled e = rw e refl
      by_state pending e = rw e (woken _)
      by_state processing e = rw e (woken _)
      by_state done e = rw e (woken _)

  -- The worker takes on exactly the PENDING slots.
  pub begin_processing-taken :
      (ch : Channel T) (i : ℕ) → (begin_processing S ch i).0 ≡ is_pending (state_of S ch.pool i)
  unfolding begin_processing is_pending
  begin_processing-taken ch i = by_state (state_of S ch.pool i) refl
    where
      by_state :
          (s : SlotState)
          → state_of S ch.pool i ≡ s
          → (begin_processing S ch i).0 ≡ is_pending (state_of S ch.pool i)
      by_state empty e = rw e refl
      by_state canceled e = rw e refl
      by_state pending e = rw e refl
      by_state processing e = rw e refl
      by_state done e = rw e refl
