-- ===== src/Channel/Worker.antt =====
-- The worker's part in the life of a slot, src/bgw/processor.cpp.
use postfga.Prelude.{ℕ, ◌≡◌, refl, Bool, true, get_or-set_self, false, if◌then◌else◌}
use postfga.FreeList.{SlotList}
use postfga.Channel.{
  SlotState, outside, empty, canceled, pending, processing, done, Channel, state_of, write_state,
  release, wake_backend, begin_processing, handle_response,
}
use postfga.Channel.Vacancy.{IsConsistent}
use postfga.Channel.Busy.{Busy, write_state-Busy, release-Busy, processing-ne-empty, done-ne-empty}

module _ {T : Type 0} (S : SlotList T) where
  abbrev pub BeginEnd : ℕ → Channel T → SlotState → Bool × Channel T → Type 0
  BeginEnd i ch pending (taken, ch') =
      (taken ≡ true) × Busy S i ch'.pool × (state_of S ch'.pool i ≡ processing)
  BeginEnd i ch canceled (taken, ch') =
      (taken ≡ false) × IsConsistent S ch'.pool × (state_of S ch'.pool i ≡ empty)
  BeginEnd i ch empty (taken, ch') = (taken ≡ false) × (ch' ≡ ch)
  BeginEnd i ch processing (taken, ch') = (taken ≡ false) × (ch' ≡ ch)
  BeginEnd i ch done (taken, ch') = (taken ≡ false) × (ch' ≡ ch)

  -- `beginProcessing` of a slot in use takes a PENDING one on, as PROCESSING and still in use, frees a
  -- CANCELED one and keeps the pool consistent, and leaves any other alone.
  pub begin_processing-BeginEnd :
      (ch : Channel T) (i : ℕ)
      → Busy S i ch.pool
      → BeginEnd i ch (state_of S ch.pool i) (begin_processing S ch i)
  unfolding begin_processing
  begin_processing-BeginEnd ch i b = by_state (state_of S ch.pool i) refl
    where
      by_state :
          (s : SlotState)
          → state_of S ch.pool i ≡ s
          → BeginEnd i ch (state_of S ch.pool i) (begin_processing S ch i)
      by_state empty e = absurd (b.used e)
      by_state canceled e = let (c, at) = release-Busy S ch i b in rw e (refl, c, at)
      by_state pending e =
          let (b', at) = write_state-Busy S ch.pool i processing b processing-ne-empty in
          rw e (refl, b', at)
      by_state processing e = rw e (refl, refl)
      by_state done e = rw e (refl, refl)

  abbrev pub Freed : ℕ → Channel T → Type 0
  Freed i ch = IsConsistent S ch.pool × (state_of S ch.pool i ≡ empty)

  abbrev pub Answered : Bool → ℕ → Channel T → Type 0
  Answered true i ch = Busy S i ch.pool × (state_of S ch.pool i ≡ done)
  Answered false i ch = Freed i ch

  -- The end by the state of the slot at the start and by whether the slot's process was woken.
  abbrev pub ResponseEnd : SlotState → Bool → ℕ → Channel T → Type 0
  ResponseEnd canceled woken i ch = Freed i ch
  ResponseEnd empty woken i ch = Answered woken i ch
  ResponseEnd pending woken i ch = Answered woken i ch
  ResponseEnd processing woken i ch = Answered woken i ch
  ResponseEnd done woken i ch = Answered woken i ch

  wake-Answered :
      (ch : Channel T) (i : ℕ) (woken : Bool)
      → Busy S i ch.pool
      → Answered woken i (
          if woken
          then record ch { pool = write_state S ch.pool i done }
          else release S (record ch { pool = write_state S ch.pool i done }) i)
  wake-Answered ch i true b = write_state-Busy S ch.pool i done b done-ne-empty
  wake-Answered ch i false b =
      release-Busy S (record ch { pool = write_state S ch.pool i done }) i
        (write_state-Busy S ch.pool i done b done-ne-empty).0

  woken_same :
      (is_running : ℕ → Bool) (ch : Channel T) (i : ℕ)
      → Busy S i ch.pool
      → wake_backend S is_running (record ch { pool = write_state S ch.pool i done }) i
        ≡ wake_backend S is_running ch i
  unfolding wake_backend write_state
  woken_same is_running ch i b = rw (get_or-set_self ch.pool.slots i _ outside b.inside) refl

  -- `handleResponse` for a slot in use: a CANCELED one is put back, EMPTY, in a consistent pool. Any other is DONE
  -- and still in use where `wakeBackend` finds its process, and is put back, EMPTY, in a consistent pool where it
  -- does not.
  pub handle_response-ResponseEnd :
      (is_running : ℕ → Bool) (ch : Channel T) (i : ℕ)
      → Busy S i ch.pool
      → ResponseEnd
          (state_of S ch.pool i)
          (wake_backend S is_running ch i)
          i
          (handle_response S is_running ch i)
  unfolding handle_response
  handle_response-ResponseEnd is_running ch i b = by_state (state_of S ch.pool i) refl
    where
      answered : Answered (wake_backend S is_running ch i) i (
          if wake_backend S is_running (record ch { pool = write_state S ch.pool i done }) i
          then record ch { pool = write_state S ch.pool i done }
          else release S (record ch { pool = write_state S ch.pool i done }) i)
      answered =
          rw (woken_same is_running ch i b) (wake-Answered ch i (wake_backend S is_running ch i) b)

      by_state :
          (s : SlotState)
          → state_of S ch.pool i ≡ s
          → ResponseEnd
              (state_of S ch.pool i)
              (wake_backend S is_running ch i)
              i
              (handle_response S is_running ch i)
      by_state empty e = absurd (b.used e)
      by_state canceled e = rw e (release-Busy S ch i b)
      by_state pending e = rw e answered
      by_state processing e = rw e answered
      by_state done e = rw e answered
