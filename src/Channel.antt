-- ===== src/Channel.antt =====
-- The request channel: src/channel.h, the pool of src/channel_slot.h and src/channel.c. Each function runs
-- under its lock, or on a slot that its caller owns, and is one step; `wait_response` runs against what the
-- other processes do while it sleeps.
use postfga.Prelude.{
  ℕ, zero, suc, ◌+◌, ◌%◌, ◌^◌, Bool, true, false, Option, none, some, List, [], ◌∷◌, get_or, set,
  ltb, if◌then◌else◌, u16,
}
pub mod Vacancy
pub mod Acquire
pub mod Busy
pub mod Execute
pub mod Worker
pub mod Effect
pub mod Ring
pub mod Payloads
pub mod Numbers
pub mod Taken
mod Tests
use postfga.FreeList.{SlotList}
use postfga.Payload.{Payload, zero_payload}
use postfga.Queue
use postfga.Queue.{Queue}

pub data SlotState : Type 0 where
  empty : SlotState
  canceled : SlotState
  pending : SlotState
  processing : SlotState
  done : SlotState

-- `backend_pid` is `none` for InvalidPid.
pub record Slot : Type 0 where
  pub state : SlotState
  pub backend_pid : Option ℕ
  pub payload : Payload

pub record Pool (T : Type 0) : Type 0 where
  pub head : T
  pub slots : List Slot

-- The two locks have no field: each is held for one whole step.
pub record Channel (T : Type 0) : Type 0 where
  pub request_id : ℕ
  pub pool : Pool T
  pub queue : Queue

-- What a read outside the array would give; no theorem below reads it.
abbrev pub outside : Slot
outside = record { state = pending; backend_pid = none; payload = zero_payload }

abbrev pub empty_slot : Slot
empty_slot = record { state = empty; backend_pid = none; payload = zero_payload }

-- The errors that `ereport` raises here, and an interrupt that ends the wait.
pub data Error : Type 0 where
  pool_exhausted : Error
  enqueue_failed : Error
  request_canceled : Error
  interrupted : Error

-- How `wait_response` ends; `asleep` when the history given to it does not wake it to an end.
pub data Waited : Type 0 where
  returned : SlotState → Waited
  raised : Waited
  asleep : Waited

pub data Outcome : Type 0 where
  executed : Outcome
  failed : Error → Outcome
  waiting : Outcome

-- While the backend sleeps: what the others make of the channel, and whether an interrupt is due.
pub record Wake (T : Type 0) : Type 0 where
  pub change : Channel T → Channel T
  pub interrupt : Bool

unfoldable pub answered : SlotState → Bool
answered empty = false
answered canceled = true
answered pending = false
answered processing = false
answered done = true

module _ {T : Type 0} (S : SlotList T) where
  abbrev pub slot_at : Pool T → ℕ → Slot
  slot_at pool i = get_or pool.slots i outside

  abbrev pub state_of : Pool T → ℕ → SlotState
  state_of pool i = (slot_at pool i).state

  -- `pg_atomic_write_u32(&slot->state, s)`
  unfoldable pub write_state : Pool T → ℕ → SlotState → Pool T
  write_state pool i s = record pool {
    slots = set pool.slots i (record (slot_at pool i) { state = s });
  }

  unfoldable pub init_slot : Pool T → ℕ → Pool T
  init_slot pool i = record { head = S.push_head pool.head i; slots = set pool.slots i empty_slot }

  -- The loop of `pool_init` from slot `i` on.
  unfoldable pub init_slots : Pool T → ℕ → ℕ → Pool T
  init_slots pool i zero = pool
  init_slots pool i (suc rounds) = init_slots (init_slot pool i) (suc i) rounds

  unfoldable pub pool_init : List Slot → ℕ → Pool T
  pool_init memory max_slots = init_slots (record { head = S.init; slots = memory }) 0 max_slots

  -- `acquire_slot`: the null pointer is `none`.
  unfoldable pub acquire_slot : Pool T → Option ℕ × Pool T
  unfolding write_state
  acquire_slot pool =
      let (i, head) = S.pop_head_node pool.head in
      if S.is_empty pool.head
      then (none, pool)
      else (some i, write_state (record pool { head = head }) i pending)

  pub release_slot : Pool T → ℕ → Pool T
  unfolding write_state
  release_slot pool i =
      let pool' = write_state pool i empty in record pool' { head = S.push_head pool'.head i }

  -- `fga_channel_acquire_slot`, run by the backend `my_pid`; `none` stands for the error
  -- "channel slot pool exhausted".
  unfoldable pub acquire : Channel T → ℕ → Option ℕ × Channel T
  unfolding acquire_slot
  acquire ch my_pid = acquire_from (acquire_slot ch.pool)
    where
      own : Pool T → ℕ → Slot
      own pool i =
          let request_id = (ch.request_id + 1) % 2 ^ 64 in
          let request = record zero_payload.request { request_id = request_id } in
          record (slot_at pool i) {
            backend_pid = some my_pid;
            payload = record zero_payload { request = request };
          }

      acquire_from : Option ℕ × Pool T → Option ℕ × Channel T
      acquire_from (none, pool) = (none, record ch { pool = pool })
      acquire_from (some i, pool) = (
        some i,
        record ch {
          pool = record pool { slots = set pool.slots i (own pool i) };
          request_id = (ch.request_id + 1) % 2 ^ 64;
        },
      )

  -- `fga_channel_release_slot`
  pub release : Channel T → ℕ → Channel T
  unfolding release_slot
  release ch i = record ch { pool = release_slot ch.pool i }

  -- `fga_channel_drain_slots`: at most FGA_CHANNEL_DRAIN_MAX slots.
  unfoldable pub drain_slots : Channel T → ℕ → List ℕ × Channel T
  drain_slots ch max_count =
      let (buf, queue) = Queue.drain ch.queue (if ltb 64 max_count then 64 else max_count) in
      (buf, record ch { queue = queue })

  -- The catch block of `wait_response`: a request under way is marked for the worker, an answered one is
  -- put back.
  pub catch_interrupt : Channel T → ℕ → Channel T
  unfolding release write_state
  catch_interrupt ch i = disown (settle (state_of ch.pool i))
    where
      settle : SlotState → Channel T
      settle empty = ch
      settle canceled = ch
      settle pending = record ch { pool = write_state ch.pool i canceled }
      settle processing = record ch { pool = write_state ch.pool i canceled }
      settle done = release ch i

      disown : Channel T → Channel T
      disown ch' = record ch' {
        pool = record ch'.pool {
          slots = set ch'.pool.slots i (record (slot_at ch'.pool i) { backend_pid = none });
        };
      }

  pub wait_response : Channel T → ℕ → List (Wake T) → Waited × Channel T
  unfolding answered catch_interrupt
  wait_response ch i [] =
      let s = state_of ch.pool i in ((if answered s then returned s else asleep), ch)
  wait_response ch i (w ∷ wakes) =
      let s = state_of ch.pool i in
      let ch' = w.change ch in
      let rest = wait_response ch' i wakes in
      if answered s
      then (returned s, ch)
      else if w.interrupt
      then (raised, catch_interrupt ch' i)
      else rest

  -- What `fga_channel_execute_slot` does with the end of the wait.
  pub finish : ℕ → Waited × Channel T → Outcome × Channel T
  unfolding release
  finish i (raised, ch) = (failed interrupted, ch)
  finish i (asleep, ch) = (waiting, ch)
  finish i (returned canceled, ch) = (failed request_canceled, release ch i)
  finish i (returned empty, ch) = (executed, ch)
  finish i (returned pending, ch) = (executed, ch)
  finish i (returned processing, ch) = (executed, ch)
  finish i (returned done, ch) = (executed, ch)

  -- `fga_channel_execute_slot`
  pub execute : Channel T → ℕ → List (Wake T) → Outcome × Channel T
  unfolding wait_response release finish
  execute ch i wakes =
      let (accepted, queue) = Queue.enqueue ch.queue (u16 i) in
      if accepted
      then finish i (wait_response (record ch { queue = queue }) i wakes)
      else (failed enqueue_failed, release ch i)

  -- `fga_channel_wake_backend`: whether there is a process to wake, as `BackendPidGetProc` tells.
  pub wake_backend : (ℕ → Bool) → Channel T → ℕ → Bool
  wake_backend is_running ch i = running (slot_at ch.pool i).backend_pid
    where
      running : Option ℕ → Bool
      running none = false
      running (some pid) = is_running pid

  -- The worker, src/bgw/processor.cpp. `beginProcessing`: whether it took the slot on.
  unfoldable pub begin_processing : Channel T → ℕ → Bool × Channel T
  unfolding release write_state
  begin_processing ch i = begin (state_of ch.pool i)
    where
      begin : SlotState → Bool × Channel T
      begin pending = (true, record ch { pool = write_state ch.pool i processing })
      begin canceled = (false, release ch i)
      begin empty = (false, ch)
      begin processing = (false, ch)
      begin done = (false, ch)

  -- `handleResponse`, with `wakeBackend`.
  pub handle_response : (ℕ → Bool) → Channel T → ℕ → Channel T
  unfolding release write_state wake_backend
  handle_response is_running ch i = respond (state_of ch.pool i)
    where
      complete : Channel T → Channel T
      complete ch' = if wake_backend is_running ch' i then ch' else release ch' i

      respond : SlotState → Channel T
      respond canceled = release ch i
      respond empty = complete (record ch { pool = write_state ch.pool i done })
      respond pending = complete (record ch { pool = write_state ch.pool i done })
      respond processing = complete (record ch { pool = write_state ch.pool i done })
      respond done = complete (record ch { pool = write_state ch.pool i done })
