-- ===== src/Protocol.antt =====
-- The life of the slots: backends that run the functions of src/channel.c, and the worker of
-- src/bgw/processor.cpp, interleaved in any order. What `fga_channel_execute_slot` does is several steps here:
-- the queueing, and the end of the wait.
pub mod Slots
pub mod Counts
pub mod Invariant
pub mod Moves
pub mod Safety
pub mod Exclusive
pub mod Ids
mod Tests
use postfga.Prelude.{
  ℕ, ◌<◌, ◌≡◌, Bool, true, false, Option, some, List, [], ◌∷◌, ◌++◌, length, ◌==◌, if◌then◌else◌,
  u16,
}
use postfga.FreeList.{SlotList}
use postfga.Payload.{Request}
use postfga.Queue
use postfga.Channel
use postfga.Channel.{
  Slot, done, slot_at, Channel, state_of, pool_init, acquire, release, drain_slots, catch_interrupt,
  wake_backend, begin_processing, handle_response,
}
use postfga.Sql.{put_request}

-- Whether a backend has the slot: it still writes its request, or it waits for the answer. A backend that
-- has died or has given up has it no more.
pub data Phase : Type 0 where
  nobody : Phase
  filling : Phase
  waiting : Phase

-- `batch` is the slots that `execute` has drained and not begun with, `inflight` those that the client has, and
-- `completed` is `completed_queue_`.
pub record System (T : Type 0) : Type 0 where
  pub ch : Channel T
  pub phase : ℕ → Phase
  pub batch : List ℕ
  pub inflight : List ℕ
  pub completed : List ℕ

abbrev pub update : (ℕ → Phase) → ℕ → Phase → ℕ → Phase
update phase i p j = if i == j then p else phase j

module _ {T : Type 0} (S : SlotList T) where
  -- `fga_channel_shmem_init` over the memory of `count` slots and a ring of `capacity` cells.
  abbrev pub init : List Slot → List ℕ → ℕ → ℕ → System T
  init memory values count capacity = record {
    ch = record {
      request_id = 0;
      pool = pool_init S memory count;
      queue = Queue.init values capacity;
    };
    phase = λ i. nobody;
    batch = [];
    inflight = [];
    completed = [];
  }

  -- `is_running` tells the processes that there are. A backend that waits is one of them.
  pub data Step (is_running : ℕ → Bool) (s : System T) : System T → Type 0 where
    acquires :
        (my_pid i : ℕ)
        → (acquire S s.ch my_pid).0 ≡ some i
        → Step is_running s
            (record s { ch = (acquire S s.ch my_pid).1; phase = update s.phase i filling })
    fills :
        (i : ℕ) (request : Request)
        → i < length s.ch.pool.slots
        → s.phase i ≡ filling
        → request.request_id ≡ (slot_at S s.ch.pool i).payload.request.request_id
        → Step is_running s
            (record s { ch = put_request S s.ch i request; phase = update s.phase i filling })
    submits :
        (i : ℕ)
        → i < length s.ch.pool.slots
        → s.phase i ≡ filling
        → (Queue.enqueue s.ch.queue (u16 i)).0 ≡ true
        → Step is_running s (record s {
          ch = record s.ch { queue = (Queue.enqueue s.ch.queue (u16 i)).1 };
          phase = update s.phase i waiting;
        })
    is_refused :
        (i : ℕ)
        → i < length s.ch.pool.slots
        → s.phase i ≡ filling
        → (Queue.enqueue s.ch.queue (u16 i)).0 ≡ false
        → Step is_running s (record s { ch = release S s.ch i; phase = update s.phase i nobody })
    returns :
        (i : ℕ)
        → i < length s.ch.pool.slots
        → s.phase i ≡ waiting
        → state_of S s.ch.pool i ≡ done
        → Step is_running s (record s { ch = release S s.ch i; phase = update s.phase i nobody })
    gives_up :
        (i : ℕ)
        → i < length s.ch.pool.slots
        → s.phase i ≡ waiting
        → Step is_running s
            (record s { ch = catch_interrupt S s.ch i; phase = update s.phase i nobody })
    dies :
        (i : ℕ)
        → i < length s.ch.pool.slots
        → Step is_running s (record s { phase = update s.phase i nobody })
    drains :
        (max_count : ℕ)
        → Step is_running s (record s {
          ch = (drain_slots S s.ch max_count).1;
          batch = s.batch ++ (drain_slots S s.ch max_count).0;
        })
    begins :
        (i : ℕ) (rest : List ℕ)
        → s.batch ≡ i ∷ rest
        → Step is_running s (record s {
          ch = (begin_processing S s.ch i).1;
          batch = rest;
          inflight = if (begin_processing S s.ch i).0 then i ∷ s.inflight else s.inflight;
        })
    completes :
        (i : ℕ) (before after : List ℕ)
        → s.inflight ≡ before ++ (i ∷ after)
        → Step is_running s
            (record s { inflight = before ++ after; completed = s.completed ++ (i ∷ []) })
    responds :
        (i : ℕ) (rest : List ℕ)
        → s.completed ≡ i ∷ rest
        → (s.phase i ≡ waiting → wake_backend S is_running s.ch i ≡ true)
        → Step is_running s
            (record s { ch = handle_response S is_running s.ch i; completed = rest })

  pub data Reach (is_running : ℕ → Bool) (start : System T) : System T → Type 0 where
    here : Reach is_running start start
    next :
        {s t : System T} → Reach is_running start s → Step is_running s t → Reach is_running start t
