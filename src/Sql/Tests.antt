-- ===== src/Sql/Tests.antt =====
-- The theorems on the functions of src/func_fga.c, at a pool of two slots, the second of them free, and an
-- interrupt at the first sleep.
use postfga.Prelude.{
  ℕ, zero, suc, ◌≡◌, refl, Bool, true, false, none, some, List, [], ◌∷◌, arith, u16,
}
use postfga.FreeList.{list_slots}
use postfga.Payload.{request_check, check_tuple, Request, Response, zero_payload}
use postfga.Queue
use postfga.Queue.Invariant
use postfga.Queue.Invariant.{init-IsValid}
use postfga.Queue.Fifo.{length-contents}
use postfga.Protocol.Exclusive.{accepted}
use postfga.Channel.{
  executed, Slot, pending, empty_slot, Pool, Channel, Wake, acquire, acquire_slot, write_state,
}
use postfga.Channel.Vacancy.{vacancy, IsConsistent}
use postfga.Channel.Execute.{AllCareful, no_wakes, more_wakes}
use postfga.Args.{is_missing, TupleArgs, Settings, Result, ok}
use postfga.Sql.{guarded, ask, answer_check, replied}
use postfga.Sql.Replies.{or_garbage, check_reply}
use postfga.Client.{
  Memory, Item, BatchCheckRequest, batch_request, batch_call, request_id, to_string,
}
use postfga.Client.Answers.{Answer, status_failed, complete}
use postfga.Client.Batch.{decision, on_ok}
use postfga.Sql.Checks.{Asked, check_slot, Lost, check_loses_slot}
use postfga.Sql.Writes.{Guarded, guarded_slot, FreedWhileQueued, interrupt_frees_queued}

abbrev held : Slot
held = record { state = pending; backend_pid = some 7; payload = zero_payload }

abbrev pool : Pool (List ℕ)
pool = record { head = 1 ∷ []; slots = held ∷ empty_slot ∷ [] }

abbrev channel : Channel (List ℕ)
channel = record { request_id = 1; pool = pool; queue = Queue.init (0 ∷ 0 ∷ []) 2 }

pool-IsConsistent : IsConsistent list_slots pool
unfolding vacancy
pool-IsConsistent zero = refl
pool-IsConsistent (suc zero) = refl
pool-IsConsistent (suc (suc i)) = ground arith

abbrev wake : Wake (List ℕ)
wake = record { change = λ ch. ch; interrupt = true }

abbrev wakes : List (Wake (List ℕ))
wakes = wake ∷ []

wakes-AllCareful : (i : ℕ) → AllCareful list_slots i wakes
wakes-AllCareful i = more_wakes _ [] (λ ch b. b) no_wakes

abbrev args : TupleArgs
args = record {
  object_type = 100 ∷ [];
  object_id = 49 ∷ [];
  subject_type = 117 ∷ [];
  subject_id = 97 ∷ [];
  relation = 114 ∷ [];
}

abbrev unset : Settings
unset = record { store_id = none; model_id = none }

abbrev keep : Request → Result Request
keep request = ok request

abbrev read : Response → Result Bool
read response = ok true

takes : (acquire list_slots channel 8).0 ≡ some 1
unfolding acquire acquire_slot write_state
takes = refl

check_slot_example :
    Asked list_slots channel
      (acquire list_slots channel 8).0
      (ask list_slots unset true args wakes (acquire list_slots channel 8))
check_slot_example =
    check_slot list_slots unset true args wakes channel 8 pool-IsConsistent wakes-AllCareful

check_loses_slot_example :
    Lost list_slots channel 1 (ask list_slots unset true args wakes (acquire list_slots channel 8))
unfolding is_missing
check_loses_slot_example =
    check_loses_slot list_slots unset true args wakes channel 8 1 pool-IsConsistent takes refl

guarded_slot_example :
    Guarded list_slots channel
      (acquire list_slots channel 8).0
      (guarded list_slots keep read wakes (acquire list_slots channel 8))
guarded_slot_example =
    guarded_slot list_slots keep read wakes channel 8 pool-IsConsistent wakes-AllCareful

interrupt_frees_queued_example :
    FreedWhileQueued list_slots 1 channel
      (guarded list_slots keep read wakes (acquire list_slots channel 8))
interrupt_frees_queued_example =
    interrupt_frees_queued list_slots 1 keep read wake [] channel 8 1 pool-IsConsistent ring.0
      (omega arith) takes (λ r. (r, refl)) fits refl refl
  where
    ring : Queue.Invariant.IsValid 1 channel.queue × (Queue.Invariant.used channel.queue ≡ 0)
    ring = init-IsValid 1 (0 ∷ 0 ∷ []) (omega arith) refl

    fits : (Queue.enqueue channel.queue (u16 1)).0 ≡ true
    fits =
        accepted 1 channel.queue ring.0 (u16 1)
          (rw (length-contents 1 channel.queue ring.0, ring.1) (omega (arith, ring.0.capacity)))

abbrev configured : Settings
configured = record { store_id = some (115 ∷ []); model_id = none }

abbrev asked_request : Request
asked_request = record zero_payload.request {
  type = request_check;
  store_id = 115 ∷ [];
  body = check_tuple (record {
    object_type = 100 ∷ [];
    object_id = 49 ∷ [];
    subject_type = 117 ∷ [];
    subject_id = 97 ∷ [];
    relation = 114 ∷ [];
  });
}

abbrev asked : Memory
asked p = record zero_payload { request = asked_request }

abbrev first_item : Item
first_item = record { payload = 0; callback = 0 }

-- OpenFGA cannot be reached.
abbrev unreachable : Answer
unreachable = record {
  status = status_failed (101 ∷ []);
  allowed = false;
  result = λ id. none;
  id = [];
  name = [];
}

abbrev only_check : BatchCheckRequest
only_check = batch_request asked first_item []

abbrev answered_slot : Slot
answered_slot = record held {
  payload = (complete (batch_call (first_item ∷ []) only_check) unreachable asked).0 0;
}

abbrev answered_channel : Channel (List ℕ)
answered_channel = record channel { pool = record pool { slots = answered_slot ∷ [] } }

check_reply_example :
    (answer_check list_slots true 0 (executed, answered_channel)).0
    ≡ replied (
        or_garbage
          (on_ok unreachable.status
            (decision (unreachable.result (to_string (request_id asked 0)))))
          true)
check_reply_example =
    check_reply list_slots true 0 answered_channel (first_item ∷ []) only_check unreachable asked 0
      refl refl
