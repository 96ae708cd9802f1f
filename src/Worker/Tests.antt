-- ===== src/Worker/Tests.antt =====
-- A run of the worker after process 7 has queued a check in the only slot.
use mathlib.Core.List.{Memᴰ, Permᴰ}
use postfga.Prelude.{
  ℕ, ◌^◌, ◌<◌, ◌≡◌, refl, Bool, true, false, none, some, List, [], ◌∷◌, map, arith, u16,
}
use postfga.FreeList.{list_slots}
use postfga.Payload.{response_ok, checked, Request, request_check, check_tuple, zero_payload}
use postfga.Queue
use postfga.Channel.{
  Channel, executed, Slot, outside, acquire, pool_init, init_slots, acquire_slot, write_state,
  init_slot, drain_slots,
}
use postfga.Client.{Call}
use postfga.Client.Answers.{Answer, status_ok}
use postfga.Args.{Settings, TupleArgs, fill_request, is_missing, fill_tuple, write_text}
use postfga.Sql.{put_request, answer_check, replied, fill}
use postfga.Sql.Requests.{key_of}
use postfga.Sql.Decided.{check_decides}
use postfga.Protocol.{filling, waiting, System, Reach, here, next, acquires, fills, submits, update}
use postfga.Protocol.Exclusive.{start, enqueue_accepted}
use postfga.Worker.{execute, payloads}
use postfga.Channel.{begin_processing}
use postfga.Client.{
  process_batch, sort_items, make_request_variant, handle_request, handle_check_batch,
}
use postfga.Client.{Memory, BatchCheckRequest, batch_call, batch_request}
use postfga.Client.Answers.{complete}
use postfga.Client.Decisions.{key_at}
use postfga.Client.Server.{decide, server, server-IsAnswered}
use postfga.Protocol.Ids.{acquisitions}
use postfga.Worker.Decisions.{execute_decides}
use postfga.Worker.{item, send, begin_all}

abbrev pub running : ℕ → Bool
running pid = true

abbrev pub memory : List Slot
memory = outside ∷ []

abbrev pub values : List ℕ
values = 0 ∷ 0 ∷ []

abbrev pub request : Request
request = record zero_payload.request {
  request_id = 1;
  type = request_check;
  store_id = 115 ∷ [];
  body = check_tuple (record {
    object_type = 100 ∷ [];
    object_id = 49 ∷ [];
    subject_type = 117 ∷ [];
    subject_id = 97 ∷ [];
    relation = 114 ∷ [];
  });
}

abbrev pub fresh : System (List ℕ)
fresh = start list_slots memory values 1

abbrev pub taken : System (List ℕ)
taken = record fresh {
  ch = (acquire list_slots fresh.ch 7).1;
  phase = update fresh.phase 0 filling;
}

abbrev pub filled : System (List ℕ)
filled = record taken {
  ch = put_request list_slots taken.ch 0 request;
  phase = update taken.phase 0 filling;
}

abbrev pub submitted : System (List ℕ)
submitted = record filled {
  ch = record filled.ch { queue = (Queue.enqueue filled.ch.queue (u16 0)).1 };
  phase = update filled.phase 0 waiting;
}

fill_reached : Reach list_slots running fresh filled
unfolding acquire pool_init init_slots acquire_slot write_state init_slot
fill_reached = next (next here (acquires 7 0 refl)) (fills 0 request (omega arith) refl refl)

accepted : (Queue.enqueue filled.ch.queue (u16 0)).0 ≡ true
unfolding acquire pool_init init_slots acquire_slot write_state init_slot put_request
accepted =
    enqueue_accepted list_slots running memory values 1 (omega arith) refl (omega arith) 0
      fill_reached (omega arith) (omega arith) refl

pub submit_reached : Reach list_slots running fresh submitted
unfolding acquire pool_init init_slots acquire_slot write_state init_slot put_request
submit_reached = next fill_reached (submits 0 (omega arith) refl accepted)

abbrev answer : Answer
answer = record { status = status_ok; allowed = true; result = λ id. none; id = []; name = [] }

abbrev replies : List (Call × Answer)
replies = map (λ (c : Call). (c, answer)) (execute list_slots submitted.ch).0

paired :
    (calls : List Call)
    → Permᴰ (map (λ (c : Call × Answer). c.0) (map (λ (c : Call). (c, answer)) calls)) calls
paired [] = Permᴰ.nil
paired (call ∷ calls) = Permᴰ.cons refl (paired calls)

-- Process 8 queues a second check, in a pool of two slots.
abbrev two_slots : List Slot
two_slots = outside ∷ outside ∷ []

abbrev four_cells : List ℕ
four_cells = 0 ∷ 0 ∷ 0 ∷ 0 ∷ []

abbrev idle : System (List ℕ)
idle = start list_slots two_slots four_cells 2

abbrev after_acquire : System (List ℕ) → ℕ → ℕ → System (List ℕ)
after_acquire s my_pid i = record s {
  ch = (acquire list_slots s.ch my_pid).1;
  phase = update s.phase i filling;
}

abbrev after_fill : System (List ℕ) → ℕ → Request → System (List ℕ)
after_fill s i r = record s {
  ch = put_request list_slots s.ch i r;
  phase = update s.phase i filling;
}

abbrev after_submit : System (List ℕ) → ℕ → System (List ℕ)
after_submit s i = record s {
  ch = record s.ch { queue = (Queue.enqueue s.ch.queue (u16 i)).1 };
  phase = update s.phase i waiting;
}

abbrev first_queued : System (List ℕ)
first_queued = after_submit (after_fill (after_acquire idle 7 1) 1 request) 1

abbrev both_queued : System (List ℕ)
both_queued =
    after_submit (after_fill (after_acquire first_queued 8 0) 0 (record request { request_id = 2 }))
      0

both_reached : Reach list_slots running idle both_queued
unfolding acquire pool_init init_slots acquire_slot write_state init_slot put_request Queue.init
    Queue.size Queue.is_full Queue.enqueue
both_reached =
    next
      (next
        (next
          (next (next (next here (acquires 7 1 refl)) (fills 1 request (omega arith) refl refl))
            (submits 1 (omega arith) refl refl))
          (acquires 8 0 refl))
        (fills 0 (record request { request_id = 2 }) (omega arith) refl refl))
      (submits 0 (omega arith) refl refl)

few_acquired : acquisitions list_slots running both_reached < 2 ^ 64
unfolding acquisitions both_reached
few_acquired = omega arith

abbrev queued_memory : Memory
queued_memory = payloads list_slots both_queued.ch

abbrev batch : BatchCheckRequest
batch = batch_request queued_memory (item 1) (item 0 ∷ [])

batch_started : Memᴰ (batch_call (item 1 ∷ item 0 ∷ []) batch) (execute list_slots both_queued.ch).0
unfolding acquire pool_init init_slots acquire_slot write_state init_slot put_request Queue.init
    Queue.size Queue.is_full Queue.is_empty Queue.enqueue Queue.drain execute drain_slots send
    begin_all begin_processing process_batch sort_items make_request_variant handle_request
    handle_check_batch
batch_started = Memᴰ.head refl

abbrev granted : Answer
granted = record answer { result = server batch }

execute_decides_example :
    ((complete (batch_call (item 1 ∷ item 0 ∷ []) batch) granted queued_memory).0 0).response
    ≡ record (queued_memory 0).response {
      status = response_ok;
      body = checked (decide batch.store_id batch.authorization_model_id (key_at queued_memory 0));
    }
execute_decides_example =
    execute_decides list_slots decide server running two_slots four_cells 2 both_queued
      (item 1 ∷ item 0 ∷ []) batch (item 0) granted queued_memory server-IsAnswered (omega arith)
      refl (omega arith) both_reached few_acquired batch_started (Memᴰ.tail (Memᴰ.head refl)) refl
      refl refl

abbrev configured : Settings
configured = record { store_id = some (115 ∷ []); model_id = none }

abbrev args : TupleArgs
args = record {
  object_type = 100 ∷ [];
  object_id = 49 ∷ [];
  subject_type = 117 ∷ [];
  subject_id = 97 ∷ [];
  relation = 114 ∷ [];
}

abbrev told : Channel (List ℕ)
told = record both_queued.ch {
  pool = record both_queued.ch.pool {
    slots =
        record outside {
          payload = (complete (batch_call (item 1 ∷ item 0 ∷ []) batch) granted queued_memory).0 0;
        }
        ∷ [];
  };
}

check_decides_example :
    (answer_check list_slots false 0 (executed, told)).0
    ≡ replied (decide batch.store_id batch.authorization_model_id (key_of args))
unfolding acquire pool_init init_slots acquire_slot write_state init_slot put_request fill
    fill_request is_missing fill_tuple write_text
check_decides_example =
    check_decides list_slots decide server running two_slots four_cells 2 both_queued configured
      args (record zero_payload.request { request_id = 2 }) (record request { request_id = 2 }) 0
      (item 1 ∷ item 0 ∷ []) batch granted queued_memory told false server-IsAnswered (omega arith)
      refl (omega arith) both_reached few_acquired refl refl batch_started
      (Memᴰ.tail (Memᴰ.head refl)) refl refl refl refl
