-- ===== src/Channel/Tests.antt =====
-- The theorems on the channel at a pool of two slots, the first of them held by process 7.
use postfga.Prelude.{ℕ, zero, suc, ◌≢◌, refl, ap, true, some, List, [], ◌∷◌, ◌==◌, arith}
use postfga.FreeList.{list_slots}
use postfga.Payload.{zero_payload}
use postfga.Queue
use postfga.Channel.{
  wake_backend, Slot, empty, pending, empty_slot, Pool, Channel, Wake, state_of, execute,
  handle_response,
}
use postfga.Channel.Vacancy.{vacancy, IsConsistent}
use postfga.Channel.Busy.{Busy}
use postfga.Channel.Execute.{ExecuteEnd, AllCareful, no_wakes, more_wakes, execute-ExecuteEnd}
use postfga.Channel.Worker.{ResponseEnd, handle_response-ResponseEnd}

abbrev held : Slot
held = record { state = pending; backend_pid = some 7; payload = zero_payload }

abbrev pool : Pool (List ℕ)
pool = record { head = 1 ∷ []; slots = held ∷ empty_slot ∷ [] }

abbrev channel : Channel (List ℕ)
channel = record { request_id = 1; pool = pool; queue = Queue.init (0 ∷ 0 ∷ []) 2 }

pool-IsConsistent : IsConsistent list_slots pool
unfolding vacancy
pool-IsConsistent zero = refl
pool-IsConsistent (suc zero) = refl
pool-IsConsistent (suc (suc i)) = ground arith

pending-ne-empty : state_of list_slots pool 0 ≢ empty
unfolding vacancy
pending-ne-empty p = omega (arith, ap vacancy p)

pool-Busy : Busy list_slots 0 pool
pool-Busy = record { consistent = pool-IsConsistent; inside = omega arith; used = pending-ne-empty }

abbrev wakes : List (Wake (List ℕ))
wakes = record { change = λ ch. ch; interrupt = true } ∷ []

wakes-AllCareful : AllCareful list_slots 0 wakes
wakes-AllCareful = more_wakes _ [] (λ ch b. b) no_wakes

execute-ExecuteEnd_example : ExecuteEnd list_slots 0 (execute list_slots channel 0 wakes)
execute-ExecuteEnd_example =
    execute-ExecuteEnd list_slots channel 0 wakes pool-Busy wakes-AllCareful

handle_response-ResponseEnd_example :
    ResponseEnd list_slots
      (state_of list_slots channel.pool 0)
      (wake_backend list_slots (λ pid. pid == 7) channel 0)
      0
      (handle_response list_slots (λ pid. pid == 7) channel 0)
handle_response-ResponseEnd_example =
    handle_response-ResponseEnd list_slots (λ pid. pid == 7) channel 0 pool-Busy
