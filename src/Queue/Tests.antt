-- ===== src/Queue/Tests.antt =====
-- Runs of the ring, and the theorems at rings whose cursors wrap.
use postfga.Prelude.{◌≡◌, refl, true, false, none, some, List, [], ◌∷◌, arith}
use postfga.Queue.{Queue, init, size, is_empty, is_full, available, enqueue, dequeue, drain, peek}
use postfga.Queue.Invariant.{IsValid}
use postfga.Queue.Fifo.{peek_refines}
use postfga.Queue.Trace.{
  Call, put, get, batch, look, accepted, taken, drained, seen, run, run_list, run_refines,
}

-- Capacity 4, one entry, both cursors about to wrap.
abbrev late : Queue
late = record { mask = 3; head = 65535; tail = 65534; values = 10 ∷ 11 ∷ 12 ∷ 13 ∷ [] }

abbrev script : List Call
script = put 1 ∷ put 2 ∷ put 3 ∷ look 1 ∷ get ∷ batch 5 ∷ get ∷ []

late-IsValid : IsValid 2 late
late-IsValid = record {
  capacity = refl;
  narrow = omega arith;
  head_in = omega arith;
  tail_in = omega arith;
  bounded = omega arith;
  storage = refl;
}

run-late :
    run late script
    ≡ accepted true
      ∷ accepted true
      ∷ accepted false
      ∷ seen (some 1)
      ∷ taken (some 12)
      ∷ drained (1 ∷ 2 ∷ [])
      ∷ taken none
      ∷ []
unfolding run enqueue dequeue drain peek is_full is_empty size
run-late = refl

available-late : available late ≡ 2
unfolding available size
available-late = refl

init_lone : (init (7 ∷ []) 1).mask ≡ 0
unfolding init
init_lone = refl

init_widest : (init [] 65536).mask ≡ 65535
unfolding init
init_widest = refl

run_refines_example : run late script ≡ run_list 3 (12 ∷ []) script
run_refines_example = run_refines 2 late script late-IsValid

peek_refines_example : peek late 0 ≡ some 12
peek_refines_example = peek_refines 2 late late-IsValid 0
