-- ===== src/TaskSlot.antt =====
-- `GrpcAsyncSlotPool` of src/bgw/task_slot.hpp. A pointer to one of its slots is the number of the slot, and `none`
-- a call of `acquire` that waits.
pub mod Exclusive
mod Tests
use postfga.Prelude.{
  ℕ, zero, suc, ◌+◌, Option, none, some, List, [], ◌∷◌, length, set, replicate, u64,
}

-- `GrpcAsyncSlot`
pub record TaskSlot : Type 0 where
  pub slot_index : ℕ
  pub slot_ptr : Option ℕ

abbrev pub new_slot : TaskSlot
new_slot = record { slot_index = 0; slot_ptr = none }

-- `free_list_` has its last element first.
pub record SlotPool : Type 0 where
  pub capacity : ℕ
  pub slots : List TaskSlot
  pub free_list : List ℕ
  pub in_use : ℕ

-- The loop of the constructor: `n` slots have been pushed.
unfoldable pub pushed : ℕ → List ℕ
pushed zero = []
pushed (suc n) = n ∷ pushed n

unfoldable pub make : ℕ → SlotPool
unfolding pushed
make capacity = record {
  capacity = capacity;
  slots = replicate capacity new_slot;
  free_list = pushed capacity;
  in_use = 0;
}

-- Slot `s` is popped off the free list, which leaves `rest`, counted, and reset.
abbrev pub popped : SlotPool → ℕ → List ℕ → SlotPool
popped p s rest = record p {
  free_list = rest;
  in_use = u64 (p.in_use + 1);
  slots = set p.slots s new_slot;
}

abbrev pub try_from : SlotPool → List ℕ → Option ℕ × SlotPool
try_from p [] = (none, p)
try_from p (s ∷ rest) = (some s, popped p s rest)

abbrev pub wait_for : SlotPool → List ℕ → Option (ℕ × SlotPool)
wait_for p [] = none
wait_for p (s ∷ rest) = some (s, popped p s rest)

unfoldable pub try_acquire : SlotPool → Option ℕ × SlotPool
try_acquire p = try_from p p.free_list

-- A call that would wait changes nothing yet.
unfoldable pub acquire : SlotPool → Option (ℕ × SlotPool)
acquire p = wait_for p p.free_list

unfoldable pub release : Option ℕ → SlotPool → SlotPool
release none p = p
release (some slot) p = record p {
  free_list = slot ∷ p.free_list;
  in_use = u64 (p.in_use + 18446744073709551615);
}
