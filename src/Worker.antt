-- ===== src/Worker.antt =====
-- `Processor::execute` of src/bgw/processor.cpp: the slots that it drains go to the client. The completed queue
-- is a list of `Protocol.System`.
pub mod Drained
pub mod Execute
pub mod Decisions
pub mod Loop
mod Tests
use postfga.Prelude.{ℕ, Bool, true, false, List, [], ◌∷◌, map, if◌then◌else◌}
use postfga.FreeList.{SlotList}
use postfga.Channel.{Channel, slot_at, drain_slots, begin_processing}
use postfga.Client.{Memory, Item, Call, process, process_batch}

abbrev pub max_batch : ℕ
max_batch = 50

-- The payload of a slot, and the callback that completes it.
abbrev pub item : ℕ → Item
item i = record { payload = i; callback = i }

module _ {T : Type 0} (S : SlotList T) where
  abbrev pub payloads : Channel T → Memory
  payloads ch i = (slot_at S ch.pool i).payload

  -- The loop over the drained slots: those that the worker has begun with.
  unfoldable pub begin_all : Channel T → List ℕ → List ℕ × Channel T
  begin_all ch [] = ([], ch)
  begin_all ch (i ∷ slots) =
      let (begun, ch1) = begin_processing S ch i in
      let (rest, ch2) = begin_all ch1 slots in (if begun then i ∷ rest else rest, ch2)

  -- With the slots that were drained.
  unfoldable pub send : Channel T → List ℕ → List Call × Channel T
  send ch [] = ([], ch)
  send ch (i ∷ []) =
      let (begun, ch1) = begin_processing S ch i in
      (if begun then process (payloads ch1) (item i) else [], ch1)
  send ch (i ∷ j ∷ slots) =
      let (begun, ch1) = begin_all ch (i ∷ j ∷ slots) in
      (process_batch (payloads ch1) (map item begun), ch1)

  unfoldable pub execute : Channel T → List Call × Channel T
  unfolding drain_slots
  execute ch = let (slots, ch1) = drain_slots S ch max_batch in send ch1 slots
