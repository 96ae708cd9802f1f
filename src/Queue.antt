-- ===== src/Queue.antt =====
-- The ring of slot indices, `FgaChannelSlotQueue` of src/channel.h with the functions `queue_*` of
-- src/channel_slot.h. Both cursors are `uint16_t` and wrap; `values` has `mask + 1` cells.
pub mod Invariant
pub mod Fifo
pub mod Trace
mod Tests
use postfga.Prelude.{
  ℕ, zero, suc, ◌+◌, ◌-◌, Bool, true, false, Option, none, some, List, [], ◌∷◌, get_or, set,
  bit_and, ltb, leb, ◌==◌, if◌then◌else◌, u16, u32,
}

pub record Queue : Type 0 where
  pub mask : ℕ
  pub head : ℕ
  pub tail : ℕ
  pub values : List ℕ

-- `queue_init`: the cells keep what the shared memory held.
unfoldable pub init : List ℕ → ℕ → Queue
init values capacity = record {
  mask = u16 (u32 (u16 capacity + 4294967295));
  head = 0;
  tail = 0;
  values = values;
}

-- `head` and `tail` are promoted to `int`, so the difference is taken in 32 bits and then masked.
unfoldable pub size : Queue → ℕ
size q = u16 (bit_and (u32 (q.head + 4294967296 - q.tail)) q.mask)

unfoldable pub is_empty : Queue → Bool
is_empty q = q.head == q.tail

unfoldable pub is_full : Queue → Bool
is_full q = size q == q.mask

pub available : Queue → ℕ
available q = u16 (u32 (u16 (q.mask + 1) + 4294967295) + 4294967296 - size q)

-- A push on a full queue changes nothing.
unfoldable pub enqueue : Queue → ℕ → Bool × Queue
enqueue q slot_index = if is_full q then (false, q) else (
  true,
  record q { values = set q.values (bit_and q.head q.mask) slot_index; head = u16 (q.head + 1) },
)

-- The option is what goes through `*out_slot`.
pub dequeue : Queue → Option ℕ × Queue
dequeue q =
    if is_empty q
    then (none, q)
    else (some (get_or q.values (bit_and q.tail q.mask) 0), record q { tail = u16 (q.tail + 1) })

-- `queue_drain`: the loop runs at most `max_count` rounds; the list is `out_values[0..n)`.
unfoldable pub drain : Queue → ℕ → List ℕ × Queue
drain q zero = ([], q)
drain q (suc rounds) =
    let (out, q') = drain (record q { tail = u16 (q.tail + 1) }) rounds in
    if is_empty q then ([], q) else (get_or q.values (bit_and q.tail q.mask) 0 ∷ out, q')

pub peek : Queue → ℕ → Option ℕ
peek q index =
    if leb (size q) index then none else some (get_or q.values (bit_and (q.tail + index) q.mask) 0)
