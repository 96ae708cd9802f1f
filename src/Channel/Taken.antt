-- ===== src/Channel/Taken.antt =====
-- What `fga_channel_acquire_slot` of src/channel.c hands out.
use postfga.Prelude.{ℕ, ◌<◌, ◌≡◌, refl, Option, none, some, length}
use postfga.FreeList.{SlotList}
use postfga.Channel.{empty, pending, Pool, Channel, state_of, acquire_slot, acquire}
use postfga.Channel.Vacancy.{IsConsistent}
use postfga.Channel.Acquire.{Acquired, acquire_slot-Acquired}
use postfga.Channel.Effect.{Effect, rewritten-Effect}

module _ {T : Type 0} (S : SlotList T) where
  -- `fga_channel_acquire_slot`: the slot that it hands out was EMPTY and is PENDING.
  abbrev pub Taken : Channel T → Option ℕ × Channel T → Type 0
  Taken ch (none, ch') = (ch'.pool ≡ ch.pool) × (ch'.queue ≡ ch.queue)
  Taken ch (some i, ch') =
      (i < length ch.pool.slots)
      × (state_of S ch.pool i ≡ empty)
      × Effect S i pending ch.pool ch'.pool
      × (ch'.queue ≡ ch.queue)

  pub acquire-Taken :
      (ch : Channel T) (my_pid : ℕ) → IsConsistent S ch.pool → Taken ch (acquire S ch my_pid)
  unfolding acquire
  acquire-Taken ch my_pid c =
      by_slot (acquire_slot S ch.pool) (acquire_slot-Acquired S ch.pool c) refl
    where
      by_slot :
          (r : Option ℕ × Pool T)
          → Acquired S ch.pool r
          → acquire_slot S ch.pool ≡ r
          → Taken ch (acquire S ch my_pid)
      by_slot (none, pool) (same, _) e = rw e (same, refl)
      by_slot (some i, pool) (inside, free, states, long, consistent) e =
          let f : Effect S i pending ch.pool pool = record {
            consistent = consistent;
            same_length = long;
            states = states;
          } in
          rw e (inside, free, rewritten-Effect S ch.pool pool i pending _ inside f refl, refl)
