-- ===== src/Shmem/Capacity.antt =====
-- The ring that the channel gets is one that the queue can run on.
use postfga.Prelude.{ℕ, ◌^◌, ◌≤◌, ◌≡◌, ◌⊎◌, ◌∙◌, List, length, arith}
use postfga.Queue
use postfga.Queue.Invariant
use postfga.Queue.Invariant.{init-IsValid}
use postfga.Shmem.{Demand, compute_slot_size, pow2_ceil}
use postfga.Shmem.Smear.{pow2_ceil_lem}

compute_slot_size-bounds :
    (d : Demand)
    → (compute_slot_size d ≡ d.max_slots)
      ⊎ ((1024 ≤ compute_slot_size d) × (compute_slot_size d ≤ 16384))
unfolding compute_slot_size
compute_slot_size-bounds d = ground arith

-- With no more than 32768 slots asked for, none meaning twice max_connections within 1024 and 16384: the
-- capacity that `fga_channel_shmem_init` gives the ring is a power of two of at most 32768, so that 16 bits hold
-- it and it passes the assertions of `queue_init`, which makes a valid empty ring of it; it is the least power of
-- two that is not less than the number of slots.
pub ring_holds_slots :
    (d : Demand) (values : List ℕ)
    → d.max_slots ≤ 32768
    → length values ≡ pow2_ceil (compute_slot_size d)
    → (k : ℕ) × Queue.Invariant.IsValid k (Queue.init values (pow2_ceil (compute_slot_size d)))
      × (pow2_ceil (compute_slot_size d) ≡ 2 ^ k)
      × (k ≤ 15)
      × (compute_slot_size d ≤ 2 ^ k)
      × ((j : ℕ) → compute_slot_size d ≤ 2 ^ j → k ≤ j)
ring_holds_slots d values few storage =
    let (k, e, enough, least) = pow2_ceil_lem (compute_slot_size d) (omega (arith, within)) in
    let narrow : k ≤ 15 = least 15 within in
    (
      k,
      rw e (init-IsValid k values (omega (arith, narrow)) (storage ∙ e)).0,
      e,
      narrow,
      enough,
      least,
    )
  where
    within : compute_slot_size d ≤ 32768
    within = ground (arith, compute_slot_size-bounds d)
