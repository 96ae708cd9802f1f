-- ===== src/Protocol/Tests.antt =====
-- The life of one slot: process 7 takes it.
use postfga.Prelude.{ℕ, ◌≡◌, refl, Bool, true, some, List, [], ◌∷◌}
use postfga.FreeList.{list_slots}
use postfga.Channel.{
  Slot, outside, acquire, pool_init, init_slots, acquire_slot, write_state, init_slot,
}
use postfga.Protocol.{System}
use postfga.Protocol.Exclusive.{start}

abbrev running : ℕ → Bool
running pid = true

abbrev memory : List Slot
memory = outside ∷ []

abbrev fresh : System (List ℕ)
fresh = start list_slots memory (0 ∷ 0 ∷ []) 1

takes : (acquire list_slots fresh.ch 7).0 ≡ some 0
unfolding acquire pool_init init_slots acquire_slot write_state init_slot
takes = refl
