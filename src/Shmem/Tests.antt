-- ===== src/Shmem/Tests.antt =====
-- The theorems on the shared memory for 100 connections, and on `pow2_ceil` at 1500.
use postfga.Prelude.{
  ℕ, zero, suc, ◌+◌, ◌*◌, ◌/◌, ◌^◌, ◌≤◌, ◌≡◌, refl, Option, some, List, [], ◌∷◌, length, arith,
}
use postfga.Queue
use postfga.Queue.Invariant
use postfga.Shmem.{
  Postgres, Sizes, Demand, Segment, pow2_ceil, compute_slot_size, struct_size, initialize_state,
  channel_shmem_size, cache_shmem_base_size, stats_shmem_size, pool_shmem_size, queue_shmem_size,
}
use postfga.Shmem.Layout.{Fits, struct_size-Fits}
use postfga.Shmem.Capacity.{ring_holds_slots}

exactly : (n c : ℕ) → ◌≡◌ {A = Option ℕ} (some n) (some c) → c ≡ n
exactly n c e = cc

abbrev exact : Postgres
exact = record {
  add_size = λ a b. some (a + b);
  mul_size = λ a b. some (a * b);
  max_align = λ a. (a + 7) / 8 * 8;
  add_size_lem = λ a b c e. exactly (a + b) c e;
  mul_size_lem = λ a b c e. exactly (a * b) c e;
  le-max_align = λ a. omega arith;
  max_align-add = λ a b. omega arith;
}

abbrev sizes : Sizes
sizes = record {
  state = 48;
  channel = 40;
  pool_slots = 8;
  slot = 792;
  queue_values = 6;
  index = 2;
  cache_entries = 40;
  entry = 64;
  stats_backends = 64;
  backend_stats = 52;
}

abbrev demand : Demand
demand = record {
  max_slots = 0;
  max_connections = some 100;
  cache_capacity = 16384;
  max_backends = 130;
}

sized : struct_size exact sizes demand ≡ some 1868600
unfolding struct_size channel_shmem_size cache_shmem_base_size stats_shmem_size pool_shmem_size
    queue_shmem_size pow2_ceil compute_slot_size
sized = refl

struct_size-Fits_example :
    (seg : Segment) × (initialize_state exact sizes demand ≡ some seg)
    × Fits exact sizes demand seg 1868600
struct_size-Fits_example = struct_size-Fits exact sizes demand 1868600 sized

zeros : ℕ → List ℕ
zeros zero = []
zeros (suc n) = 0 ∷ zeros n

length-zeros : (n : ℕ) → length (zeros n) ≡ n
unfolding zeros
length-zeros zero = refl
length-zeros (suc n) = omega (arith, length-zeros n)

ring_holds_slots_example :
    let values = zeros (pow2_ceil (compute_slot_size demand)) in
    (k : ℕ) × Queue.Invariant.IsValid k (Queue.init values (pow2_ceil (compute_slot_size demand)))
    × (pow2_ceil (compute_slot_size demand) ≡ 2 ^ k)
    × (k ≤ 15)
    × (compute_slot_size demand ≤ 2 ^ k)
    × ((j : ℕ) → compute_slot_size demand ≤ 2 ^ j → k ≤ j)
ring_holds_slots_example =
    ring_holds_slots demand (zeros (pow2_ceil (compute_slot_size demand))) (omega arith)
      (length-zeros (pow2_ceil (compute_slot_size demand)))
