-- ===== src/Shmem.antt =====
-- The shared memory of src/channel_shmem.c and src/state.c.
pub mod Smear
pub mod Layout
pub mod Capacity
mod Tests
use postfga.Prelude.{
  ℕ, zero, suc, ◌+◌, ◌*◌, ◌/◌, ◌≤◌, ◌≡◌, ◌==◌, Option, none, some, ltb, if◌then◌else◌, bit_or, u32,
}

infixl 5 ◌>>=◌
abbrev pub ◌>>=◌ {ℓ κ} : {A : Type ℓ} {B : Type κ} → Option A → (A → Option B) → Option B
none >>= f = none
some a >>= f = f a

abbrev pub smear_by : ℕ → ℕ → ℕ
smear_by c x = bit_or x (x / c)

-- `x >> n` is `x / 2 ^ n`.
abbrev pub smear : ℕ → ℕ
smear x = smear_by 65536 (smear_by 256 (smear_by 16 (smear_by 4 (smear_by 2 x))))

pub pow2_ceil : ℕ → ℕ
pow2_ceil zero = 1
pow2_ceil (suc x) = u32 (smear x + 1)

-- What the code relies on of PostgreSQL: `add_size` and `mul_size` are exact or raise an error, and MAXALIGN
-- rounds up to multiples of one number.
pub record Postgres : Type 0 where
  pub add_size : ℕ → ℕ → Option ℕ
  pub mul_size : ℕ → ℕ → Option ℕ
  pub max_align : ℕ → ℕ
  pub add_size_lem : (a b c : ℕ) → add_size a b ≡ some c → c ≡ a + b
  pub mul_size_lem : (a b c : ℕ) → mul_size a b ≡ some c → c ≡ a * b
  pub le-max_align : (a : ℕ) → a ≤ max_align a
  pub max_align-add : (a b : ℕ) → max_align (max_align a + max_align b) ≡ max_align a + max_align b

-- The sizes of the structures, and the offsets of their last members, which are arrays.
pub record Sizes : Type 0 where
  pub state : ℕ
  pub channel : ℕ
  pub pool_slots : ℕ
  pub slot : ℕ
  pub queue_values : ℕ
  pub index : ℕ
  pub cache_entries : ℕ
  pub entry : ℕ
  pub stats_backends : ℕ
  pub backend_stats : ℕ

-- What the sizes depend on: `max_slots`, the option max_connections as `atoi` reads it, the capacity of the cache
-- and MaxBackends.
pub record Demand : Type 0 where
  pub max_slots : ℕ
  pub max_connections : Option ℕ
  pub cache_capacity : ℕ
  pub max_backends : ℕ

abbrev pub connections : Option ℕ → ℕ
connections none = 100
connections (some n) = n

pub compute_slot_size : Demand → ℕ
compute_slot_size d =
    let slots = connections d.max_connections * 2 in
    if ltb 0 d.max_slots
    then d.max_slots
    else if ltb slots 1024
    then 1024
    else if ltb 16384 slots
    then 16384
    else slots

-- How the initialisation of the channel ends: the pool, the queue and the end, as offsets in the channel.
pub data Placement : Type 0 where
  placed : ℕ → ℕ → ℕ → Placement
  miscalculated : Placement

-- The offsets that `_initialize_state` sets, in the whole segment.
pub record Segment : Type 0 where
  pub channel : ℕ
  pub placement : Placement
  pub cache : ℕ
  pub stats : ℕ

module _ (pg : Postgres) (sz : Sizes) where
  pub pool_shmem_size : ℕ → Option ℕ
  pool_shmem_size capacity = do
    slots ← pg.mul_size sz.slot capacity
    pg.add_size sz.pool_slots slots

  pub queue_shmem_size : ℕ → Option ℕ
  queue_shmem_size capacity = do
    values ← pg.mul_size sz.index capacity
    pg.add_size sz.queue_values values

  pub channel_shmem_size : Demand → Option ℕ
  channel_shmem_size d = do
    let slot_count = compute_slot_size d
    head ← pg.add_size 0 (pg.max_align sz.channel)
    pool ← pool_shmem_size slot_count
    with_pool ← pg.add_size head (pg.max_align pool)
    queue ← queue_shmem_size (pow2_ceil slot_count)
    pg.add_size with_pool (pg.max_align queue)

  pub channel_shmem_init : Demand → Option Placement
  channel_shmem_init d = do
    let slot_count = compute_slot_size d
    pool_size ← pool_shmem_size slot_count
    queue_size ← queue_shmem_size (pow2_ceil slot_count)
    total ← channel_shmem_size d
    let pool = pg.max_align sz.channel
    let queue = pool + pg.max_align pool_size
    let end = queue + pg.max_align queue_size
    some (if end == pg.max_align total then placed pool queue end else miscalculated)

  pub cache_shmem_base_size : Demand → Option ℕ
  cache_shmem_base_size d = do
    entries ← pg.mul_size sz.entry d.cache_capacity
    pg.add_size sz.cache_entries entries

  pub stats_shmem_size : Demand → Option ℕ
  stats_shmem_size d = do
    backends ← pg.mul_size sz.backend_stats d.max_backends
    pg.add_size sz.stats_backends backends

  pub struct_size : Demand → Option ℕ
  struct_size d = do
    channel ← channel_shmem_size d
    with_channel ← pg.add_size (pg.max_align sz.state) (pg.max_align channel)
    cache ← cache_shmem_base_size d
    with_cache ← pg.add_size with_channel (pg.max_align cache)
    stats ← stats_shmem_size d
    pg.add_size with_cache (pg.max_align stats)

  -- `_initialize_state`.
  pub initialize_state : Demand → Option Segment
  initialize_state d = do
    let channel = pg.max_align sz.state
    placement ← channel_shmem_init d
    channel_size ← channel_shmem_size d
    let cache = channel + pg.max_align channel_size
    cache_size ← cache_shmem_base_size d
    let stats = cache + pg.max_align cache_size
    some (record { channel = channel; placement = placement; cache = cache; stats = stats })

  -- `fga_shmem_request`, with what `hash_estimate_size` says of the hash table of the cache.
  pub shmem_request : Demand → ℕ → Option ℕ
  unfolding struct_size
  shmem_request d hash_size = do size ← struct_size d; pg.add_size size (pg.max_align hash_size)

  -- `fga_shmem_startup` on the segment that there is: the first process initialises it, and `none` within is an
  -- error of the initialisation.
  pub shmem_startup : Demand → Option Segment → Option Segment
  unfolding struct_size initialize_state
  shmem_startup d (some found) = some found
  shmem_startup d none = do size ← struct_size d; initialize_state d
