-- ===== src/Cache/Front.antt =====
-- src/cache.c: the two levels behind `fga_cache_lookup` and `fga_cache_store`, as one backend runs
-- them, and the initialisation of the shared part. `now_us` is what GetCurrentTimestamp returns.
pub mod TwoLevel
pub mod Coherence
pub mod History
mod Tests
use postfga.Prelude.{
  ℕ, zero, suc, ◌+◌, ◌-◌, ◌*◌, ◌/◌, Bool, true, false, Option, none, some, List, [], ◌∷◌, replicate,
  if◌then◌else◌, u32,
}
use postfga.Cache.Key.{Key}
use postfga.Cache.Index.{Index}
use postfga.Cache.L1
use postfga.Cache.L2
use postfga.Stats
use postfga.Stats.{Stats}

-- What `FgaConfig` says of the cache.
pub record CacheConfig : Type 0 where
  pub cache_enabled : Bool
  pub cache_size : ℕ
  pub cache_ttl_ms : ℕ

-- The state that one backend works on.
pub record Front (T : Type 0) : Type 0 where
  pub config : CacheConfig
  pub l1 : L1.Cache
  pub l2 : L2.Cache T
  pub stats : Stats

-- `get_now_ms`
abbrev pub get_now_ms : ℕ → ℕ
get_now_ms now_us = now_us / 1000

-- `l2_capacity_from_config`, given `sizeof(FgaL2AclEntry)`.
unfoldable pub l2_capacity_from_config : ℕ → CacheConfig → ℕ
l2_capacity_from_config per config = config.cache_size * 1024 * 1024 / per

-- `l2_hash_size`
pub l2_hash_size : ℕ → ℕ
l2_hash_size capacity = capacity * 2

-- The loop of `fga_cache_shmem_init` over `entries`.
pub invalid_entries : ℕ → List L2.Entry → List L2.Entry
invalid_entries zero memory = []
invalid_entries (suc n) [] = []
invalid_entries (suc n) (e ∷ memory) = record e { valid = false } ∷ invalid_entries n memory

module _ {T : Type 0} (index : Index T) where
  -- `fga_cache_shmem_init`: `memory` is what stood where `entries` begins; only `valid` is written
  -- there. The index is created empty by `l2_startup`.
  pub shmem_init : ℕ → CacheConfig → List L2.Entry → L2.Cache T
  shmem_init per config memory =
      let capacity = u32 (l2_capacity_from_config per config) in
      record {
        next_victim = 0;
        capacity = capacity;
        generation = 0;
        entries = invalid_entries capacity memory;
        slot_table = index.empty;
      }

  -- `fga_cache_lookup`
  pub lookup : Front T → Option ℕ → ℕ → Key → Option Bool × Front T
  lookup s me now_us key =
      let now_ms = get_now_ms now_us in
      let (l1_out, l1) = L1.lookup s.l1 key s.l2.generation now_ms in
      let missed = Stats.l1_miss s.stats me in
      let (l2_out, l2) = L2.lookup index s.l2 key now_ms in
      if s.config.cache_enabled
      then elim l1_out [
        | some allowed ↦ (some allowed, record s { l1 = l1; stats = Stats.l1_hit s.stats me })
        | none ↦ elim l2_out [
          | some (allowed, expires_at) ↦ (
            some allowed,
            record s {
              l1 = L1.store l1 key l2.generation expires_at allowed;
              l2 = l2;
              stats = Stats.l2_hit missed me;
            },
          )
          | none ↦ (none, record s { l1 = l1; l2 = l2; stats = Stats.l2_miss missed me })
        ]
      ]
      else (none, s)

  -- `fga_cache_store`
  pub store : Front T → ℕ → Key → Bool → Option L2.Outcome × Front T
  store s now_us key allowed =
      let now_ms = get_now_ms now_us in
      let expires_at = now_ms + s.config.cache_ttl_ms in
      let l1 = L1.store s.l1 key s.l2.generation expires_at allowed in
      let (out, l2) = L2.store index s.l2 key now_ms expires_at allowed in
      if s.config.cache_enabled then (some out, record s { l1 = l1; l2 = l2 }) else (none, s)
