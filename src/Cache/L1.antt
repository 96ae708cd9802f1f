-- ===== src/Cache/L1.antt =====
-- src/cache_l1.h: the cache of one backend, 16384 sets of two ways, with a flip bit that names the way
-- to evict next. Times are milliseconds since the epoch of `TimestampTz`, never negative.
pub mod SetLaws
pub mod Cells
pub mod Coherence
mod Tests
use postfga.Prelude.{
  ℕ, zero, suc, ◌+◌, ◌-◌, ◌^◌, ◌≡◌, Bool, true, false, ◌&&◌, not, Option, none, some, List, [], ◌∷◌,
  map, get_or, set, bit_and, bit_xor, leb, ◌==◌, if◌then◌else◌, u32,
}
use mathlib.Core.Option
use postfga.Cache.Key.{Key, l1_key_equals}

abbrev pub num_sets_bits : ℕ
num_sets_bits = 14

abbrev pub num_sets : ℕ
num_sets = 2 ^ num_sets_bits

pub record Entry : Type 0 where
  pub valid : Bool
  pub allowed : Bool
  pub global_gen : ℕ
  pub expires_at_ms : ℕ
  pub key : Key

pub record CacheSet : Type 0 where
  pub ways : List Entry
  pub victim : ℕ

-- What `palloc0` leaves in an entry and in a set.
abbrev pub zero_key : Key
zero_key = record { low = 0; high = 0; object_key = 0; relation_id = 0; pad = 0 }

abbrev pub zero_entry : Entry
zero_entry = record {
  valid = false;
  allowed = false;
  global_gen = 0;
  expires_at_ms = 0;
  key = zero_key;
}

abbrev pub zero_set : CacheSet
zero_set = record { ways = zero_entry ∷ zero_entry ∷ []; victim = 0 }

pub palloc0_sets : ℕ → List CacheSet
palloc0_sets zero = []
palloc0_sets (suc n) = zero_set ∷ palloc0_sets n

-- `l1_cache`: `none` is the null pointer before `l1_startup`.
abbrev pub Cache : Type 0
Cache = Option (List CacheSet)

-- `l1_startup`
pub startup : Cache → Cache
startup none = some (palloc0_sets num_sets)
startup (some sets) = some sets

-- `l1_hash_to_set`
pub hash_to_set : Key → ℕ
hash_to_set key = u32 (bit_and key.low (num_sets - 1))

-- `l1_plru_access` and `l1_plru_victim`; the way is 0 or 1.
abbrev plru_access : CacheSet → ℕ → CacheSet
plru_access s way = record s { victim = bit_xor way 1 }

abbrev plru_victim : CacheSet → ℕ
plru_victim s = s.victim

-- The loop of `l1_lookup` over the ways from `i` on.
lookup_ways : CacheSet → List Entry → ℕ → Key → ℕ → ℕ → Option Bool × CacheSet
lookup_ways s [] i key cur_generation now_ms = (none, s)
lookup_ways s (e ∷ es) i key cur_generation now_ms =
    let rest = lookup_ways s es (i + 1) key cur_generation now_ms in
    let dropped = record s { ways = set s.ways i (record e { valid = false }) } in
    if not e.valid
    then rest
    else if not (l1_key_equals e.key key)
    then rest
    else if leb e.expires_at_ms now_ms
    then (none, dropped)
    else if not (e.global_gen == cur_generation)
    then (none, dropped)
    else (some e.allowed, plru_access s i)

pub lookup_set : CacheSet → Key → ℕ → ℕ → Option Bool × CacheSet
unfolding lookup_ways
lookup_set s key cur_generation now_ms = lookup_ways s s.ways 0 key cur_generation now_ms

-- The end of `l1_store`: an empty way, or else the victim, takes the new entry.
place : CacheSet → Option ℕ → Key → ℕ → ℕ → Bool → CacheSet
place s empty_slot key generation expires_at_ms allowed =
    let target : ℕ = elim empty_slot [ none ↦ plru_victim s | some i ↦ i ] in
    let e : Entry = record {
      valid = true;
      allowed = allowed;
      global_gen = generation;
      expires_at_ms = expires_at_ms;
      key = key;
    } in
    plru_access (record s { ways = set s.ways target e }) target

-- The loop of `l1_store`; `empty_slot` is `none` for -1.
store_ways : CacheSet → List Entry → ℕ → Option ℕ → Key → ℕ → ℕ → Bool → CacheSet
unfolding place
store_ways s [] i empty_slot key generation expires_at_ms allowed =
    place s empty_slot key generation expires_at_ms allowed
store_ways s (e ∷ es) i empty_slot key generation expires_at_ms allowed =
    let seen : Option ℕ =
      if e.valid then empty_slot else elim empty_slot [ none ↦ some i | some j ↦ some j ] in
    let rest = store_ways s es (i + 1) seen key generation expires_at_ms allowed in
    let updated = record e {
      allowed = allowed;
      expires_at_ms = expires_at_ms;
      global_gen = generation;
    } in
    if not e.valid
    then rest
    else if l1_key_equals e.key key
    then plru_access (record s { ways = set s.ways i updated }) i
    else rest

pub store_set : CacheSet → Key → ℕ → ℕ → Bool → CacheSet
unfolding store_ways
store_set s key generation expires_at_ms allowed =
    store_ways s s.ways 0 none key generation expires_at_ms allowed

-- `l1_lookup`
pub lookup : Cache → Key → ℕ → ℕ → Option Bool × Cache
lookup none key cur_generation now_ms = (none, none)
lookup (some sets) key cur_generation now_ms =
    let i = hash_to_set key in
    let (out, s) = lookup_set (get_or sets i zero_set) key cur_generation now_ms in
    (out, some (set sets i s))

-- `l1_store`
pub store : Cache → Key → ℕ → ℕ → Bool → Cache
store none key generation expires_at_ms allowed = none
store (some sets) key generation expires_at_ms allowed =
    let i = hash_to_set key in
    some (set sets i (store_set (get_or sets i zero_set) key generation expires_at_ms allowed))

clear_entry : Entry → Entry
clear_entry e = record e { valid = false }

pub clear_set : CacheSet → CacheSet
unfolding clear_entry
clear_set s = record { ways = map clear_entry s.ways; victim = 0 }

-- `l1_invalidate_all`
pub invalidate_all : Cache → Cache
invalidate_all = Option.map (map clear_set)

pub drop_generation : ℕ → Entry → Entry
drop_generation old_generation e =
    if e.valid && e.global_gen == old_generation then record e { valid = false } else e

pub drop_generation_set : ℕ → CacheSet → CacheSet
unfolding drop_generation
drop_generation_set old_generation s = record s {
  ways = map (drop_generation old_generation) s.ways;
}

-- `l1_invalidate_by_generation`
pub invalidate_by_generation : Cache → ℕ → Cache
invalidate_by_generation c old_generation = Option.map (map (drop_generation_set old_generation)) c
