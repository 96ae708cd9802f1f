-- ===== src/Cache/L2.antt =====
-- src/cache_l2.h: the cache that all backends share. Each function runs under the cache's lock and is
-- one step here. Times are milliseconds since the epoch of `TimestampTz`, never negative.
pub mod Victim
pub mod Invariant
pub mod Held
pub mod Store
mod Tests
use postfga.Prelude.{
  ℕ, zero, suc, ◌+◌, ◌-◌, ◌*◌, ◌/◌, ◌%◌, Bool, true, false, not, Option, none, some, List, [], ◌∷◌,
  get_or, set, length, ltb, leb, ◌==◌, if◌then◌else◌, u32,
}
use postfga.Cache.Key.{Key}
use postfga.Cache.Index.{Index}

abbrev pub usage_max : ℕ
usage_max = 5

abbrev pub uint32_max : ℕ
uint32_max = 4294967295

-- `FgaL2AclEntry`, with the fields of its `FgaL2AclValue`; `object_gen` is never read or written.
pub record Entry : Type 0 where
  pub key : Key
  pub allowed : Bool
  pub global_gen : ℕ
  pub expires_at_ms : ℕ
  pub usage_count : ℕ
  pub valid : Bool

-- `FgaL2AclCache`, with the index that stands beside it in shared memory.
pub record Cache (T : Type 0) : Type 0 where
  pub next_victim : ℕ
  pub capacity : ℕ
  pub generation : ℕ
  pub entries : List Entry
  pub slot_table : T

-- What a read outside `entries` would give; `Invariant.IsValid` rules it out.
abbrev pub blank : Entry
blank = record {
  key = record { low = 0; high = 0; object_key = 0; relation_id = 0; pad = 0 };
  allowed = false;
  global_gen = 0;
  expires_at_ms = 0;
  usage_count = 0;
  valid = false;
}

abbrev pub entry_at : List Entry → ℕ → Entry
entry_at entries i = get_or entries i blank

-- `l2_update_entry`
pub update_entry : Key → ℕ → Bool → ℕ → Entry
update_entry key expires_at allowed generation = record {
  key = key;
  allowed = allowed;
  global_gen = generation;
  expires_at_ms = expires_at;
  usage_count = usage_max;
  valid = true;
}

-- `l2_entry_expired`, given the generation of the cache.
unfoldable pub entry_expired : ℕ → Entry → ℕ → Bool
entry_expired generation entry now_ms =
    if not entry.valid
    then true
    else if leb entry.expires_at_ms now_ms
    then true
    else not (entry.global_gen == generation)

pub total_usage : List Entry → ℕ
total_usage [] = 0
total_usage (e ∷ es) = e.usage_count + total_usage es

module _ {T : Type 0} where
  -- `l2_clock_sweep`
  pub clock_sweep : Cache T → ℕ × Cache T
  clock_sweep c = (c.next_victim % c.capacity, record c { next_victim = u32 (c.next_victim + 1) })

  -- One round of the loop of `l2_find_victim_slot`: the slot that it returns, or the cache to go on
  -- with. A round that does not return has just reset `trycounter` to the capacity, so what
  -- `--trycounter` then tests is the capacity less one.
  sweep_round : Cache T → ℕ → Option ℕ × Cache T
  unfolding clock_sweep
  sweep_round cache now_ms =
      let (idx, c) = clock_sweep cache in
      let entry = entry_at c.entries idx in
      let aged = record c {
        entries = set c.entries idx (record entry { usage_count = entry.usage_count - 1 });
      } in
      if entry_expired c.generation entry now_ms
      then (some idx, c)
      else if ltb 0 entry.usage_count
      then (if u32 (c.capacity + 4294967295) == 0 then (some uint32_max, aged) else (none, aged))
      else (some idx, c)

  -- The loop, with fuel; `none` means that the fuel ran out.
  sweep : ℕ → Cache T → ℕ → Option (ℕ × Cache T)
  sweep zero cache now_ms = none
  sweep (suc fuel) cache now_ms =
      let (out, c) = sweep_round cache now_ms in
      elim out [ none ↦ sweep fuel c now_ms | some idx ↦ some (idx, c) ]

  -- `l2_find_victim_slot`: each round that does not return lowers a usage count.
  pub find_victim_slot : Cache T → ℕ → Option (ℕ × Cache T)
  find_victim_slot cache now_ms = sweep (suc (total_usage cache.entries)) cache now_ms

pub data Outcome : Type 0 where
  updated inserted no_victim out_of_memory no_fuel : Outcome

module _ {T : Type 0} (index : Index T) where
  -- `l2_lookup`: the option holds `*allowed_out` and `*expires_at`. The caller has read
  -- `l2->generation` already, so the cache is not null.
  pub lookup : Cache T → Key → ℕ → Option (Bool × ℕ) × Cache T
  lookup c key now_ms = elim (index.find c.slot_table key) [
    | none ↦ (none, c)
    | some slot_no ↦
        let entry = entry_at c.entries slot_no in
        let usage =
          if ltb entry.usage_count usage_max then entry.usage_count + 1 else entry.usage_count in
        if entry_expired c.generation entry now_ms
        then (none, record c { entries = set c.entries slot_no (record entry { usage_count = 0 }) })
        else (
          some (entry.allowed, entry.expires_at_ms),
          record c { entries = set c.entries slot_no (record entry { usage_count = usage }) },
        )
  ]

  -- The second and third part of `l2_store`, at the victim's slot.
  pub fill : Cache T → Key → ℕ → Bool → ℕ → Outcome × Cache T
  fill c key expires_at allowed victim_slot =
      let entry = entry_at c.entries victim_slot in
      let table = if entry.valid then index.remove c.slot_table entry.key else c.slot_table in
      elim (index.enter table key victim_slot) [
        | none ↦ (out_of_memory, record c { slot_table = table })
        | some table' ↦ (
          inserted,
          record c {
            slot_table = table';
            entries = set c.entries victim_slot (update_entry key expires_at allowed c.generation);
          },
        )
      ]

  pub insert : Cache T → Key → ℕ → ℕ → Bool → Outcome × Cache T
  unfolding fill
  insert c key now_ms expires_at allowed = elim (find_victim_slot c now_ms) [
    | none ↦ (no_fuel, c)
    | some (victim_slot, c') ↦
        if victim_slot == uint32_max
        then (no_victim, c')
        else fill c' key expires_at allowed victim_slot
  ]

  -- `l2_store`
  pub store : Cache T → Key → ℕ → ℕ → Bool → Outcome × Cache T
  unfolding insert
  store c key now_ms expires_at allowed = elim (index.find c.slot_table key) [
    | some slot_no ↦ (
      updated,
      record c {
        entries = set c.entries slot_no (update_entry key expires_at allowed c.generation);
      },
    )
    | none ↦ insert c key now_ms expires_at allowed
  ]
