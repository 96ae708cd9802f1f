-- ===== src/Cache/L2/Tests.antt =====
-- The shared cache at concrete states, over an association list.
use postfga.Prelude.{ℕ, zero, suc, ◌≡◌, ◌≢◌, refl, true, false, none, some, [], ◌∷◌, arith}
use postfga.Cache.Key.{Key}
use postfga.Cache.Index.{Assoc, assoc_index}
use postfga.Cache.L2.{
  Entry, Cache, blank, entry_at, entry_expired, total_usage, sweep_round, sweep, find_victim_slot,
  lookup, store,
}
use postfga.Cache.L2.Victim.{IsArray, IsVictim, Swept, find_victim_slot_total}
use postfga.Cache.L2.Invariant.{IsValid}
use postfga.Cache.L2.Held.{held, hit, lookup-hit}
use postfga.Cache.L2.Store.{Stored, store-Stored}

abbrev alice : Key
alice = record { low = 5; high = 1; object_key = 2; relation_id = 0; pad = 0 }

abbrev vacant : Cache Assoc
vacant = record {
  next_victim = 4294967295;
  capacity = 2;
  generation = 0;
  entries = blank ∷ blank ∷ [];
  slot_table = [];
}

-- Two live entries in full use.
abbrev busy_entry : Entry
busy_entry = record {
  key = alice;
  allowed = true;
  global_gen = 0;
  expires_at_ms = 100;
  usage_count = 2;
  valid = true;
}

abbrev busy : Cache Assoc
busy = record vacant { next_victim = 1; entries = busy_entry ∷ busy_entry ∷ [] }

-- The hand goes round until a count has come down to 0.
find_victim_slot-busy :
    find_victim_slot busy 10
    ≡ some (
      1,
      record busy {
        next_victim = 6;
        entries =
            record busy_entry { usage_count = 0 } ∷ record busy_entry { usage_count = 0 } ∷ [];
      },
    )
unfolding find_victim_slot sweep sweep_round entry_expired total_usage
find_victim_slot-busy = refl

busy-IsArray : IsArray busy
busy-IsArray = record { full = refl; room = omega arith; narrow = omega arith }

vacant_off : (i : ℕ) → (entry_at vacant.entries i).valid ≡ false
vacant_off zero = refl
vacant_off (suc zero) = refl
vacant_off (suc (suc i)) = refl

vacant-IsValid : IsValid assoc_index vacant
vacant-IsValid = record {
  array = record { full = refl; room = omega arith; narrow = omega arith };
  indexed = λ k i e. cc;
  listed = λ i h e. cc (vacant_off i);
}

assoc_roomy : (t : Assoc) (k : Key) (i : ℕ) → assoc_index.enter t k i ≢ none
assoc_roomy t k i e = cc

find_victim_slot_total_example :
    (i : ℕ) × (d : Cache Assoc) × (find_victim_slot busy 10 ≡ some (i, d))
    × Swept busy d
    × IsVictim d 10 i
find_victim_slot_total_example = find_victim_slot_total busy 10 busy-IsArray (omega arith)

store-Stored_example :
    Stored assoc_index vacant alice 90 true (store assoc_index vacant alice 10 90 true)
store-Stored_example = store-Stored assoc_index vacant alice 90 true 10 vacant-IsValid

lookup-hit_example :
    (lookup assoc_index vacant alice 10).0 ≡ hit (held assoc_index vacant alice) 0 10
lookup-hit_example = lookup-hit assoc_index vacant alice 10 vacant-IsValid
