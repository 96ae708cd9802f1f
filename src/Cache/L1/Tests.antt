-- ===== src/Cache/L1/Tests.antt =====
-- Runs of one set of the L1 cache, and its theorems at concrete calls.
use postfga.Prelude.{◌≡◌, refl, true, false, none, some, List, [], ◌∷◌}
use postfga.Cache.Key.{Key}
use postfga.Cache.Verdict.{answer}
use postfga.Cache.L1.{zero_set, startup, lookup, lookup_set, store_set, invalidate_by_generation}
use postfga.Cache.L1.Coherence.{
  Call, stores, looks, drops, step, run, ideal, nothing, lookup_sound, lookup-store,
  lookup-invalidate_by_generation,
}

-- Three keys of one set.
abbrev alice : Key
alice = record { low = 5; high = 1; object_key = 0; relation_id = 0; pad = 0 }

abbrev bob : Key
bob = record { low = 5; high = 2; object_key = 0; relation_id = 0; pad = 0 }

abbrev carol : Key
carol = record { low = 16389; high = 3; object_key = 0; relation_id = 0; pad = 0 }

-- A third key in a set evicts the one touched longest ago.
evicts_oldest :
    (lookup_set
      (store_set (store_set (store_set zero_set alice 0 50 true) bob 0 50 false) carol 0 50 true)
      alice
      0
      10).0
    ≡ none
unfolding lookup_set store_set
evicts_oldest = refl

abbrev calls : List Call
calls = stores alice 0 90 true ∷ looks alice 0 10 ∷ drops 7 ∷ stores bob 0 90 false ∷ []

stored_once : (lookup (run (startup none) (stores alice 0 90 true ∷ [])) alice 0 10).0 ≡ some true
unfolding run step
stored_once = lookup-store [] alice alice 0 90 10 true refl

lookup_sound_example : answer (ideal nothing (stores alice 0 90 true ∷ []) alice) 0 10 ≡ some true
lookup_sound_example = lookup_sound (stores alice 0 90 true ∷ []) alice 0 10 true stored_once

lookup-invalidate_by_generation_example :
    (lookup (invalidate_by_generation (run (startup none) calls) 0) bob 0 10).0 ≡ none
lookup-invalidate_by_generation_example = lookup-invalidate_by_generation calls bob 0 0 10
