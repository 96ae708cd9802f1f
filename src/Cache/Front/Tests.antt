-- ===== src/Cache/Front/Tests.antt =====
-- The two levels at concrete states: a shared cache of one megabyte, fresh from its initialisation.
use postfga.Prelude.{ℕ, ◌≡◌, ◌≢◌, ◌⊎◌, inl, inr, refl, ap, true, none, some, List, [], ◌∷◌, arith}
use postfga.Cache.Key.{Key}
use postfga.Cache.Verdict.{answer}
use postfga.Cache.Index.{Assoc, assoc_index}
use postfga.Cache.L1
use postfga.Cache.L1.Cells
use postfga.Cache.L2.{Entry, Outcome, blank}
use postfga.Cache.L2.Invariant
use postfga.Cache.L2.Held.{held}
use postfga.Cache.L2.Store.{store_succeeds}
use postfga.Stats
use postfga.Cache.Front.{Front, CacheConfig, lookup, store, shmem_init, l2_capacity_from_config}
use postfga.Cache.Front.TwoLevel.{IsReady, lookup_levels, or_else}
use postfga.Cache.Front.Coherence.{lookup_after_store}
use postfga.Cache.Front.History.{shmem_init-IsValid}

abbrev config : CacheConfig
config = record { cache_enabled = true; cache_size = 1; cache_ttl_ms = 60000 }

-- An entry of a quarter of a megabyte keeps the array short.
abbrev per : ℕ
per = 262144

abbrev memory : List Entry
memory = blank ∷ blank ∷ blank ∷ blank ∷ []

abbrev alice : Key
alice = record { low = 5; high = 1; object_key = 2; relation_id = 0; pad = 0 }

capacity_four : l2_capacity_from_config per config ≡ 4
unfolding l2_capacity_from_config
capacity_four = refl

fresh_cache-IsValid :
    Invariant.IsValid assoc_index (shmem_init assoc_index per config memory)
    × ((key : Key) → held assoc_index (shmem_init assoc_index per config memory) key ≡ none)
fresh_cache-IsValid =
    shmem_init-IsValid assoc_index per config memory (omega (arith, capacity_four))
      (omega (arith, capacity_four)) (omega (arith, capacity_four))

abbrev fresh : Front Assoc
fresh = record {
  config = config;
  l1 = L1.startup none;
  l2 = shmem_init assoc_index per config memory;
  stats = Stats.init 1;
}

fresh-IsReady : IsReady assoc_index fresh
fresh-IsReady = record {
  sets = L1.palloc0_sets L1.num_sets;
  started = Cells.startup_lem;
  own = Cells.palloc0_sets-IsValid;
  shared = fresh_cache-IsValid.0;
}

capacity-fresh : fresh.l2.capacity ≡ 4
unfolding shmem_init l2_capacity_from_config
capacity-fresh = refl

assoc_roomy : (t : Assoc) (k : Key) (i : ℕ) → assoc_index.enter t k i ≢ none
assoc_roomy t k i e = cc

-- At 10 s the shared level takes the decision,
stored_first :
    ((store assoc_index fresh 10_000_000 alice true).0 ≡ some Outcome.updated)
    ⊎ ((store assoc_index fresh 10_000_000 alice true).0 ≡ some Outcome.inserted)
unfolding store
stored_first =
    elim (store_succeeds assoc_index fresh.l2 alice 10_000 70_000 true fresh_cache-IsValid.0
      (omega (arith, capacity-fresh)) assoc_roomy).0 [
        | inl e ↦ inl (ap some e)
        | inr e ↦ inr (ap some e)
      ]

-- and a lookup hits until 70 s.
lookup_after_store_example :
    (lookup assoc_index
      (store assoc_index fresh 10_000_000 alice true).1
      (some 0)
      69_999_000
      alice).0
    ≡ some true
lookup_after_store_example =
    lookup_after_store assoc_index fresh (some 0) 10_000_000 69_999_000 alice true fresh-IsReady
      refl stored_first (omega arith)

lookup_levels_example :
    ((lookup assoc_index fresh (some 0) 5000 alice).0
      ≡ or_else
          (answer (Cells.held_in (L1.palloc0_sets L1.num_sets) alice) fresh.l2.generation 5)
          (answer (held assoc_index fresh.l2 alice) fresh.l2.generation 5))
    × (fresh ≡ fresh)
unfolding fresh-IsReady
lookup_levels_example = lookup_levels assoc_index fresh (some 0) 5000 alice fresh-IsReady
