-- ===== src/Cache/Front/History.antt =====
-- The cache from its initialisation on: every hit is the last decision stored for the key.
use postfga.Prelude.{
  ℕ, zero, suc, ◌+◌, ◌<◌, ◌≤◌, ◌≡◌, ◌⊎◌, inl, refl, ap, ◌∙◌, Bool, true, false, Option, none, some,
  List, [], ◌∷◌, length, u32, arith,
}
use postfga.Cache.Key.{Key, l1_key_equals}
use postfga.Cache.Verdict.{Verdict}
use postfga.Cache.Index.{Index}
use postfga.Cache.L1
use postfga.Cache.L1.Cells
use postfga.Cache.L1.Cells.{held_in}
use postfga.Cache.L2.{Outcome, Entry, entry_at}
use postfga.Cache.L2.Invariant
use postfga.Cache.L2.Held.{held}
use postfga.Cache.Front.{
  Front, CacheConfig, get_now_ms, l2_capacity_from_config, invalid_entries, shmem_init, lookup,
  store,
}
use postfga.Cache.Front.Coherence.{IsPart, remember, lookup-IsPart, store-IsPart}

length-invalid_entries :
    (n : ℕ) (memory : List Entry) → n ≤ length memory → length (invalid_entries n memory) ≡ n
unfolding invalid_entries
length-invalid_entries zero memory h = refl
length-invalid_entries (suc n) [] h = absurd (omega arith)
length-invalid_entries (suc n) (e ∷ memory) h =
    ap suc (length-invalid_entries n memory (omega arith))

invalid_entries-get :
    (n : ℕ) (memory : List Entry) (i : ℕ) → (entry_at (invalid_entries n memory) i).valid ≡ false
unfolding invalid_entries
invalid_entries-get zero memory i = refl
invalid_entries-get (suc n) [] i = refl
invalid_entries-get (suc n) (e ∷ memory) zero = refl
invalid_entries-get (suc n) (e ∷ memory) (suc i) = invalid_entries-get n memory i

module _ {T : Type 0} (index : Index T) where
  -- `fga_cache_shmem_init` leaves a well-formed cache that holds nothing, whatever stood in the shared
  -- memory, if the configured size makes room for one entry and fits 32 bits.
  pub shmem_init-IsValid :
      (per : ℕ) (config : CacheConfig) (memory : List Entry)
      → 0 < l2_capacity_from_config per config
      → l2_capacity_from_config per config < 4294967296
      → l2_capacity_from_config per config ≤ length memory
      → Invariant.IsValid index (shmem_init index per config memory)
        × ((key : Key) → held index (shmem_init index per config memory) key ≡ none)
  unfolding shmem_init held
  shmem_init-IsValid per config memory room narrow enough = (
    record {
      array = omega (
        arith,
        length-invalid_entries (u32 (l2_capacity_from_config per config)) memory (omega arith),
      );
      indexed = λ k i e. cc (index.find-empty k);
      listed =
          λ i h e. cc (invalid_entries-get (u32 (l2_capacity_from_config per config)) memory i);
    },
    λ key. rw (index.find-empty key),
  )

  -- The states that a backend reaches by lookups and stores, with the decisions stored so far.
  module _ (Used : Key → Type 0) where
    pub data Reach : Front T → (Key → Option Verdict) → Type 0 where
      starts :
          (s : Front T)
          → s.l1 ≡ L1.startup none
          → Invariant.IsValid index s.l2
          → ((key : Key) → held index s.l2 key ≡ none)
          → Reach s (λ key. none)
      looks :
          {s : Front T} {m : Key → Option Verdict}
          → Reach s m
          → (me : Option ℕ) (now_us : ℕ) (key : Key) → Used key
          → Reach (lookup index s me now_us key).1 m
      stores :
          {s : Front T} {m : Key → Option Verdict}
          → Reach s m
          → (now_us : ℕ) (key : Key) (allowed : Bool) → Used key
          → s.config.cache_enabled ≡ true
          → ((store index s now_us key allowed).0 ≡ some Outcome.updated)
            ⊎ ((store index s now_us key allowed).0 ≡ some Outcome.inserted)
          → Reach
              (store index s now_us key allowed).1
              (remember m key s.l2.generation (get_now_ms now_us + s.config.cache_ttl_ms) allowed)

    module _ (apart : (a b : Key) → Used a → Used b → l1_key_equals a b ≡ true → a ≡ b) where
      pub Reach-IsPart :
          {s : Front T} {m : Key → Option Verdict} → Reach s m → IsPart index Used s m
      Reach-IsPart (starts s e v empty) = record {
        ready = record {
          sets = L1.palloc0_sets L1.num_sets;
          started = e ∙ Cells.startup_lem;
          own = Cells.palloc0_sets-IsValid;
          shared = v;
        };
        own_part = λ key u. inl (Cells.palloc0_sets-held key);
        shared_part = λ key u. inl (empty key);
      }
      Reach-IsPart (looks {s} {m} r me now_us key u) =
          lookup-IsPart index Used apart s m (Reach-IsPart r) me now_us key u
      Reach-IsPart (stores {s} {m} r now_us key allowed u on done) =
          store-IsPart index Used apart s m (Reach-IsPart r) now_us key allowed u on done
