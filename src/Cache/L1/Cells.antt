-- ===== src/Cache/L1/Cells.antt =====
-- The whole L1 cache as a map from keys to verdicts: what each operation does to what is held.
use native.Mathlib.Decide.{ℕ_discrete}
use postfga.Prelude.{
  ℕ, zero, suc, ◌%◌, ◌<◌, ◌≡◌, refl, sym, ap, ◌∙◌, Bool, true, false, Option, none, some, List, [],
  ◌∷◌, map, length, length-set, get_or, set, get_or-set_self, get_or-set_ne, ◌==◌, if◌then◌else◌,
  bit_and-mask, ==_refl, arith,
}
use postfga.Cache.Key.{Key, l1_key_equals}
use postfga.Cache.L1.{
  CacheSet, num_sets, zero_key, zero_set, palloc0_sets, startup, hash_to_set, lookup_set, store_set,
  lookup, store, clear_set, drop_generation_set,
}
use postfga.Cache.Verdict.{Verdict, answer, forget, Kept}
use postfga.Cache.L1.SetLaws.{
  held, held_ways, IsTwoWay, zero_set-IsTwoWay, lookup_set-answer, lookup_set-Kept,
  lookup_set-IsTwoWay, store_set-held_self, store_set-held_other, store_set-recent,
  store_set-IsTwoWay, clear_set-held, clear_set-IsTwoWay, drop_generation_set-held,
  drop_generation_set-IsTwoWay,
}

-- `key->low & (L1_NUM_SETS - 1)` is the remainder by the number of sets, so it is in range,
hash_to_set-mod : (key : Key) → hash_to_set key ≡ key.low % num_sets
unfolding hash_to_set
hash_to_set-mod key = omega (arith, bit_and-mask key.low 14)

pub hash_to_set-lt : (key : Key) → hash_to_set key < num_sets
hash_to_set-lt key = omega (arith, hash_to_set-mod key)

-- and equal keys fall into one set.
pub hash_to_set-congr : (a b : Key) → l1_key_equals a b ≡ true → hash_to_set a ≡ hash_to_set b
hash_to_set-congr a b e =
    hash_to_set-mod a
    ∙ ap (λ (t : ℕ). t % num_sets) {y = b.low} (ground arith)
    ∙ sym (hash_to_set-mod b)

pub record IsValid (sets : List CacheSet) : Type 0 where
  pub full : length sets ≡ num_sets
  pub each : (i : ℕ) → IsTwoWay (get_or sets i zero_set)

-- What the cache holds for a key.
pub held_in : List CacheSet → Key → Option Verdict
held_in sets key = held (get_or sets (hash_to_set key) zero_set) key

palloc0_sets-get : (n i : ℕ) → get_or (palloc0_sets n) i zero_set ≡ zero_set
unfolding palloc0_sets
palloc0_sets-get zero i = refl
palloc0_sets-get (suc n) zero = refl
palloc0_sets-get (suc n) (suc i) = palloc0_sets-get n i

length-palloc0_sets : (n : ℕ) → length (palloc0_sets n) ≡ n
unfolding palloc0_sets
length-palloc0_sets zero = refl
length-palloc0_sets (suc n) = ap suc (length-palloc0_sets n)

-- Replacing one set by one that is well formed.
set-IsValid :
    (sets : List CacheSet) (i : ℕ) (s : CacheSet)
    → i < num_sets
    → IsTwoWay s
    → IsValid sets
    → IsValid (set sets i s)
set-IsValid sets i s h w v = record {
  full = length-set sets i s ∙ v.full;
  each = λ j. elim (ℕ_discrete i j) [
    | yes e ↦ rw (← e, get_or-set_self sets i s zero_set (omega (arith, v.full))) w
    | no ne ↦ rw (get_or-set_ne sets i j s zero_set ne) (v.each j)
  ];
}

-- A cell of the array after a write.
held-set :
    (sets : List CacheSet) (i : ℕ) (s : CacheSet) (key : Key)
    → i < num_sets
    → IsValid sets
    → held_in (set sets i s) key ≡ (if i == hash_to_set key then held s key else held_in sets key)
unfolding held_in
held-set sets i s key h v = elim (ℕ_discrete i (hash_to_set key)) [
  | yes e ↦ rw (← e, get_or-set_self sets i s zero_set (omega (arith, v.full)), ==_refl i)
  | no ne ↦ rw (get_or-set_ne sets i (hash_to_set key) s zero_set ne) (ground arith)
]

module _ (sets : List CacheSet) (v : IsValid sets) (key other : Key) where
  -- The set of a key holds what the cache holds for it.
  own : CacheSet
  own = get_or sets (hash_to_set key) zero_set

  own-held : hash_to_set key ≡ hash_to_set other → held own other ≡ held_in sets other
  unfolding own held_in
  own-held e = ap (λ i. held (get_or sets i zero_set) other) e

  own-IsTwoWay : IsTwoWay own
  unfolding own
  own-IsTwoWay = v.each (hash_to_set key)

  -- An operation that changes only the set of `key`, and there only drops what is held for `other`.
  replaced-Kept :
      (s : CacheSet)
      → Kept (held own other) (held s other)
      → Kept (held_in sets other) (held_in (set sets (hash_to_set key) s) other)
  replaced-Kept s kept = elim (ℕ_discrete (hash_to_set key) (hash_to_set other)) [
    | yes e ↦
        ground (arith, held-set sets (hash_to_set key) s other (hash_to_set-lt key) v, own-held e)
    | no ne ↦ ground (arith, held-set sets (hash_to_set key) s other (hash_to_set-lt key) v)
  ]

-- The array after `l1_lookup` and after `l1_store`.
abbrev pub looked : List CacheSet → Key → ℕ → ℕ → List CacheSet
looked sets key gen now =
    set sets (hash_to_set key) (lookup_set (get_or sets (hash_to_set key) zero_set) key gen now).1

abbrev pub stored : List CacheSet → Key → ℕ → ℕ → Bool → List CacheSet
stored sets key gen exp allowed =
    set sets (hash_to_set key)
      (store_set (get_or sets (hash_to_set key) zero_set) key gen exp allowed)

module _ (sets : List CacheSet) (v : IsValid sets) (key : Key) where
  pub looked-IsValid : (gen now : ℕ) → IsValid (looked sets key gen now)
  looked-IsValid gen now =
      set-IsValid sets (hash_to_set key) _ (hash_to_set-lt key)
        (lookup_set-IsTwoWay _ key key gen now (v.each (hash_to_set key))) v

  pub stored-IsValid : (gen exp : ℕ) (allowed : Bool) → IsValid (stored sets key gen exp allowed)
  stored-IsValid gen exp allowed =
      set-IsValid sets (hash_to_set key) _ (hash_to_set-lt key)
        (store_set-IsTwoWay _ key key gen exp allowed (v.each (hash_to_set key))) v

  pub looked-Kept :
      (other : Key) (gen now : ℕ)
      → Kept (held_in sets other) (held_in (looked sets key gen now) other)
  unfolding own
  looked-Kept other gen now =
      replaced-Kept sets v key other _
        (lookup_set-Kept (own sets v key key) key other gen now (own-IsTwoWay sets v key key))

  pub stored-held_self :
      (other : Key) (gen exp : ℕ) (allowed : Bool)
      → l1_key_equals key other ≡ true
      → held_in (stored sets key gen exp allowed) other
        ≡ some (record { allowed = allowed; generation = gen; expires_at = exp })
  stored-held_self other gen exp allowed e = ground (
    arith,
    hash_to_set-congr key other e,
    held-set sets (hash_to_set key)
        (store_set (get_or sets (hash_to_set key) zero_set) key gen exp allowed) other
        (hash_to_set-lt key) v,
    store_set-held_self (get_or sets (hash_to_set key) zero_set) key other gen exp allowed
        (v.each (hash_to_set key)) e,
  )

  pub stored-held_other :
      (other : Key) (gen exp : ℕ) (allowed : Bool)
      → l1_key_equals key other ≡ false
      → Kept (held_in sets other) (held_in (stored sets key gen exp allowed) other)
  unfolding own
  stored-held_other other gen exp allowed e = replaced-Kept sets v key other _ (
      store_set-held_other (own sets v key key) key other gen exp allowed
        (own-IsTwoWay sets v key key) e)

  pub lookup-answer :
      (gen now : ℕ) → (lookup (some sets) key gen now).0 ≡ answer (held_in sets key) gen now
  unfolding lookup held_in
  lookup-answer gen now = lookup_set-answer _ key key gen now (v.each (hash_to_set key))

-- The functions of the header on a started cache.
pub lookup_lem :
    (sets : List CacheSet) (v : IsValid sets) (key : Key) (gen now : ℕ)
    → lookup (some sets) key gen now
      ≡ (answer (held_in sets key) gen now, some (looked sets key gen now))
unfolding lookup
lookup_lem sets v key gen now =
    ap (λ (o : Option Bool). (o, some (looked sets key gen now))) (lookup-answer sets v key gen now)

pub store_lem :
    (sets : List CacheSet) (key : Key) (gen exp : ℕ) (allowed : Bool)
    → store (some sets) key gen exp allowed ≡ some (stored sets key gen exp allowed)
unfolding store
store_lem sets key gen exp allowed = refl

-- Two stores one after the other leave the first key's decision in place.
pub stored_twice :
    (sets : List CacheSet) (v : IsValid sets) (key other : Key) (gen exp : ℕ) (allowed : Bool)
    (gen' exp' : ℕ) (allowed' : Bool)
    → l1_key_equals key other ≡ false
    → held_in (stored (stored sets key gen exp allowed) other gen' exp' allowed') key
      ≡ some (record { allowed = allowed; generation = gen; expires_at = exp })
stored_twice sets v key other gen exp allowed gen' exp' allowed' ne =
    held-set after (hash_to_set other) _ key (hash_to_set-lt other) w
    ∙ elim (ℕ_discrete (hash_to_set other) (hash_to_set key)) [
      | yes e ↦
          rw
            (
              e,
              ==_refl (hash_to_set key),
              get_or-set_self sets (hash_to_set key) mine zero_set
                  (omega (arith, v.full, hash_to_set-lt key)),
            )
            (store_set-recent own_set key other gen exp allowed gen' exp' allowed'
              (v.each (hash_to_set key)) ne)
      | no far ↦ ground (arith, stored-held_self sets v key key gen exp allowed (ground arith))
    ]
  where
    own_set : CacheSet
    own_set = get_or sets (hash_to_set key) zero_set

    mine : CacheSet
    mine = store_set own_set key gen exp allowed

    after : List CacheSet
    after = stored sets key gen exp allowed

    w : IsValid after
    w = stored-IsValid sets v key gen exp allowed

-- An operation on every set.
module _ (f : CacheSet → CacheSet) where
  get_or-map :
      (sets : List CacheSet) (i : ℕ)
      → i < length sets
      → get_or (map f sets) i zero_set ≡ f (get_or sets i zero_set)
  get_or-map [] i h = absurd (omega arith)
  get_or-map (s ∷ sets) zero h = refl
  get_or-map (s ∷ sets) (suc i) h = get_or-map sets i (omega arith)

  length-map : (sets : List CacheSet) → length (map f sets) ≡ length sets
  length-map [] = refl
  length-map (s ∷ sets) = ap suc (length-map sets)

  map-each :
      ((s : CacheSet) → IsTwoWay s → IsTwoWay (f s))
      → (sets : List CacheSet) → ((i : ℕ) → IsTwoWay (get_or sets i zero_set))
      → (i : ℕ) → IsTwoWay (get_or (map f sets) i zero_set)
  map-each keep [] each i = zero_set-IsTwoWay
  map-each keep (s ∷ sets) each zero = keep s (each 0)
  map-each keep (s ∷ sets) each (suc i) = map-each keep sets (λ j. each (suc j)) i

  pub map-IsValid :
      ((s : CacheSet) → IsTwoWay s → IsTwoWay (f s))
      → (sets : List CacheSet) → IsValid sets
      → IsValid (map f sets)
  map-IsValid keep sets v = record {
    full = length-map sets ∙ v.full;
    each = map-each keep sets v.each;
  }

  pub held_in-map :
      (sets : List CacheSet) (key : Key)
      → IsValid sets
      → held_in (map f sets) key ≡ held (f (get_or sets (hash_to_set key) zero_set)) key
  unfolding held_in
  held_in-map sets key v =
      ap (λ s. held s key)
        (get_or-map sets (hash_to_set key) (omega (arith, hash_to_set-lt key, v.full)))

pub cleared-held :
    (sets : List CacheSet) (key : Key) → IsValid sets → held_in (map clear_set sets) key ≡ none
cleared-held sets key v = held_in-map clear_set sets key v ∙ clear_set-held _ key

pub cleared-IsValid : (sets : List CacheSet) → IsValid sets → IsValid (map clear_set sets)
cleared-IsValid = map-IsValid clear_set clear_set-IsTwoWay

pub dropped-held :
    (sets : List CacheSet) (g : ℕ) (key : Key)
    → IsValid sets
    → held_in (map (drop_generation_set g) sets) key ≡ forget g (held_in sets key)
unfolding held_in
dropped-held sets g key v =
    held_in-map (drop_generation_set g) sets key v
    ∙ drop_generation_set-held _ g key (v.each (hash_to_set key))

pub dropped-IsValid :
    (sets : List CacheSet) (g : ℕ) → IsValid sets → IsValid (map (drop_generation_set g) sets)
dropped-IsValid sets g v =
    map-IsValid (drop_generation_set g) (λ s w. drop_generation_set-IsTwoWay s g zero_key w) sets v

-- The cache that `l1_startup` allocates holds nothing.
pub palloc0_sets-IsValid : IsValid (palloc0_sets num_sets)
palloc0_sets-IsValid = record {
  full = length-palloc0_sets num_sets;
  each = λ i. rw (palloc0_sets-get num_sets i) zero_set-IsTwoWay;
}

pub palloc0_sets-held : (key : Key) → held_in (palloc0_sets num_sets) key ≡ none
unfolding held_in held_ways
palloc0_sets-held key = rw (palloc0_sets-get num_sets (hash_to_set key))

pub startup_lem : startup none ≡ some (palloc0_sets num_sets)
unfolding startup
startup_lem = refl
