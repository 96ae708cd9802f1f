-- ===== src/Cache/L1/SetLaws.antt =====
-- One set of the L1 cache: what it holds for a key, and how lookups and stores change that.
use postfga.Prelude.{
  ℕ, zero, suc, ◌<◌, ◌≡◌, refl, Bool, true, false, ◌&&◌, Option, none, some, List, [], ◌∷◌,
  if◌then◌else◌, arith, bit_xor,
}
use postfga.Cache.Key.{Key, l1_key_equals}
use postfga.Cache.Verdict.{Verdict, answer, Kept, forget}
use postfga.Cache.L1.{
  Entry, CacheSet, zero_set, lookup_set, store_set, clear_set, drop_generation_set,
}

abbrev pub verdict : Entry → Verdict
verdict e = record { allowed = e.allowed; generation = e.global_gen; expires_at = e.expires_at_ms }

abbrev pub holds : Entry → Key → Bool
holds e key = e.valid && l1_key_equals e.key key

unfoldable pub held_ways : List Entry → Key → Option Verdict
held_ways [] key = none
held_ways (e ∷ es) key = if holds e key then some (verdict e) else held_ways es key

-- What a set holds for a key.
abbrev pub held : CacheSet → Key → Option Verdict
held s key = held_ways s.ways key

-- Two ways, a flip bit, and never two valid ways for one key.
abbrev Shape : List Entry → ℕ → Type 0
Shape (a ∷ b ∷ []) victim = (victim < 2) × (a.valid && b.valid && l1_key_equals a.key b.key ≡ false)
Shape _ victim = ⊥

pub IsTwoWay : CacheSet → Type 0
IsTwoWay s = Shape s.ways s.victim

bit_xor-one : (n : ℕ) → n < 2 → bit_xor n 1 < 2
bit_xor-one zero h = omega arith
bit_xor-one (suc zero) h = omega arith
bit_xor-one (suc (suc n)) h = absurd (omega arith)

-- A lookup answers from what the set holds: exactly an unexpired verdict of this generation.
lookup_set-answer_ways :
    (ways : List Entry) (victim : ℕ) (key : Key) (gen now : ℕ)
    → Shape ways victim
    → (lookup_set (record { ways = ways; victim = victim }) key gen now).0
      ≡ answer (held_ways ways key) gen now
unfolding lookup_set held_ways answer
lookup_set-answer_ways [] victim key gen now v = absurd v
lookup_set-answer_ways (a ∷ []) victim key gen now v = absurd v
lookup_set-answer_ways (a ∷ b ∷ []) victim key gen now v = ground arith
lookup_set-answer_ways (a ∷ b ∷ c ∷ rest) victim key gen now v = absurd v

lookup_set-Kept_ways :
    (ways : List Entry) (victim : ℕ) (key other : Key) (gen now : ℕ)
    → Shape ways victim
    → let s = (lookup_set (record { ways = ways; victim = victim }) key gen now).1 in
      Kept (held_ways ways other) (held s other) × Shape s.ways s.victim
unfolding lookup_set held_ways
lookup_set-Kept_ways [] victim key other gen now v = absurd v
lookup_set-Kept_ways (a ∷ []) victim key other gen now v = absurd v
lookup_set-Kept_ways (a ∷ b ∷ []) victim key other gen now v = ground arith
lookup_set-Kept_ways (a ∷ b ∷ c ∷ rest) victim key other gen now v = absurd v

store_set-held_ways :
    (ways : List Entry) (victim : ℕ) (key other : Key) (gen exp : ℕ) (allowed : Bool)
    → Shape ways victim
    → let s = store_set (record { ways = ways; victim = victim }) key gen exp allowed in
      let v : Verdict = record { allowed = allowed; generation = gen; expires_at = exp } in
      (if l1_key_equals key other
        then held s other ≡ some v
        else Kept (held_ways ways other) (held s other))
      × Shape s.ways s.victim
unfolding store_set held_ways
store_set-held_ways [] victim key other gen exp allowed v = absurd v
store_set-held_ways (a ∷ []) victim key other gen exp allowed v = absurd v
store_set-held_ways (a ∷ b ∷ []) zero key other gen exp allowed v = ground arith
store_set-held_ways (a ∷ b ∷ []) (suc zero) key other gen exp allowed v = ground arith
store_set-held_ways (a ∷ b ∷ []) (suc (suc n)) key other gen exp allowed v = absurd (omega arith)
store_set-held_ways (a ∷ b ∷ c ∷ rest) victim key other gen exp allowed v = absurd v

-- After a store of one key and a store of another, the set still holds the first: the flip bit turns
-- away from the way touched last.
recent_ways :
    (ways : List Entry) (victim : ℕ) (key other : Key) (gen exp : ℕ) (allowed : Bool)
    (gen' exp' : ℕ) (allowed' : Bool)
    → Shape ways victim
    → l1_key_equals key other ≡ false
    → let s = store_set (record { ways = ways; victim = victim }) key gen exp allowed in
      held (store_set s other gen' exp' allowed') key
      ≡ some (record { allowed = allowed; generation = gen; expires_at = exp })
unfolding store_set held_ways
recent_ways [] victim key other gen exp allowed gen' exp' allowed' v ne = absurd v
recent_ways (a ∷ []) victim key other gen exp allowed gen' exp' allowed' v ne = absurd v
recent_ways (a ∷ b ∷ []) zero key other gen exp allowed gen' exp' allowed' v ne = ground arith
recent_ways (a ∷ b ∷ []) (suc zero) key other gen exp allowed gen' exp' allowed' v ne = ground arith
recent_ways (a ∷ b ∷ []) (suc (suc n)) key other gen exp allowed gen' exp' allowed' v ne =
    absurd (omega arith)
recent_ways (a ∷ b ∷ c ∷ rest) victim key other gen exp allowed gen' exp' allowed' v ne = absurd v

-- A hit counts as a touch.
refreshed_ways :
    (ways : List Entry) (victim : ℕ) (key other : Key) (gen now : ℕ) (allowed : Bool)
    (gen' exp' : ℕ) (allowed' : Bool)
    → Shape ways victim
    → l1_key_equals key other ≡ false
    → let (out, s) = lookup_set (record { ways = ways; victim = victim }) key gen now in
      out ≡ some allowed → held (store_set s other gen' exp' allowed') key ≡ held_ways ways key
unfolding store_set lookup_set held_ways
refreshed_ways [] victim key other gen now allowed gen' exp' allowed' v ne h = absurd v
refreshed_ways (a ∷ []) victim key other gen now allowed gen' exp' allowed' v ne h = absurd v
refreshed_ways (a ∷ b ∷ []) victim key other gen now allowed gen' exp' allowed' v ne h =
    ground arith
refreshed_ways (a ∷ b ∷ c ∷ rest) victim key other gen now allowed gen' exp' allowed' v ne h =
    absurd v

clear_set-held_ways :
    (ways : List Entry) (victim : ℕ) (key : Key)
    → held (clear_set (record { ways = ways; victim = victim })) key ≡ none
unfolding clear_set held_ways
clear_set-held_ways [] victim key = refl
clear_set-held_ways (e ∷ es) victim key = clear_set-held_ways es victim key

clear_set-Shape :
    (ways : List Entry) (victim : ℕ)
    → Shape ways victim
    → IsTwoWay (clear_set (record { ways = ways; victim = victim }))
unfolding clear_set IsTwoWay
clear_set-Shape [] victim v = v
clear_set-Shape (a ∷ []) victim v = v
clear_set-Shape (a ∷ b ∷ []) victim v = ground arith
clear_set-Shape (a ∷ b ∷ c ∷ rest) victim v = v

-- Dropping a generation drops the verdicts of that generation and no other.
drop_generation-ways :
    (ways : List Entry) (victim : ℕ) (g : ℕ) (key : Key)
    → Shape ways victim
    → let s = drop_generation_set g (record { ways = ways; victim = victim }) in
      (held s key ≡ forget g (held_ways ways key)) × Shape s.ways s.victim
unfolding drop_generation_set held_ways
drop_generation-ways [] victim g key v = absurd v
drop_generation-ways (a ∷ []) victim g key v = absurd v
drop_generation-ways (a ∷ b ∷ []) victim g key v = ground arith
drop_generation-ways (a ∷ b ∷ c ∷ rest) victim g key v = absurd v

pub zero_set-IsTwoWay : IsTwoWay zero_set
unfolding IsTwoWay
zero_set-IsTwoWay = ground arith

-- The same laws for a set that is well formed.
module _ (s : CacheSet) (key other : Key) where
  pub lookup_set-answer :
      (gen now : ℕ) → IsTwoWay s → (lookup_set s key gen now).0 ≡ answer (held s key) gen now
  unfolding IsTwoWay
  lookup_set-answer gen now v = lookup_set-answer_ways s.ways s.victim key gen now v

  pub lookup_set-Kept :
      (gen now : ℕ) → IsTwoWay s → Kept (held s other) (held (lookup_set s key gen now).1 other)
  unfolding IsTwoWay
  lookup_set-Kept gen now v = (lookup_set-Kept_ways s.ways s.victim key other gen now v).0

  pub lookup_set-IsTwoWay : (gen now : ℕ) → IsTwoWay s → IsTwoWay (lookup_set s key gen now).1
  unfolding IsTwoWay
  lookup_set-IsTwoWay gen now v = (lookup_set-Kept_ways s.ways s.victim key other gen now v).1

  module _ (gen exp : ℕ) (allowed : Bool) where
    pub store_set-held_self :
        IsTwoWay s
        → l1_key_equals key other ≡ true
        → held (store_set s key gen exp allowed) other
          ≡ some (record { allowed = allowed; generation = gen; expires_at = exp })
    unfolding IsTwoWay
    store_set-held_self v e =
        ground (arith, store_set-held_ways s.ways s.victim key other gen exp allowed v)

    pub store_set-held_other :
        IsTwoWay s
        → l1_key_equals key other ≡ false
        → Kept (held s other) (held (store_set s key gen exp allowed) other)
    unfolding IsTwoWay
    store_set-held_other v e =
        ground (arith, store_set-held_ways s.ways s.victim key other gen exp allowed v)

    pub store_set-recent :
        (gen' exp' : ℕ) (allowed' : Bool)
        → IsTwoWay s
        → l1_key_equals key other ≡ false
        → held (store_set (store_set s key gen exp allowed) other gen' exp' allowed') key
          ≡ some (record { allowed = allowed; generation = gen; expires_at = exp })
    unfolding IsTwoWay
    store_set-recent gen' exp' allowed' v ne =
        recent_ways s.ways s.victim key other gen exp allowed gen' exp' allowed' v ne

    pub store_set-IsTwoWay : IsTwoWay s → IsTwoWay (store_set s key gen exp allowed)
    unfolding IsTwoWay
    store_set-IsTwoWay v = (store_set-held_ways s.ways s.victim key other gen exp allowed v).1

pub clear_set-held : (s : CacheSet) (key : Key) → held (clear_set s) key ≡ none
clear_set-held s key = clear_set-held_ways s.ways s.victim key

pub clear_set-IsTwoWay : (s : CacheSet) → IsTwoWay s → IsTwoWay (clear_set s)
unfolding IsTwoWay
clear_set-IsTwoWay s v = clear_set-Shape s.ways s.victim v

module _ (s : CacheSet) (g : ℕ) where
  pub drop_generation_set-held :
      (key : Key) → IsTwoWay s → held (drop_generation_set g s) key ≡ forget g (held s key)
  unfolding IsTwoWay
  drop_generation_set-held key v = (drop_generation-ways s.ways s.victim g key v).0

  pub drop_generation_set-IsTwoWay : (key : Key) → IsTwoWay s → IsTwoWay (drop_generation_set g s)
  unfolding IsTwoWay
  drop_generation_set-IsTwoWay key v = (drop_generation-ways s.ways s.victim g key v).1
