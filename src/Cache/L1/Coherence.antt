-- ===== src/Cache/L1/Coherence.antt =====
-- The L1 cache against an unbounded map of verdicts: it may forget, and never makes an answer up.
use postfga.Prelude.{
  ℕ, ◌<◌, ◌≡◌, inl, inr, refl, sym, ◌∙◌, Bool, true, false, Option, none, some, List, [], ◌∷◌, map,
  leb, ◌==◌, if◌then◌else◌, Bool-cases, ==_refl, arith,
}
use postfga.Cache.Key.{Key, l1_key_equals}
use postfga.Cache.L1.{
  CacheSet, Cache, num_sets, palloc0_sets, startup, lookup, store, clear_set, drop_generation_set,
  invalidate_all, invalidate_by_generation,
}
use postfga.Cache.Verdict.{Verdict, answer, forget, Kept, Kept-trans, Kept-forget, answer-Kept}
use postfga.Cache.L1.Cells.{
  IsValid, held_in, stored, looked-IsValid, stored-IsValid, looked-Kept, stored-held_self,
  stored-held_other, lookup-answer, cleared-held, cleared-IsValid, dropped-held, dropped-IsValid,
  palloc0_sets-IsValid, palloc0_sets-held, stored_twice,
}

-- Every operation on the cache.
pub data Call : Type 0 where
  stores : Key → ℕ → ℕ → Bool → Call
  looks : Key → ℕ → ℕ → Call
  clears : Call
  drops : ℕ → Call

unfoldable pub step : Cache → Call → Cache
step c (stores key gen exp allowed) = store c key gen exp allowed
step c (looks key gen now) = (lookup c key gen now).1
step c clears = invalidate_all c
step c (drops gen) = invalidate_by_generation c gen

unfoldable pub run : Cache → List Call → Cache
run c [] = c
run c (call ∷ calls) = run (step c call) calls

-- The unbounded map: the last verdict stored for a key since the last invalidation.
abbrev pub Ideal : Type 0
Ideal = Key → Option Verdict

abbrev pub ideal_step : Ideal → Call → Ideal
ideal_step m (stores key gen exp allowed) other =
    if l1_key_equals key other
    then some (record { allowed = allowed; generation = gen; expires_at = exp })
    else m other
ideal_step m (looks key gen now) other = m other
ideal_step m clears other = none
ideal_step m (drops gen) other = forget gen (m other)

unfoldable pub ideal : Ideal → List Call → Ideal
ideal m [] = m
ideal m (call ∷ calls) = ideal (ideal_step m call) calls

-- The cache holds a part of the map.
abbrev IsPart : Cache → Ideal → Type 0
IsPart none m = ⊥
IsPart (some sets) m = IsValid sets × ((key : Key) → Kept (m key) (held_in sets key))

step-IsPart :
    (sets : List CacheSet) (m : Ideal) (call : Call)
    → IsPart (some sets) m
    → IsPart (step (some sets) call) (ideal_step m call)
unfolding step store lookup invalidate_all invalidate_by_generation
step-IsPart sets m (stores key gen exp allowed) (v, within) = (
  stored-IsValid sets v key gen exp allowed,
  λ other. elim (Bool-cases (l1_key_equals key other)) [
    | inl same ↦ rw same (inl (stored-held_self sets v key other gen exp allowed same))
    | inr ne ↦ rw ne (
        Kept-trans (m other) (held_in sets other) _ (within other)
          (stored-held_other sets v key other gen exp allowed ne))
  ],
)
step-IsPart sets m (looks key gen now) (v, within) = (
  looked-IsValid sets v key gen now,
  λ other.
      Kept-trans (m other) (held_in sets other) _ (within other)
        (looked-Kept sets v key other gen now),
)
step-IsPart sets m clears (v, within) =
    (cleared-IsValid sets v, λ key. inl (cleared-held sets key v))
step-IsPart sets m (drops gen) (v, within) = (
  dropped-IsValid sets gen v,
  λ key. Kept-forget gen (m key) (held_in sets key) _ (within key) (dropped-held sets gen key v),
)

step-some :
    (sets : List CacheSet) (call : Call)
    → (out : List CacheSet) × (step (some sets) call ≡ some out)
unfolding step store lookup invalidate_all invalidate_by_generation
step-some sets (stores key gen exp allowed) = (_, refl)
step-some sets (looks key gen now) = (_, refl)
step-some sets clears = (_, refl)
step-some sets (drops gen) = (_, refl)

pub run-IsPart :
    (calls : List Call) (sets : List CacheSet) (m : Ideal)
    → IsPart (some sets) m
    → (out : List CacheSet) × (run (some sets) calls ≡ some out) × IsPart (some out) (ideal m calls)
unfolding run ideal
run-IsPart [] sets m p = (sets, refl, p)
run-IsPart (call ∷ calls) sets m p =
    let (next, e) = step-some sets call in
    let q : IsPart (some next) (ideal_step m call) = rw e at (step-IsPart sets m call p) in
    rw e (run-IsPart calls next (ideal_step m call) q)

abbrev pub nothing : Ideal
nothing key = none

-- The state that `l1_startup` leaves.
started-IsPart : IsPart (some (palloc0_sets num_sets)) nothing
started-IsPart = (palloc0_sets-IsValid, λ key. inl (palloc0_sets-held key))

pub run_started :
    (calls : List Call)
    → (out : List CacheSet) × (run (startup none) calls ≡ some out)
      × IsPart (some out) (ideal nothing calls)
unfolding startup
run_started calls = run-IsPart calls (palloc0_sets num_sets) nothing started-IsPart

-- After any calls on a started cache, a hit gives the decision that the unbounded map of the same
-- calls gives: the one stored last for the key, not invalidated since, of the current generation and
-- not expired.
pub lookup_sound :
    (calls : List Call) (key : Key) (gen now : ℕ) (allowed : Bool)
    → (lookup (run (startup none) calls) key gen now).0 ≡ some allowed
    → answer (ideal nothing calls key) gen now ≡ some allowed
lookup_sound calls key gen now allowed h =
    let (out, e, part) = run_started calls in
    answer-Kept (ideal nothing calls key) (held_in out key) gen now allowed (part.1 key)
      (sym (lookup-answer out part.0 key gen now) ∙ (rw e at h))

-- After any calls on a started cache, a decision that is stored is the answer to the next lookup of
-- an equal key in the same generation, up to but excluding its deadline, and is a miss from then on.
pub lookup-store :
    (calls : List Call) (key other : Key) (gen exp now : ℕ) (allowed : Bool)
    → l1_key_equals key other ≡ true
    → (lookup (store (run (startup none) calls) key gen exp allowed) other gen now).0
      ≡ (if leb exp now then none else some allowed)
unfolding store answer
lookup-store calls key other gen exp now allowed same =
    let (out, e, part) = run_started calls in
    rw e (
      lookup-answer (stored out key gen exp allowed) (stored-IsValid out part.0 key gen exp allowed)
        other gen now
      ∙ rw (stored-held_self out part.0 key other gen exp allowed same, ==_refl gen) (ground arith))

-- After any calls on a started cache, nothing is found once all is invalidated.
pub lookup-invalidate_all :
    (calls : List Call) (key : Key) (gen now : ℕ)
    → (lookup (invalidate_all (run (startup none) calls)) key gen now).0 ≡ none
unfolding invalidate_all answer
lookup-invalidate_all calls key gen now =
    let (out, e, part) = run_started calls in
    rw e (
      lookup-answer (map clear_set out) (cleared-IsValid out part.0) key gen now
      ∙ rw (cleared-held out key part.0))

-- Dropping a generation makes the lookups in it miss, and changes no lookup in another.
pub lookup-invalidate_by_generation :
    (calls : List Call) (key : Key) (dropped gen now : ℕ)
    → (lookup (invalidate_by_generation (run (startup none) calls) dropped) key gen now).0
      ≡ (if dropped == gen then none else (lookup (run (startup none) calls) key gen now).0)
unfolding invalidate_by_generation answer
lookup-invalidate_by_generation calls key dropped gen now =
    let (out, e, part) = run_started calls in
    rw e (
      lookup-answer (map (drop_generation_set dropped) out) (dropped-IsValid out dropped part.0) key
        gen now
      ∙ ground (arith, dropped-held out dropped key part.0, lookup-answer out part.0 key gen now))

-- After any calls on a started cache, a decision is still found when one decision for another key has
-- been stored after it, whichever sets the two fall into.
pub lookup-store-store :
    (calls : List Call) (key other : Key) (gen exp now : ℕ) (allowed : Bool) (gen' exp' : ℕ)
    (allowed' : Bool)
    → l1_key_equals key other ≡ false
    → now < exp
    → (lookup
        (store (store (run (startup none) calls) key gen exp allowed) other gen' exp' allowed')
        key
        gen
        now).0
      ≡ some allowed
unfolding store answer
lookup-store-store calls key other gen exp now allowed gen' exp' allowed' ne live =
    let (out, e, part) = run_started calls in
    rw e (
      lookup-answer (stored (stored out key gen exp allowed) other gen' exp' allowed')
        (stored-IsValid _ (stored-IsValid out part.0 key gen exp allowed) other gen' exp' allowed')
        key gen now
      ∙ rw (stored_twice out part.0 key other gen exp allowed gen' exp' allowed' ne, ==_refl gen)
          (ground arith))
