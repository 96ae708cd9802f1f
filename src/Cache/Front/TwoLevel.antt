-- ===== src/Cache/Front/TwoLevel.antt =====
-- The two levels together, as one backend sees them.
use mathlib.Core.Option
use postfga.Prelude.{ℕ, ◌≡◌, Bool, Option, none, some, List, if◌then◌else◌, arith}
use postfga.Cache.Key.{Key}
use postfga.Cache.Verdict.{Verdict, answer, Kept}
use postfga.Cache.Index.{Index}
use postfga.Cache.L1.{CacheSet}
use postfga.Cache.L1.Cells
use postfga.Cache.L2.Invariant
use postfga.Cache.L2.Held.{held, hit, lookup-hit}
use postfga.Cache.Front.{Front, get_now_ms, lookup}

-- The first level that answers.
abbrev pub or_else {ℓ} : {A : Type ℓ} → Option A → Option A → Option A
or_else none b = b
or_else (some a) b = some a

-- Levels that hold parts of one map answer as the map does.
pub levels-Kept :
    (v a b : Option Verdict) (gen now : ℕ) (enabled allowed : Bool)
    → Kept v a
    → Kept v b
    → (if enabled then or_else (answer a gen now) (answer b gen now) else none) ≡ some allowed
    → answer v gen now ≡ some allowed
unfolding answer
levels-Kept v a b gen now enabled allowed h k e = ground arith

hit-answer :
    (v : Option Verdict) (gen now : ℕ) → Option.map (λ r. r.0) (hit v gen now) ≡ answer v gen now
unfolding answer
hit-answer v gen now = ground arith

module _ {T : Type 0} (index : Index T) where
  -- Both levels are well formed, and the backend's own has been started.
  pub record IsReady (s : Front T) : Type 0 where
    pub sets : List CacheSet
    pub started : s.l1 ≡ some sets
    pub own : Cells.IsValid sets
    pub shared : Invariant.IsValid index s.l2

  -- What a lookup finds.
  pub lookup_found :
      (s : Front T) (me : Option ℕ) (now_us : ℕ) (key : Key) (r : IsReady s)
      → (lookup index s me now_us key).0 ≡ (
          if s.config.cache_enabled
          then or_else
              (answer (Cells.held_in r.sets key) s.l2.generation (get_now_ms now_us))
              (answer (held index s.l2 key) s.l2.generation (get_now_ms now_us))
          else none)
  unfolding lookup
  lookup_found s me now_us key r = ground (
    arith,
    r.started,
    Cells.lookup_lem r.sets r.own key s.l2.generation (get_now_ms now_us),
    lookup-hit index s.l2 key (get_now_ms now_us) r.shared,
    hit-answer (held index s.l2 key) s.l2.generation (get_now_ms now_us),
  )

  -- With the cache enabled, a lookup answers from the backend's own level, and where that has no live
  -- decision from the shared one; disabled, it finds nothing and changes nothing: both levels, the settings
  -- and the counters stay as they were.
  pub lookup_levels :
      (s : Front T) (me : Option ℕ) (now_us : ℕ) (key : Key) (r : IsReady s)
      → ((lookup index s me now_us key).0 ≡ (
          if s.config.cache_enabled
          then or_else
              (answer (Cells.held_in r.sets key) s.l2.generation (get_now_ms now_us))
              (answer (held index s.l2 key) s.l2.generation (get_now_ms now_us))
          else none))
        × ((if s.config.cache_enabled then s else (lookup index s me now_us key).1) ≡ s)
  unfolding lookup
  lookup_levels s me now_us key r = (lookup_found s me now_us key r, ground (arith))
