-- ===== src/Stats/Report/Events.antt =====
-- What the backends count with the functions of src/stats.c, and what a run of them leaves in the counters.
use postfga.Prelude.{
  sum, sum-set, ℕ, ◌+◌, ◌<◌, ◌≡◌, refl, ap, ◌∙◌, Bool, true, false, some, List, [], ◌∷◌, length,
  set, get_or, length-set, length-replicate, if◌then◌else◌, arith, u64,
}
use postfga.Stats.{
  BackendStats, Stats, zero_stats, init, l1_hit, l1_miss, l1_eviction, l2_hit, l2_miss, l2_eviction,
}

-- What the backends count.
pub data Counted : Type 0 where
  hit_l1 : Counted
  miss_l1 : Counted
  eviction_l1 : Counted
  hit_l2 : Counted
  miss_l2 : Counted
  eviction_l2 : Counted

abbrev pub count_event : Counted → Stats → ℕ → Stats
count_event hit_l1 s me = l1_hit s (some me)
count_event miss_l1 s me = l1_miss s (some me)
count_event eviction_l1 s me = l1_eviction s (some me)
count_event hit_l2 s me = l2_hit s (some me)
count_event miss_l2 s me = l2_miss s (some me)
count_event eviction_l2 s me = l2_eviction s (some me)

-- The counter of an event, and what an event does to a block.
abbrev pub counter : Counted → BackendStats → ℕ
counter hit_l1 b = b.cache_l1_hits
counter miss_l1 b = b.cache_l1_misses
counter eviction_l1 b = b.cache_l1_evictions
counter hit_l2 b = b.cache_l2_hits
counter miss_l2 b = b.cache_l2_misses
counter eviction_l2 b = b.cache_l2_evictions

abbrev pub bump : Counted → BackendStats → BackendStats
bump hit_l1 b = record b { cache_l1_hits = u64 (b.cache_l1_hits + 1) }
bump miss_l1 b = record b { cache_l1_misses = u64 (b.cache_l1_misses + 1) }
bump eviction_l1 b = record b { cache_l1_evictions = u64 (b.cache_l1_evictions + 1) }
bump hit_l2 b = record b { cache_l2_hits = u64 (b.cache_l2_hits + 1) }
bump miss_l2 b = record b { cache_l2_misses = u64 (b.cache_l2_misses + 1) }
bump eviction_l2 b = record b { cache_l2_evictions = u64 (b.cache_l2_evictions + 1) }

abbrev pub same_kind : Counted → Counted → Bool
same_kind hit_l1 hit_l1 = true
same_kind miss_l1 miss_l1 = true
same_kind eviction_l1 eviction_l1 = true
same_kind hit_l2 hit_l2 = true
same_kind miss_l2 miss_l2 = true
same_kind eviction_l2 eviction_l2 = true
same_kind a b = false

pub counter-bump :
    (c k : Counted) (b : BackendStats)
    → u64 (counter c (bump k b)) ≡ u64 (counter c b + (if same_kind c k then 1 else 0))
counter-bump c k b = ground arith

backends-count_event :
    (k : Counted) (s : Stats) (me : ℕ)
    → (count_event k s me).backends ≡ set s.backends me (bump k (get_or s.backends me zero_stats))
unfolding l1_hit l1_miss l1_eviction l2_hit l2_miss l2_eviction
backends-count_event hit_l1 s me = refl
backends-count_event miss_l1 s me = refl
backends-count_event eviction_l1 s me = refl
backends-count_event hit_l2 s me = refl
backends-count_event miss_l2 s me = refl
backends-count_event eviction_l2 s me = refl

length-count_event :
    (k : Counted) (s : Stats) (me : ℕ) → length (count_event k s me).backends ≡ length s.backends
length-count_event k s me = ap length (backends-count_event k s me) ∙ length-set s.backends me _

-- A run of the backends, each event with the backend that counts it.
pub happens : List (Counted × ℕ) → Stats → Stats
happens [] s = s
happens ((k, me) ∷ events) s = happens events (count_event k s me)

abbrev pub AllBelow : ℕ → List (Counted × ℕ) → Type 0
AllBelow n [] = Unit
AllBelow n ((k, me) ∷ events) = (me < n) × AllBelow n events

abbrev pub number : Counted → List (Counted × ℕ) → ℕ
number c [] = 0
number c ((k, me) ∷ events) = (if same_kind c k then 1 else 0) + number c events

sum-count_event :
    (g : BackendStats → ℕ) (d : ℕ) (k : Counted) (s : Stats) (me : ℕ)
    → ((b : BackendStats) → u64 (g (bump k b)) ≡ u64 (g b + d))
    → me < length s.backends
    → u64 (sum g (count_event k s me).backends) ≡ u64 (sum g s.backends + d)
sum-count_event g d k s me step h =
    let old = get_or s.backends me zero_stats in
    ap (λ (bs : List BackendStats). u64 (sum g bs)) (backends-count_event k s me)
    ∙ omega (arith, sum-set g s.backends me (bump k old) zero_stats h, step old)

pub counter-happens :
    (c : Counted) (events : List (Counted × ℕ)) (s : Stats)
    → AllBelow (length s.backends) events
    → u64 (sum (counter c) (happens events s).backends)
      ≡ u64 (sum (counter c) s.backends + number c events)
unfolding happens
counter-happens c [] s h = omega arith
counter-happens c ((k, me) ∷ events) s (h, hs) =
    let first =
      sum-count_event (counter c) (if same_kind c k then 1 else 0) k s me (counter-bump c k) h in
    let rest = counter-happens c events (count_event k s me) (rw (length-count_event k s me) hs) in
    omega (arith, first, rest)

-- The counters that no function raises.
pub idle-happens :
    (g : BackendStats → ℕ) (events : List (Counted × ℕ)) (s : Stats)
    → ((k : Counted) (b : BackendStats) → g (bump k b) ≡ g b)
    → AllBelow (length s.backends) events
    → u64 (sum g (happens events s).backends) ≡ u64 (sum g s.backends)
unfolding happens
idle-happens g [] s still h = refl
idle-happens g ((k, me) ∷ events) s still (h, hs) =
    let first = sum-count_event g 0 k s me (λ b. omega (arith, still k b)) h in
    let rest =
      idle-happens g events (count_event k s me) still (rw (length-count_event k s me) hs) in
    omega (arith, first, rest)

pub length-init : (n : ℕ) → length (init n).backends ≡ n
unfolding init
length-init n = length-replicate n zero_stats
