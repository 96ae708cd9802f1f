-- ===== src/Stats/Counting.antt =====
-- Who is counted: an event of one backend shows in that backend's block alone.
use native.Mathlib.Decide.{ℕ_discrete}
use postfga.Prelude.{
  ℕ, ◌<◌, ◌≡◌, List, length, get_or, set, get_or-set_self, get_or-set_ne, ◌==◌, if◌then◌else◌,
  ==_refl, arith,
}
use postfga.Stats.{BackendStats, Stats, zero_stats}

-- The block of a backend.
abbrev pub block : Stats → ℕ → BackendStats
block s i = get_or s.backends i zero_stats

pub block-set :
    (xs : List BackendStats) (i j : ℕ) (b : BackendStats)
    → i < length xs
    → get_or (set xs i b) j zero_stats ≡ (if i == j then b else get_or xs j zero_stats)
block-set xs i j b h = elim (ℕ_discrete i j) [
  | yes same ↦ rw (← same, get_or-set_self xs i b zero_stats h, ==_refl i)
  | no ne ↦ rw (get_or-set_ne xs i j b zero_stats ne) (ground arith)
]
