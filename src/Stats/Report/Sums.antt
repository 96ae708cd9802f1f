-- ===== src/Stats/Report/Sums.antt =====
-- Sums of one counter over the blocks of all backends.
use postfga.Prelude.{sum, ℕ, ◌+◌, ◌≡◌, ◌∙◌, List, [], ◌∷◌, arith, u64}
use postfga.Stats.{BackendStats}
use postfga.Stats.Report.{Totals, add_backend, add_backends}

-- One of the totals is the sum of its counter, up to the width.
pub add_backends-sum :
    (f : Totals → ℕ) (g : BackendStats → ℕ)
    → ((t : Totals) (b : BackendStats) → f (add_backend t b) ≡ u64 (f t + g b))
    → (bs : List BackendStats) (t : Totals) → f t ≡ u64 (f t)
    → f (add_backends t bs) ≡ u64 (f t + sum g bs)
unfolding add_backends sum
add_backends-sum f g step [] t small = omega (arith, small)
add_backends-sum f g step (b ∷ bs) t small =
    add_backends-sum f g step bs (add_backend t b) (omega (arith, step t b))
    ∙ omega (arith, step t b)
