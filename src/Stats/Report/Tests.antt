-- ===== src/Stats/Report/Tests.antt =====
-- Two backends with three events.
use postfga.Prelude.{ℕ, ◌≡◌, true, List, [], ◌∷◌, arith}
use postfga.Stats.{init}
use postfga.Stats.Report.{rows, fga_stats}
use postfga.Stats.Report.Events.{Counted, hit_l1, miss_l1, hit_l2, happens}
use postfga.Stats.Report.Counts.{report_of, report_counts}

abbrev events : List (Counted × ℕ)
events = (miss_l1, 0) ∷ (hit_l2, 0) ∷ (hit_l1, 1) ∷ []

report_counts_example :
    fga_stats
      (record { is_set = true; materialize_allowed = true; is_composite = true })
      (happens events (init 2))
    ≡ rows (report_of events)
report_counts_example = report_counts 2 events (omega arith)
