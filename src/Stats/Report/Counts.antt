-- ===== src/Stats/Report/Counts.antt =====
-- What the report says after any run of the backends.
use Prim.Native.String.{String}
use postfga.Prelude.{
  sum-replicate, ℕ, ◌+◌, ◌≡◌, refl, ap, ◌∙◌, true, List, [], ◌∷◌, length, arith, u64,
}
use postfga.Stats.{BackendStats, zero_stats, init}
use postfga.Stats.Report.{
  Totals, zero_totals, add_backend, add_backends, Row, int64, rows_of, backend_stats, rows,
  fga_stats,
}
use postfga.Stats.Report.Sums.{add_backends-sum}
use postfga.Stats.Report.Events.{
  Counted, hit_l1, miss_l1, eviction_l1, hit_l2, miss_l2, eviction_l2, counter, bump,
  counter-happens, idle-happens, length-init, happens, AllBelow, number,
}

-- What the totals are after it.
abbrev counted : List (Counted × ℕ) → Totals
counted events = record zero_totals {
  cache_l1_hits = u64 (number hit_l1 events);
  cache_l1_misses = u64 (number miss_l1 events);
  cache_l1_evictions = u64 (number eviction_l1 events);
  cache_l2_hits = u64 (number hit_l2 events);
  cache_l2_misses = u64 (number miss_l2 events);
  cache_l2_evictions = u64 (number eviction_l2 events);
}

-- The report that a run should have: a line for each kind of event, and for what is never counted.
abbrev line : String → String → ℕ → Row
line section metric n = record { section = section; metric = metric; value = int64 (u64 n) }

abbrev pub report_of : List (Counted × ℕ) → List Row
report_of events =
    line "cache.l1" "hits" (number hit_l1 events)
    ∷ line "cache.l1" "misses" (number miss_l1 events)
    ∷ line "cache.l1" "evictions" (number eviction_l1 events)
    ∷ line "cache.l2" "hits" (number hit_l2 events)
    ∷ line "cache.l2" "misses" (number miss_l2 events)
    ∷ line "cache.l2" "evictions" (number eviction_l2 events)
    ∷ line "check" "calls" 0
    ∷ line "check" "allowed" 0
    ∷ line "check" "denied" 0
    ∷ line "rpc" "calls" 0
    ∷ line "rpc" "errors" 0
    ∷ line "rpc" "latency_sum_us" 0
    ∷ []

module _ (n : ℕ) (events : List (Counted × ℕ)) (inside : AllBelow n events) where
  started : AllBelow (length (init n).backends) events
  started = rw (length-init n) inside

  totals : Totals
  totals = add_backends zero_totals (happens events (init n)).backends

  total-counter :
      (f : Totals → ℕ) (c : Counted)
      → ((t : Totals) (b : BackendStats) → f (add_backend t b) ≡ u64 (f t + counter c b))
      → f zero_totals ≡ 0
      → f totals ≡ u64 (number c events)
  unfolding totals init
  total-counter f c step none_yet =
      add_backends-sum f (counter c) step (happens events (init n)).backends zero_totals
        (omega (arith, none_yet))
      ∙ omega (
        arith,
        none_yet,
        counter-happens c events (init n) started,
        sum-replicate (counter c) n zero_stats (ground arith),
      )

  total-idle :
      (f : Totals → ℕ) (g : BackendStats → ℕ)
      → ((t : Totals) (b : BackendStats) → f (add_backend t b) ≡ u64 (f t + g b))
      → f zero_totals ≡ 0
      → g zero_stats ≡ 0
      → ((k : Counted) (b : BackendStats) → g (bump k b) ≡ g b)
      → f totals ≡ 0
  unfolding totals init
  total-idle f g step none_yet none_counted still =
      add_backends-sum f g step (happens events (init n)).backends zero_totals
        (omega (arith, none_yet))
      ∙ omega (
        arith,
        none_yet,
        idle-happens g events (init n) still started,
        sum-replicate g n zero_stats none_counted,
      )

  totals_lem : totals ≡ counted events
  unfolding add_backend
  totals_lem = λ i. record {
    cache_l1_hits = total-counter (λ t. t.cache_l1_hits) hit_l1 (λ t b. refl) refl i;
    cache_l1_misses = total-counter (λ t. t.cache_l1_misses) miss_l1 (λ t b. refl) refl i;
    cache_l1_evictions = total-counter (λ t. t.cache_l1_evictions) eviction_l1 (λ t b. refl) refl i;
    cache_l2_hits = total-counter (λ t. t.cache_l2_hits) hit_l2 (λ t b. refl) refl i;
    cache_l2_misses = total-counter (λ t. t.cache_l2_misses) miss_l2 (λ t b. refl) refl i;
    cache_l2_evictions = total-counter (λ t. t.cache_l2_evictions) eviction_l2 (λ t b. refl) refl i;
    check_calls =
        total-idle (λ t. t.check_calls) (λ b. b.check_calls) (λ t b. refl) refl refl
          (λ k b. ground arith) i;
    check_allowed =
        total-idle (λ t. t.check_allowed) (λ b. b.check_allowed) (λ t b. refl) refl refl
          (λ k b. ground arith) i;
    check_denied =
        total-idle (λ t. t.check_denied) (λ b. b.check_denied) (λ t b. refl) refl refl
          (λ k b. ground arith) i;
    rpc_calls =
        total-idle (λ t. t.rpc_calls) (λ b. b.rpc_check_calls) (λ t b. refl) refl refl
          (λ k b. ground arith) i;
    rpc_errors =
        total-idle (λ t. t.rpc_errors) (λ b. b.rpc_check_error) (λ t b. refl) refl refl
          (λ k b. ground arith) i;
    rpc_latency_sum =
        total-idle (λ t. t.rpc_latency_sum) (λ b. b.rpc_check_latency_sum_us) (λ t b. refl) refl
          refl (λ k b. ground arith) i;
  }

  -- The report of `fga_stats` after any run of `n` backends from the initialisation of their counters: under each
  -- hit, miss and eviction of a cache the number of such events in the run, of all backends together, up to the
  -- width of 64 bits and read as a signed number; under everything else 0.
  pub report_counts :
      fga_stats
        (record { is_set = true; materialize_allowed = true; is_composite = true })
        (happens events (init n))
      ≡ rows (report_of events)
  unfolding fga_stats backend_stats rows_of totals
  report_counts = ap rows (ap rows_of totals_lem)
