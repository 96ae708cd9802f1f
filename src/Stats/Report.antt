-- ===== src/Stats/Report.antt =====
-- The report on the counters: `fga_stats` of src/func_stats.c. What it reads of the call is an argument.
pub mod Sums
pub mod Events
pub mod Counts
mod Tests
use Prim.Native.String.{String}
use postfga.Prelude.{
  ℤ, pos, negsuc, ℕ, ◌+◌, ◌-◌, Bool, true, false, Option, none, some, List, [], ◌∷◌, ltb, not, ◌||◌,
  if◌then◌else◌, u64,
}
use postfga.Stats.{BackendStats, Stats}

-- `Int64GetDatum` of a 64-bit number.
pub int64 : ℕ → ℤ
int64 n = if ltb n 9223372036854775808 then pos n else negsuc (18446744073709551615 - n)

pub record Row : Type 0 where
  pub section : String
  pub metric : String
  pub value : ℤ

-- The local variables of `backend_stats`.
pub record Totals : Type 0 where
  pub cache_l1_hits : ℕ
  pub cache_l1_misses : ℕ
  pub cache_l1_evictions : ℕ
  pub cache_l2_hits : ℕ
  pub cache_l2_misses : ℕ
  pub cache_l2_evictions : ℕ
  pub check_calls : ℕ
  pub check_allowed : ℕ
  pub check_denied : ℕ
  pub rpc_calls : ℕ
  pub rpc_errors : ℕ
  pub rpc_latency_sum : ℕ

abbrev pub zero_totals : Totals
zero_totals = record {
  cache_l1_hits = 0;
  cache_l1_misses = 0;
  cache_l1_evictions = 0;
  cache_l2_hits = 0;
  cache_l2_misses = 0;
  cache_l2_evictions = 0;
  check_calls = 0;
  check_allowed = 0;
  check_denied = 0;
  rpc_calls = 0;
  rpc_errors = 0;
  rpc_latency_sum = 0;
}

pub add_backend : Totals → BackendStats → Totals
add_backend t b = record {
  cache_l1_hits = u64 (t.cache_l1_hits + b.cache_l1_hits);
  cache_l1_misses = u64 (t.cache_l1_misses + b.cache_l1_misses);
  cache_l1_evictions = u64 (t.cache_l1_evictions + b.cache_l1_evictions);
  cache_l2_hits = u64 (t.cache_l2_hits + b.cache_l2_hits);
  cache_l2_misses = u64 (t.cache_l2_misses + b.cache_l2_misses);
  cache_l2_evictions = u64 (t.cache_l2_evictions + b.cache_l2_evictions);
  check_calls = u64 (t.check_calls + b.check_calls);
  check_allowed = u64 (t.check_allowed + b.check_allowed);
  check_denied = u64 (t.check_denied + b.check_denied);
  rpc_calls = u64 (t.rpc_calls + b.rpc_check_calls);
  rpc_errors = u64 (t.rpc_errors + b.rpc_check_error);
  rpc_latency_sum = u64 (t.rpc_latency_sum + b.rpc_check_latency_sum_us);
}

-- The loop over the backends.
pub add_backends : Totals → List BackendStats → Totals
unfolding add_backend
add_backends t [] = t
add_backends t (b ∷ bs) = add_backends (add_backend t b) bs

abbrev row : String → String → ℕ → Row
row section metric value = record { section = section; metric = metric; value = int64 value }

pub rows_of : Totals → List Row
unfolding int64
rows_of t =
    row "cache.l1" "hits" t.cache_l1_hits
    ∷ row "cache.l1" "misses" t.cache_l1_misses
    ∷ row "cache.l1" "evictions" t.cache_l1_evictions
    ∷ row "cache.l2" "hits" t.cache_l2_hits
    ∷ row "cache.l2" "misses" t.cache_l2_misses
    ∷ row "cache.l2" "evictions" t.cache_l2_evictions
    ∷ row "check" "calls" t.check_calls
    ∷ row "check" "allowed" t.check_allowed
    ∷ row "check" "denied" t.check_denied
    ∷ row "rpc" "calls" t.rpc_calls
    ∷ row "rpc" "errors" t.rpc_errors
    ∷ row "rpc" "latency_sum_us" t.rpc_latency_sum
    ∷ []

pub backend_stats : Stats → List Row
unfolding add_backends rows_of
backend_stats s = rows_of (add_backends zero_totals s.backends)

-- How the function was called.
pub record ReturnSetInfo : Type 0 where
  pub is_set : Bool
  pub materialize_allowed : Bool
  pub is_composite : Bool

pub data Report : Type 0 where
  set_not_accepted : Report
  materialize_required : Report
  not_a_row_type : Report
  rows : List Row → Report

pub fga_stats : ReturnSetInfo → Stats → Report
unfolding backend_stats
fga_stats rsinfo s =
    if not rsinfo.is_set
    then set_not_accepted
    else if not rsinfo.materialize_allowed
    then materialize_required
    else if not rsinfo.is_composite
    then not_a_row_type
    else rows (backend_stats s)
