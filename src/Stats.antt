-- ===== src/Stats.antt =====
-- src/stats.h and src/stats.c: the shared statistics, with one block of counters for each backend.
pub mod Counting
pub mod Report
use postfga.Prelude.{
  ℕ, zero, suc, ◌+◌, Option, none, some, List, [], ◌∷◌, replicate, get_or, set, u64,
}

pub record BackendStats : Type 0 where
  pub check_calls : ℕ
  pub check_allowed : ℕ
  pub check_denied : ℕ
  pub check_error : ℕ
  pub cache_l1_hits : ℕ
  pub cache_l1_misses : ℕ
  pub cache_l1_evictions : ℕ
  pub cache_l2_hits : ℕ
  pub cache_l2_misses : ℕ
  pub cache_l2_evictions : ℕ
  pub rpc_check_calls : ℕ
  pub rpc_check_error : ℕ
  pub rpc_check_latency_sum_us : ℕ

abbrev pub zero_stats : BackendStats
zero_stats = record {
  check_calls = 0;
  check_allowed = 0;
  check_denied = 0;
  check_error = 0;
  cache_l1_hits = 0;
  cache_l1_misses = 0;
  cache_l1_evictions = 0;
  cache_l2_hits = 0;
  cache_l2_misses = 0;
  cache_l2_evictions = 0;
  rpc_check_calls = 0;
  rpc_check_error = 0;
  rpc_check_latency_sum_us = 0;
}

-- The counters of the cache, the worker and the queue are only ever initialised.
pub record Stats : Type 0 where
  pub cache_entries : ℕ
  pub cache_hits : ℕ
  pub cache_misses : ℕ
  pub cache_evictions : ℕ
  pub bgw_wakeups : ℕ
  pub requests_enqueued : ℕ
  pub requests_processed : ℕ
  pub backends : List BackendStats

-- `fga_stats_shmem_init`
pub init : ℕ → Stats
init max_backends = record {
  cache_entries = 0;
  cache_hits = 0;
  cache_misses = 0;
  cache_evictions = 0;
  bgw_wakeups = 0;
  requests_enqueued = 0;
  requests_processed = 0;
  backends = replicate max_backends zero_stats;
}

-- `backend_stats` and an update of what it points to; `none` is INVALID_PROC_NUMBER.
abbrev count : (BackendStats → BackendStats) → Stats → Option ℕ → Stats
count f s none = s
count f s (some me) = record s {
  backends = set s.backends me (f (get_or s.backends me zero_stats));
}

pub l1_hit : Stats → Option ℕ → Stats
l1_hit = count (λ b. record b { cache_l1_hits = u64 (b.cache_l1_hits + 1) })

pub l1_miss : Stats → Option ℕ → Stats
l1_miss = count (λ b. record b { cache_l1_misses = u64 (b.cache_l1_misses + 1) })

pub l1_eviction : Stats → Option ℕ → Stats
l1_eviction = count (λ b. record b { cache_l1_evictions = u64 (b.cache_l1_evictions + 1) })

pub l2_hit : Stats → Option ℕ → Stats
l2_hit = count (λ b. record b { cache_l2_hits = u64 (b.cache_l2_hits + 1) })

pub l2_miss : Stats → Option ℕ → Stats
l2_miss = count (λ b. record b { cache_l2_misses = u64 (b.cache_l2_misses + 1) })

pub l2_eviction : Stats → Option ℕ → Stats
l2_eviction = count (λ b. record b { cache_l2_evictions = u64 (b.cache_l2_evictions + 1) })
