-- ===== src/Guc/Hooks.antt =====
-- What the check hooks let through, and what the shared cache makes of it.
use Prim.Native.String.{String}
use native.Mathlib.Nat.{le-div_iff_mul-le, div-le_self, div-mul-le_self}
use postfga.Prelude.{
  ℕ, ◌*◌, ◌≤◌, ◌<◌, ◌≡◌, refl, Bool, true, false, Option, none, some, arith, Bool-cases, inl, inr,
  not, ◌||◌,
}
use postfga.Guc.{
  GucSource, is_missing, is_default, validate_endpoint, validate_store_id, validate_cache_size,
  set_cache_size,
}
use postfga.Cache.Front.{CacheConfig, l2_capacity_from_config}

pub has_message : Option String → Bool
has_message none = false
has_message (some message) = true

-- The two hooks on texts leave a message for the same values, an empty one that was really set, but only
-- the one on the store refuses them: `validate_endpoint` accepts everything.
pub hooks_disagree :
    (newval : Option String) (source : GucSource)
    → ((validate_endpoint newval source).0 ≡ true)
      × (has_message (validate_endpoint newval source).1 ≡ not (validate_store_id newval source).0)
      × ((validate_store_id newval source).0 ≡ is_default source || not (is_missing newval))
unfolding validate_endpoint validate_store_id has_message
hooks_disagree newval source = elim (Bool-cases (is_default source)) [
  | inl d ↦ rw d (refl, refl, refl)
  | inr d ↦ elim (Bool-cases (is_missing newval)) [
    | inl m ↦ rw (d, m) (refl, refl, refl)
    | inr m ↦ rw (d, m) (refl, refl, refl)
  ]
]

set_cache_size_bounds :
    (n size : ℕ) (source : GucSource)
    → set_cache_size n source ≡ some size
    → (1 ≤ size) × (size ≤ 1024)
unfolding set_cache_size validate_cache_size
set_cache_size_bounds n size source e = ground (arith, e)

-- Every size of the cache that can be set, with entries of at most one megabyte, gives the shared cache a
-- capacity of at least 1 that fits its `uint32` below UINT32_MAX, which stands for no slot; and the entries
-- fit in the memory that was asked for.
pub cache_size_capacity :
    (n size per : ℕ) (source : GucSource) (config : CacheConfig)
    → 0 < per
    → per ≤ 1048576
    → set_cache_size n source ≡ some size
    → config.cache_size ≡ size
    → let capacity = l2_capacity_from_config per config in
      (0 < capacity) × (capacity < 4294967295) × (capacity * per ≤ size * 1048576)
unfolding set_cache_size l2_capacity_from_config
cache_size_capacity n size per source config h k e c =
    let bounds : (1 ≤ size) × (size ≤ 1024) = set_cache_size_bounds n size source e in
    rw c (
      (le-div_iff_mul-le {k = per} {x = 1} {y = size * 1024 * 1024} h).1 (omega (arith, bounds, k)),
      omega (arith, bounds, div-le_self (size * 1024 * 1024) per),
      omega (arith, div-mul-le_self (size * 1024 * 1024) per),
    )
