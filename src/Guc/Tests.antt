-- ===== src/Guc/Tests.antt =====
-- The hooks at concrete values.
use postfga.Prelude.{◌≡◌, refl, true, not, ◌||◌, some}
use postfga.Guc.{
  other_source, is_default, is_missing, validate_endpoint, validate_store_id, set_cache_size,
}
use postfga.Guc.Hooks.{has_message, hooks_disagree}
use postfga.Cache.Front.{CacheConfig}

abbrev config : CacheConfig
config = record { cache_enabled = true; cache_size = 32; cache_ttl_ms = 60000 }

hooks_disagree_example :
    ((validate_endpoint (some "") other_source).0 ≡ true)
    × (has_message (validate_endpoint (some "") other_source).1
        ≡ not (validate_store_id (some "") other_source).0)
    × ((validate_store_id (some "") other_source).0
        ≡ is_default other_source || not (is_missing (some "")))
hooks_disagree_example = hooks_disagree (some "") other_source

size_set : set_cache_size 32 other_source ≡ some 32
unfolding set_cache_size is_default
size_set = refl
