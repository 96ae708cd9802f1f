-- ===== src/Guc.antt =====
-- The settings of the extension, src/guc.c: the check hooks and the bounds that the settings are defined with.
-- A string is `none` for the null pointer. PostgreSQL calls a hook of a number after it has checked the bounds.
pub mod Hooks
mod Tests
use Prim.Native.String.{String}
use text.Mathlib.Text.{◌==◌}
use postfga.Prelude.{ℕ, Bool, true, false, Option, none, some, ltb, leb, ◌&&◌, ◌||◌, if◌then◌else◌}

-- The sources that the hooks tell apart, with all others as `other_source`.
pub data GucSource : Type 0 where
  default_source : GucSource
  dynamic_default_source : GucSource
  other_source : GucSource

unfoldable pub is_default : GucSource → Bool
is_default default_source = true
is_default dynamic_default_source = true
is_default other_source = false

pub is_missing : Option String → Bool
is_missing none = true
is_missing (some s) = s == ""

-- The argument is what `getenv` finds.
pub env_or_default : Option String → String → String
env_or_default none default_value = default_value
env_or_default (some val) default_value = if val == "" then default_value else val

-- A hook's result, and the message that it leaves for PostgreSQL.
pub validate_endpoint : Option String → GucSource → Bool × Option String
unfolding is_missing
validate_endpoint newval source =
    if is_default source
    then (true, none)
    else if is_missing newval
    then (true, some "postfga.endpoint must not be empty")
    else (true, none)

pub validate_store_id : Option String → GucSource → Bool × Option String
unfolding is_missing
validate_store_id newval source =
    if is_default source
    then (true, none)
    else if is_missing newval
    then (false, some "postfga.store_id must not be empty")
    else (true, none)

-- With the value that the hook leaves.
pub validate_cache_size : ℕ → GucSource → Bool × ℕ
validate_cache_size newval source =
    if is_default source then (true, newval) else (true, if ltb newval 1 then 1 else newval)

-- `DefineCustomIntVariable`: the value at the start, the bounds, and the setting by its name.
pub record IntVariable : Type 0 where
  pub name : String
  pub boot_value : ℕ
  pub min_value : ℕ
  pub max_value : ℕ

abbrev pub cache_size_variable : IntVariable
cache_size_variable = record {
  name = "fga.cache_size";
  boot_value = 32;
  min_value = 1;
  max_value = 1024;
}

abbrev pub cache_ttl_ms_variable : IntVariable
cache_ttl_ms_variable = record {
  name = "fga.cache_ttl_ms";
  boot_value = 60000;
  min_value = 1000;
  max_value = 3600000;
}

abbrev pub in_bounds : IntVariable → ℕ → Bool
in_bounds v n = leb v.min_value n && leb n v.max_value

-- How PostgreSQL sets a number: bounds first, then the hook; `none` is the refusal.
pub set_cache_size : ℕ → GucSource → Option ℕ
unfolding validate_cache_size
set_cache_size n source =
    if in_bounds cache_size_variable n then some (validate_cache_size n source).1 else none

pub set_cache_ttl_ms : ℕ → Option ℕ
set_cache_ttl_ms n = if in_bounds cache_ttl_ms_variable n then some n else none

-- `fga_guc_init`: the configuration that it leaves, from the environment.
pub record Config : Type 0 where
  pub endpoint : String
  pub store_id : String
  pub model_id : String
  pub cache_enabled : Bool
  pub cache_size : ℕ
  pub cache_ttl_ms : ℕ

pub guc_init : (String → Option String) → Config
unfolding env_or_default
guc_init getenv = record {
  endpoint = env_or_default (getenv "FGA_ENDPOINT") "";
  store_id = env_or_default (getenv "FGA_STORE_ID") "";
  model_id = env_or_default (getenv "FGA_MODEL_ID") "";
  cache_enabled = false;
  cache_size = cache_size_variable.boot_value;
  cache_ttl_ms = cache_ttl_ms_variable.boot_value;
}
