-- ===== src/Fdw.antt =====
-- The options of the foreign data wrapper: src/fdw/fdw.h, src/fdw/validator.c and src/fdw/options.c. An
-- option is a name and a value; PostgreSQL gives every option of its catalogs a value. The lists are what
-- `GetForeignServer` and `GetForeignTable` find, and `pg_strcasecmp` is a parameter.
pub mod Options
pub mod Scan
pub mod Import
mod Tests
use Prim.Native.String.{String}
use text.Mathlib.Text.{◌==◌}
use postfga.Prelude.{
  ℕ, ◌⊎◌, inl, inr, Bool, true, false, not, ◌&&◌, Option, none, some, List, [], ◌∷◌, if◌then◌else◌,
}

pub data TableKind : Type 0 where
  unknown : TableKind
  acl : TableKind
  tuple : TableKind
  store : TableKind

-- A null pointer is `none`.
pub record TableOptions : Type 0 where
  pub kind : TableKind
  pub endpoint : Option String
  pub store_id : Option String
  pub auth_model_id : Option String

abbrev pub Def : Type 0
Def = String × String

pub data OptionError : Type 0 where
  invalid_option : String → OptionError
  invalid_kind : String → OptionError
  required : String → OptionError
  unexpected_catalog : ℕ → OptionError

-- The loops of the three validators; `none` is the end without an error.
pub validate_server : List Def → Bool → Option OptionError
validate_server [] endpoint_seen = if endpoint_seen then none else some (required "endpoint")
validate_server ((name, value) ∷ options) endpoint_seen =
    let seen = validate_server options true in
    let rest = validate_server options endpoint_seen in
    if name == "endpoint"
    then seen
    else if name == "store_id"
    then rest
    else if name == "auth_model_id"
    then rest
    else some (invalid_option name)

pub validate_user_mapping : List Def → Option OptionError
validate_user_mapping [] = none
validate_user_mapping ((name, value) ∷ options) =
    let rest = validate_user_mapping options in
    if name == "bearer_token" then rest else some (invalid_option name)

pub validate_table : List Def → Bool → Option OptionError
validate_table [] kind_seen = if kind_seen then none else some (required "kind")
validate_table ((name, value) ∷ options) kind_seen =
    let seen = validate_table options true in
    let rest = validate_table options kind_seen in
    if name == "kind"
    then (if not (value == "acl") && not (value == "store") && not (value == "tuple")
        then some (invalid_kind value)
        else seen)
    else if name == "store_id"
    then rest
    else if name == "auth_model_id"
    then rest
    else some (invalid_option name)

-- The catalogs by the names of their OIDs.
pub data Catalog : Type 0 where
  foreign_server : Catalog
  user_mapping : Catalog
  foreign_table : Catalog
  foreign_data_wrapper : Catalog
  other_catalog : ℕ → Catalog

-- `fga_fdw_validator`
pub validator : List Def → Catalog → Option OptionError
unfolding validate_server validate_user_mapping validate_table
validator options foreign_server = validate_server options false
validator options user_mapping = validate_user_mapping options
validator options foreign_table = validate_table options false
validator options foreign_data_wrapper = none
validator options (other_catalog oid) = some (unexpected_catalog oid)

pub is_blank : Option String → Bool
is_blank none = true
is_blank (some str) = str == ""

unfoldable pub needs_store : TableKind → Bool
needs_store acl = true
needs_store tuple = true
needs_store store = false
needs_store unknown = false

abbrev pub no_options : TableOptions
no_options = record { kind = unknown; endpoint = none; store_id = none; auth_model_id = none }

unfoldable pub is_unknown : TableKind → Bool
is_unknown unknown = true
is_unknown acl = false
is_unknown tuple = false
is_unknown store = false

-- `pg_strcasecmp(a, b) == 0`
module _ (same_text : String → String → Bool) where
  pub parse_table_kind : String → TableKind
  parse_table_kind val =
      if same_text val "acl"
      then acl
      else if same_text val "tuple"
      then tuple
      else if same_text val "store"
      then store
      else unknown

  -- The two loops of `fga_get_table_options`.
  pub read_server : TableOptions → List Def → TableOptions
  read_server opts [] = opts
  read_server opts ((name, value) ∷ options) =
      read_server
        (if name == "endpoint"
          then record opts { endpoint = some value }
          else if name == "store_id"
          then record opts { store_id = some value }
          else if name == "auth_model_id"
          then record opts { auth_model_id = some value }
          else opts)
        options

  pub read_table : TableOptions → List Def → TableOptions
  unfolding parse_table_kind
  read_table opts [] = opts
  read_table opts ((name, value) ∷ options) =
      read_table
        (if name == "kind"
          then record opts { kind = parse_table_kind value }
          else if name == "endpoint"
          then record opts { endpoint = some value }
          else if name == "store_id"
          then record opts { store_id = some value }
          else if name == "auth_model_id"
          then record opts { auth_model_id = some value }
          else opts)
        options

  -- `fga_get_table_options` of a table with the options `ft` on a server with the options `fs`.
  pub get_table_options : List Def → List Def → OptionError ⊎ TableOptions
  unfolding read_server read_table is_blank needs_store is_unknown
  get_table_options fs ft =
      let opts = read_table (read_server no_options fs) ft in
      if is_unknown opts.kind
      then inl (required "kind")
      else if is_blank opts.endpoint
      then inl (required "endpoint")
      else if needs_store opts.kind && is_blank opts.store_id
      then inl (required "store_id")
      else inr opts
