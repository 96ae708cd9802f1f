-- ===== src/Fdw/Import.antt =====
-- `fgaImportForeignSchema` of src/fdw/schema.c and the planner's callbacks of src/fdw/plan.c. A `StringInfo` is the
-- list of the texts that were appended to it, `quote_identifier` a parameter.
use Prim.Native.String.{String}
use postfga.Prelude.{ℕ, Bool, List, [], ◌∷◌, ◌++◌, ◌⊎◌, inl, inr, if◌then◌else◌}
use postfga.Fdw.{TableKind, unknown, acl, tuple, store}

pub record ImportStatement : Type 0 where
  pub local_schema : String
  pub server_name : String

module _ (quote_identifier : String → String) where
  -- The head of each statement, and its end with the kind.
  abbrev pub create_table : ImportStatement → String → List String
  create_table stmt name =
      "CREATE FOREIGN TABLE IF NOT EXISTS "
      ∷ quote_identifier stmt.local_schema
      ∷ "."
      ∷ quote_identifier name
      ∷ " ("
      ∷ []

  abbrev pub on_server : ImportStatement → String → List String
  on_server stmt kind =
      ") SERVER " ∷ quote_identifier stmt.server_name ∷ " OPTIONS (kind '" ∷ kind ∷ "');" ∷ []

  pub import_foreign_schema : ImportStatement → List (List String)
  import_foreign_schema stmt =
      (create_table stmt "fga_acl"
        ++ ("object_type text NOT NULL, "
            ∷ "object_id text NOT NULL, "
            ∷ "subject_type text NOT NULL, "
            ∷ "subject_id text NOT NULL, "
            ∷ "relation text NOT NULL, "
            ∷ "allow bool NOT NULL, "
            ∷ "evaluated_at timestamptz NOT NULL "
            ∷ on_server stmt "acl"))
      ∷ (create_table stmt "fga_store"
          ++ ("id text NOT NULL, "
              ∷ "name text NOT NULL, "
              ∷ "created_at timestamptz NOT NULL, "
              ∷ "updated_at timestamptz NOT NULL "
              ∷ on_server stmt "store"))
      ∷ (create_table stmt "fga_tuple"
          ++ ("object_type text NOT NULL, "
              ∷ "object_id text NOT NULL, "
              ∷ "subject_type text NOT NULL, "
              ∷ "subject_id text NOT NULL, "
              ∷ "relation text NOT NULL "
              ∷ on_server stmt "tuple"))
      ∷ []

pub data PlanError : Type 0 where
  full_scan_not_allowed : PlanError

-- `fgaGetForeignRelSize`: the estimate of the rows, or the error for a table of kind acl without a condition.
pub get_foreign_rel_size : TableKind → Bool → PlanError ⊎ ℕ
get_foreign_rel_size acl has_restriction =
    if has_restriction then inr 10000 else inl full_scan_not_allowed
get_foreign_rel_size tuple has_restriction = inr 10000
get_foreign_rel_size store has_restriction = inr 10000
get_foreign_rel_size unknown has_restriction = inr 100

-- The path of `fgaGetForeignPaths`.
pub record ForeignPath : Type 0 where
  pub rows : ℕ
  pub startup_cost : ℕ
  pub total_cost : ℕ

pub get_foreign_paths : ℕ → ForeignPath
get_foreign_paths rows = record { rows = rows; startup_cost = 0; total_cost = rows }
