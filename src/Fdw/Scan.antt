-- ===== src/Fdw/Scan.antt =====
-- The scan of a foreign table, src/fdw/exec.c, which returns two fixed rows of each kind.
pub mod Rows
use Prim.Native.String.{String}
use postfga.Prelude.{
  ℕ, zero, suc, ◌+◌, Bool, true, false, List, [], ◌∷◌, length, replicate, drop, ◌++◌, take, ltb,
  leb, ◌==◌, if◌then◌else◌,
}
use postfga.Fdw.{TableKind, unknown, acl, tuple, store}

-- What a column is given; `no_datum` is `(Datum) 0`.
pub data Datum : Type 0 where
  no_datum : Datum
  text_datum : String → Datum
  bool_datum : Bool → Datum
  timestamp_datum : ℕ → Datum

pub record ExecState : Type 0 where
  pub kind : TableKind
  pub row : ℕ

abbrev pub begin_scan : TableKind → ExecState
begin_scan kind = record { kind = kind; row = 0 }

-- `fgaReScanForeignScan`
pub rescan : ExecState → ExecState
rescan estate = record estate { row = 0 }

abbrev relationship : String → String → List Datum
relationship object_id subject_id =
    text_datum "doc"
    ∷ text_datum object_id
    ∷ text_datum "user"
    ∷ text_datum subject_id
    ∷ text_datum "viewer"
    ∷ []

-- The columns that the code assigns, from the first on.
pub columns : TableKind → ℕ → ℕ → List Datum
columns unknown row now = []
columns tuple row now =
    if row == 0 then relationship "doc:1" "user:1" else relationship "doc:2" "user:2"
columns acl row now =
    if row == 0
    then relationship "doc:1" "user:1" ++ (bool_datum true ∷ timestamp_datum now ∷ [])
    else relationship "doc:2" "user:2" ++ (bool_datum false ∷ timestamp_datum now ∷ [])
columns store row now =
    if row == 0
    then text_datum "store:1"
      ∷ text_datum "First Store"
      ∷ timestamp_datum now
      ∷ timestamp_datum now
      ∷ []
    else text_datum "store:2"
      ∷ text_datum "Second Store"
      ∷ timestamp_datum now
      ∷ timestamp_datum now
      ∷ []

-- The columns that the code asks of the table.
pub least_columns : TableKind → ℕ
least_columns unknown = 0
least_columns tuple = 5
least_columns acl = 7
least_columns store = 2

-- `overrun` says that the code wrote past the `natts` columns of the slot.
pub data Iterated : Type 0 where
  finished : Iterated
  returned : List Datum → Iterated
  overrun : Iterated
  too_few_columns : Iterated
  unknown_kind : Iterated

-- The assigned columns over `natts` columns that all held `(Datum) 0`.
pub fill_slot : ℕ → List Datum → Iterated
fill_slot natts values =
    if ltb natts (length values)
    then overrun
    else returned (values ++ drop (length values) (replicate natts no_datum))

unfoldable pub is_unknown_kind : TableKind → Bool
is_unknown_kind unknown = true
is_unknown_kind tuple = false
is_unknown_kind acl = false
is_unknown_kind store = false

-- `fgaIterateForeignScan` at the time `now`.
pub iterate : ExecState → ℕ → ℕ → Iterated × ExecState
unfolding columns least_columns fill_slot is_unknown_kind
iterate estate natts now =
    if leb 2 estate.row
    then (finished, estate)
    else if is_unknown_kind estate.kind
    then (unknown_kind, estate)
    else if ltb natts (least_columns estate.kind)
    then (too_few_columns, estate)
    else (
      fill_slot natts (columns estate.kind estate.row now),
      record estate { row = estate.row + 1 },
    )

-- The columns that the code writes for a kind.
unfoldable pub width : TableKind → ℕ
width unknown = 0
width tuple = 5
width acl = 7
width store = 4
