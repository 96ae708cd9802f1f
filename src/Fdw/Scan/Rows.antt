-- ===== src/Fdw/Scan/Rows.antt =====
-- Which rows a scan returns, and which tables make it write past its slot.
use postfga.Prelude.{
  ℕ, ◌+◌, ◌<◌, ◌≤◌, ◌≡◌, ◌↔◌, refl, Bool, true, false, List, ◌++◌, length, drop, replicate, arith,
}
use postfga.Fdw.{TableKind, unknown, acl, tuple, store}
use postfga.Fdw.Scan.{
  Datum, no_datum, begin_scan, rescan, columns, least_columns, finished, returned, overrun,
  fill_slot, is_unknown_kind, iterate, width,
}

length-columns : (kind : TableKind) (row now : ℕ) → length (columns kind row now) ≡ width kind
unfolding columns width
length-columns unknown row now = refl
length-columns tuple row now = ground arith
length-columns acl row now = ground arith
length-columns store row now = ground arith

least-le-width : (kind : TableKind) → least_columns kind ≤ width kind
unfolding least_columns width
least-le-width unknown = omega arith
least-le-width tuple = omega arith
least-le-width acl = omega arith
least-le-width store = omega arith

-- A row of a table of `natts` columns: those of its kind, and then columns that are `(Datum) 0`.
pub row_of : TableKind → ℕ → ℕ → ℕ → List Datum
row_of kind row natts now = columns kind row now ++ drop (width kind) (replicate natts no_datum)

iterate-row :
    (kind : TableKind) (row natts now : ℕ)
    → is_unknown_kind kind ≡ false
    → width kind ≤ natts
    → row < 2
    → iterate (record { kind = kind; row = row }) natts now
      ≡ (returned (row_of kind row natts now), record { kind = kind; row = row + 1 })
unfolding iterate fill_slot row_of
iterate-row kind row natts now k w r =
    rw (k, length-columns kind row now) (ground (arith, r, w, least-le-width kind))

iterate-finished :
    (kind : TableKind) (natts now : ℕ)
    → iterate (record { kind = kind; row = 2 }) natts now
      ≡ (finished, record { kind = kind; row = 2 })
unfolding iterate
iterate-finished kind natts now = refl

-- A scan of a known kind, over a table with all the columns that the code writes, returns the two rows of the
-- kind in order and then ends; after a rescan it starts again.
pub scan_two_rows :
    (kind : TableKind) (natts t0 t1 t2 : ℕ)
    → is_unknown_kind kind ≡ false
    → width kind ≤ natts
    → let (first, s1) = iterate (begin_scan kind) natts t0 in
      let (second, s2) = iterate s1 natts t1 in
      let (third, s3) = iterate s2 natts t2 in
      (first ≡ returned (row_of kind 0 natts t0))
      × (second ≡ returned (row_of kind 1 natts t1))
      × (third ≡ finished)
      × (rescan s3 ≡ begin_scan kind)
unfolding rescan
scan_two_rows kind natts t0 t1 t2 k w =
    rw
      (
        iterate-row kind 0 natts t0 k w (omega arith),
        iterate-row kind 1 natts t1 k w (omega arith),
        iterate-finished kind natts t2,
      )
      (refl, refl, refl, refl)

pub is_store : TableKind → Bool
is_store store = true
is_store unknown = false
is_store tuple = false
is_store acl = false

-- The code writes past the slot exactly at the first two rows of a scan of a table of kind `store` with two
-- or three columns.
pub overrun_iff :
    (kind : TableKind) (row natts now : ℕ)
    → ((iterate (record { kind = kind; row = row }) natts now).0 ≡ overrun)
      ↔ ((row < 2) × (is_store kind ≡ true) × (2 ≤ natts) × (natts < 4))
unfolding iterate fill_slot least_columns width is_store is_unknown_kind
overrun_iff unknown row natts now = ground arith
overrun_iff tuple row natts now = ground (arith, length-columns tuple row now)
overrun_iff acl row natts now = ground (arith, length-columns acl row now)
overrun_iff store row natts now = ground (arith, length-columns store row now)
