-- ===== src/Fdw/Tests.antt =====
-- The options of a foreign table at concrete lists.
use text.Mathlib.Text.{◌==◌}
use text.Mathlib.TextPositions.{eq_refl}
use postfga.Prelude.{
  true, ◌<◌, ◌≤◌, ◌↔◌, ◌≡◌, ◌≢◌, refl, ◌&&◌, some, none, false, List, [], ◌∷◌, inl, inr,
  if◌then◌else◌,
}
use postfga.Fdw.Scan.{begin_scan, iterate, overrun}
use postfga.Fdw.Scan.Rows.{is_store, overrun_iff}
use postfga.Fdw.{
  store, Def, required, invalid_option, is_unknown, is_blank, needs_store, get_table_options,
  validator, foreign_server, foreign_table,
}
use postfga.Fdw.Options.{options_of, validated_options}

abbrev server : List Def
server = ("endpoint", "dns:///openfga:8081") ∷ ("store_id", "s1") ∷ []

abbrev table : List Def
table = ("kind", "acl") ∷ ("store_id", "s2") ∷ []

-- `fga_get_table_options` reads an endpoint of the table, which the validator does not let through.
endpoint_of_table :
    validator (("kind", "acl") ∷ ("endpoint", "x") ∷ []) foreign_table
    ≡ some (invalid_option "endpoint")
unfolding validator
endpoint_of_table = refl

server_accepted : validator server foreign_server ≡ none
unfolding validator
server_accepted = refl

table_accepted : validator table foreign_table ≡ none
unfolding validator
table_accepted = refl

validated_options_example :
    let opts = options_of ◌==◌ server table in
    (is_unknown opts.kind ≡ false)
    × (opts.endpoint ≢ none)
    × (get_table_options ◌==◌ server table ≡ (
        if is_blank opts.endpoint
        then inl (required "endpoint")
        else if needs_store opts.kind && is_blank opts.store_id
        then inl (required "store_id")
        else inr opts))
validated_options_example =
    validated_options ◌==◌ eq_refl server table server_accepted table_accepted

overrun_iff_example :
    ((iterate (begin_scan store) 2 1000).0 ≡ overrun)
    ↔ ((0 < 2) × (is_store store ≡ true) × (2 ≤ 2) × (2 < 4))
overrun_iff_example = overrun_iff store 0 2 1000
