-- ===== src/Fdw/Options.antt =====
-- What the wrapper makes of options that its validator let pass.
use Prim.Native.String.{String}
use text.Mathlib.Text.{◌==◌}
use text.Mathlib.TextEquality.{eq_iff}
use postfga.Prelude.{
  ◌≡◌, ◌≢◌, ◌⊎◌, refl, ap, ◌∙◌, Bool, true, false, ◌&&◌, Option, none, some, List, [], ◌∷◌,
  if◌then◌else◌, inl, inr, arith, Bool-cases,
}
use postfga.Fdw.{
  foreign_server, foreign_table, validator, TableKind, unknown, TableOptions, Def, required,
  validate_server, validate_table, parse_table_kind, read_server, read_table, no_options,
  is_unknown, needs_store, is_blank, get_table_options,
}

-- The value of an option: where it stands twice, the last one.
pub last_value : Option String → String → List Def → Option String
last_value found name [] = found
last_value found name ((n, value) ∷ options) =
    let here = last_value (some value) name options in
    let rest = last_value found name options in if n == name then here else rest

module _ (same_text : String → String → Bool) where
  -- The two loops take the last value of each option, and the table's before the server's.
  read_server_lem :
      (opts : TableOptions) (fs : List Def)
      → read_server same_text opts fs ≡ record opts {
        endpoint = last_value opts.endpoint "endpoint" fs;
        store_id = last_value opts.store_id "store_id" fs;
        auth_model_id = last_value opts.auth_model_id "auth_model_id" fs;
      }
  unfolding read_server last_value
  read_server_lem opts [] = refl
  read_server_lem opts ((name, value) ∷ fs) = elim (Bool-cases (name == "endpoint")) [
    | inl e ↦ rw ((eq_iff name "endpoint").0 e) (read_server_lem _ fs)
    | inr e ↦ elim (Bool-cases (name == "store_id")) [
      | inl s ↦ rw ((eq_iff name "store_id").0 s) (read_server_lem _ fs)
      | inr s ↦ elim (Bool-cases (name == "auth_model_id")) [
        | inl m ↦ rw ((eq_iff name "auth_model_id").0 m) (read_server_lem _ fs)
        | inr m ↦ rw (e, s, m) (read_server_lem _ fs)
      ]
    ]
  ]

  pub last_kind : TableKind → List Def → TableKind
  last_kind found [] = found
  last_kind found ((n, value) ∷ options) =
      let here = last_kind (parse_table_kind same_text value) options in
      let rest = last_kind found options in if n == "kind" then here else rest

  read_table_lem :
      (ft : List Def) (opts : TableOptions)
      → read_table same_text opts ft ≡ record {
        kind = last_kind opts.kind ft;
        endpoint = last_value opts.endpoint "endpoint" ft;
        store_id = last_value opts.store_id "store_id" ft;
        auth_model_id = last_value opts.auth_model_id "auth_model_id" ft;
      }
  unfolding read_table last_value last_kind
  read_table_lem [] opts = refl
  read_table_lem ((name, value) ∷ ft) opts = elim (Bool-cases (name == "kind")) [
    | inl k ↦ rw ((eq_iff name "kind").0 k) (read_table_lem ft _)
    | inr k ↦ elim (Bool-cases (name == "endpoint")) [
      | inl e ↦ rw ((eq_iff name "endpoint").0 e) (read_table_lem ft _)
      | inr e ↦ elim (Bool-cases (name == "store_id")) [
        | inl s ↦ rw ((eq_iff name "store_id").0 s) (read_table_lem ft _)
        | inr s ↦ elim (Bool-cases (name == "auth_model_id")) [
          | inl m ↦ rw ((eq_iff name "auth_model_id").0 m) (read_table_lem ft _)
          | inr m ↦ rw (k, e, s, m) (read_table_lem ft _)
        ]
      ]
    ]
  ]

  -- The options by what the two lists say last: the table's before the server's.
  abbrev pub options_of : List Def → List Def → TableOptions
  options_of fs ft = record {
    kind = last_kind unknown ft;
    endpoint = last_value (last_value none "endpoint" fs) "endpoint" ft;
    store_id = last_value (last_value none "store_id" fs) "store_id" ft;
    auth_model_id = last_value (last_value none "auth_model_id" fs) "auth_model_id" ft;
  }

  read_options :
      (fs ft : List Def)
      → read_table same_text (read_server same_text no_options fs) ft ≡ options_of fs ft
  read_options fs ft =
      read_table_lem ft (read_server same_text no_options fs)
      ∙ ap
          (λ (o : TableOptions). record {
            kind = last_kind o.kind ft;
            endpoint = last_value o.endpoint "endpoint" ft;
            store_id = last_value o.store_id "store_id" ft;
            auth_model_id = last_value o.auth_model_id "auth_model_id" ft;
          })
          (read_server_lem no_options fs)

-- An endpoint once found stays.
given :
    (found : Option String) (name : String) (options : List Def)
    → found ≢ none
    → last_value found name options ≢ none
unfolding last_value
given found name [] h = h
given found name ((n, value) ∷ options) h = elim (Bool-cases (n == name)) [
  | inl e ↦ rw e (given (some value) name options (λ p. absurd (cc)))
  | inr e ↦ rw e (given found name options h)
]

validated_endpoint :
    (found : Option String) (fs : List Def) (seen : Bool)
    → validate_server fs seen ≡ none
    → (seen ≡ true → found ≢ none)
    → last_value found "endpoint" fs ≢ none
unfolding validate_server last_value
validated_endpoint found [] true v h = h refl
validated_endpoint found [] false v h = absurd (cc)
validated_endpoint found ((name, value) ∷ fs) seen v h = elim (Bool-cases (name == "endpoint")) [
  | inl e ↦ rw e (validated_endpoint (some value) fs true (rw e at v) (λ q p. absurd (cc)))
  | inr e ↦ elim (Bool-cases (name == "store_id")) [
    | inl s ↦ rw e (validated_endpoint found fs seen (rw (e, s) at v) h)
    | inr s ↦ elim (Bool-cases (name == "auth_model_id")) [
      | inl m ↦ rw e (validated_endpoint found fs seen (rw (e, s, m) at v) h)
      | inr m ↦ let w = rw (e, s, m) at v in absurd (cc)
    ]
  ]
]

module _ (same_text : String → String → Bool)
    (same_text_refl : (s : String) → same_text s s ≡ true) where
  known_kind :
      (value : String)
      → ((value == "acl") ≡ true) ⊎ (((value == "store") ≡ true) ⊎ ((value == "tuple") ≡ true))
      → is_unknown (parse_table_kind same_text value) ≡ false
  unfolding parse_table_kind is_unknown
  known_kind value (inl e) = rw ((eq_iff value "acl").0 e) (ground (arith, same_text_refl "acl"))
  known_kind value (inr (inl e)) =
      rw ((eq_iff value "store").0 e) (ground (arith, same_text_refl "store"))
  known_kind value (inr (inr e)) =
      rw ((eq_iff value "tuple").0 e) (ground (arith, same_text_refl "tuple"))

  validated_kind :
      (ft : List Def) (found : TableKind) (seen : Bool)
      → validate_table ft seen ≡ none
      → (seen ≡ true → is_unknown found ≡ false)
      → is_unknown (last_kind same_text found ft) ≡ false
  unfolding validate_table last_kind
  validated_kind [] found true v h = h refl
  validated_kind [] found false v h = absurd (cc)
  validated_kind ((name, value) ∷ ft) found seen v h = elim (Bool-cases (name == "kind")) [
    | inl e ↦ rw e (elim (Bool-cases (value == "acl")) [
      | inl a ↦ validated_kind ft _ true (rw (e, a) at v) (λ p. known_kind value (inl a))
      | inr a ↦ elim (Bool-cases (value == "store")) [
        | inl s ↦ validated_kind ft _ true (rw (e, a, s) at v) (λ p. known_kind value (inr (inl s)))
        | inr s ↦ elim (Bool-cases (value == "tuple")) [
          | inl u ↦
              validated_kind ft _ true (rw (e, a, s, u) at v) (λ p. known_kind value (inr (inr u)))
          | inr u ↦ let w = rw (e, a, s, u) at v in absurd (cc)
        ]
      ]
    ])
    | inr e ↦ rw e (elim (Bool-cases (name == "store_id")) [
      | inl s ↦ validated_kind ft found seen (rw (e, s) at v) h
      | inr s ↦ elim (Bool-cases (name == "auth_model_id")) [
        | inl m ↦ validated_kind ft found seen (rw (e, s, m) at v) h
        | inr m ↦ let w = rw (e, s, m) at v in absurd (cc)
      ]
    ])
  ]

  -- When `fga_fdw_validator` accepts the options of a server and those of a table on it,
  -- `fga_get_table_options` finds a known kind and an endpoint, and takes of each option the last value,
  -- the table's before the server's. It can fail only for an empty endpoint, or for a missing or empty store
  -- of a kind that needs one. `pg_strcasecmp` is assumed to find a text equal to itself.
  pub validated_options :
      (fs ft : List Def)
      → validator fs foreign_server ≡ none
      → validator ft foreign_table ≡ none
      → let opts = options_of same_text fs ft in
        (is_unknown opts.kind ≡ false)
        × (opts.endpoint ≢ none)
        × (get_table_options same_text fs ft ≡ (
            if is_blank opts.endpoint
            then inl (required "endpoint")
            else if needs_store opts.kind && is_blank opts.store_id
            then inl (required "store_id")
            else inr opts))
  unfolding validator get_table_options
  validated_options fs ft v w =
      let kind = validated_kind ft unknown false w (λ p. absurd (cc)) in
      let endpoint =
        given _ "endpoint" ft (validated_endpoint none fs false v (λ p. absurd (cc))) in
      (kind, endpoint, rw (read_options same_text fs ft) (rw kind refl))
