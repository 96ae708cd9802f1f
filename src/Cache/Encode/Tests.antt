-- ===== src/Cache/Encode/Tests.antt =====
-- The bytes of one request, and the laws of the encoding at it.
use postfga.Prelude.{ℕ, ◌≤◌, ◌≡◌, refl, none, some, List, [], ◌∷◌, length, arith}
use postfga.Cache.Key.{Key}
use postfga.Cache.Encode.{KeyArgs, key_bytes, cache_key}
use postfga.Cache.Encode.Laws.{PassesAsserts, fields, key_bytes-injective, cache_key_separates}

abbrev request : KeyArgs
request = record {
  store_id = some (b's' ∷ []);
  model_id = none;
  object_type = some (b'd' ∷ b'o' ∷ []);
  object_id = some (b'1' ∷ []);
  subject_type = some (b'u' ∷ []);
  subject_id = some (b'2' ∷ []);
  relation = some (b'r' ∷ []);
}

key_bytes-request :
    key_bytes request
    ≡ 1 ∷ b's' ∷ 0 ∷ 2 ∷ b'd' ∷ b'o' ∷ 1 ∷ b'1' ∷ 1 ∷ b'u' ∷ 1 ∷ b'2' ∷ 1 ∷ b'r' ∷ []
unfolding key_bytes
key_bytes-request = refl

abbrev leftover : ℕ → Key
leftover r = record { low = 0; high = 0; object_key = 0; relation_id = r; pad = 0 }

-- A stand-in for the hash: the length of the bytes.
abbrev toy_128 : List ℕ → ℕ × ℕ
toy_128 bs = (length bs, 0)

-- The same request with an empty model in place of none.
abbrev with_model : KeyArgs
with_model = record request { model_id = some [] }

request-PassesAsserts : PassesAsserts request
request-PassesAsserts = record {
  store_id = omega arith;
  model_id = omega arith;
  object_type = omega arith;
  object_id = omega arith;
  subject_type = omega arith;
  subject_id = omega arith;
  relation = omega arith;
}

with_model-PassesAsserts : PassesAsserts with_model
with_model-PassesAsserts = record {
  store_id = omega arith;
  model_id = omega arith;
  object_type = omega arith;
  object_id = omega arith;
  subject_type = omega arith;
  subject_id = omega arith;
  relation = omega arith;
}

same_bytes : key_bytes request ≡ key_bytes with_model
unfolding key_bytes
same_bytes = refl

key_bytes-injective_example :
    (length (key_bytes request) ≤ 1024)
    × (length (key_bytes with_model) ≤ 1024)
    × (fields request ≡ fields with_model)
key_bytes-injective_example =
    key_bytes-injective request with_model request-PassesAsserts with_model-PassesAsserts same_bytes

cache_key_separates_example : fields request ≡ fields with_model
unfolding cache_key key_bytes
cache_key_separates_example =
    cache_key_separates length toy_128 (leftover 1) (leftover 2) request with_model
      request-PassesAsserts with_model-PassesAsserts (λ e. same_bytes) (ground arith)
