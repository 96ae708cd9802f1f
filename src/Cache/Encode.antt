-- ===== src/Cache/Encode.antt =====
-- src/cache_key.h: the bytes that are hashed into a cache key. A string is its list of bytes, `none` a
-- null pointer. The buffer is the bytes written so far; the source gives it 1024.
pub mod Laws
mod Tests
use postfga.Prelude.{
  ℕ, zero, suc, ◌+◌, ◌-◌, ◌%◌, Option, none, some, List, [], ◌∷◌, ◌++◌, length, take, drop,
}
use postfga.Cache.Key.{Key}

abbrev pub bytes : Option (List ℕ) → List ℕ
bytes none = []
bytes (some s) = s

-- `append_cache_key_field_text` and `append_cache_key_field`, which differ in how they find the length:
-- a byte for the length, cut to 8 bits, and then all the bytes.
pub append_field_text : List ℕ → Option (List ℕ) → List ℕ
append_field_text buffer str = buffer ++ (length (bytes str) % 256 ∷ bytes str)

pub append_field : List ℕ → Option (List ℕ) → List ℕ
append_field buffer str = buffer ++ (length (bytes str) % 256 ∷ bytes str)

-- The arguments of `fga_cache_key`.
pub record KeyArgs : Type 0 where
  pub store_id : Option (List ℕ)
  pub model_id : Option (List ℕ)
  pub object_type : Option (List ℕ)
  pub object_id : Option (List ℕ)
  pub subject_type : Option (List ℕ)
  pub subject_id : Option (List ℕ)
  pub relation : Option (List ℕ)

-- The buffer at the first hash, and at the second.
pub object_bytes : KeyArgs → List ℕ
unfolding append_field append_field_text
object_bytes a =
    append_field_text
      (append_field_text (append_field (append_field [] a.store_id) a.model_id) a.object_type)
      a.object_id

pub key_bytes : KeyArgs → List ℕ
unfolding object_bytes append_field_text
key_bytes a =
    append_field_text
      (append_field_text (append_field_text (object_bytes a) a.subject_type) a.subject_id)
      a.relation

-- XXH3_64bits and XXH3_128bits (low and high half) come from the xxHash library.
module _ (xxh3_64 : List ℕ → ℕ) (xxh3_128 : List ℕ → ℕ × ℕ) where
  -- `fga_cache_key`, over the structure that `key` points to: `relation_id` and the padding are not
  -- written.
  pub cache_key : Key → KeyArgs → Key
  cache_key key a =
      let (low, high) = xxh3_128 (key_bytes a) in
      record key { object_key = xxh3_64 (object_bytes a); low = low; high = high }
