-- ===== src/Cache/Key.antt =====
-- `FgaAclCacheKey` of src/cache.h. `low` and `high` are the 128-bit hash that `l1_key_equals` compares;
-- the shared index is created with HASH_BLOBS and so compares all the bytes of the structure, padding
-- included.
use postfga.Prelude.{
  ℕ, ◌≡◌, ◌≢◌, ◌↔◌, refl, Bool, true, false, ◌&&◌, arith, ◌==◌, ◌⊎◌, inl, inr, Bool-cases,
}

pub record Key : Type 0 where
  pub low : ℕ
  pub high : ℕ
  pub object_key : ℕ
  pub relation_id : ℕ
  pub pad : ℕ

-- `l1_key_equals`
abbrev pub l1_key_equals : Key → Key → Bool
l1_key_equals a b = a.low == b.low && a.high == b.high

-- `memcmp` over the whole structure.
unfoldable pub blob_equals : Key → Key → Bool
blob_equals a b =
    a.low == b.low
    && a.high == b.high
    && a.object_key == b.object_key
    && a.relation_id == b.relation_id
    && a.pad == b.pad

pub blob_equals_iff : (a b : Key) → (blob_equals a b ≡ true) ↔ (a ≡ b)
unfolding blob_equals
blob_equals_iff a b = ground arith

-- A comparison of two keys, with what it says of them.
pub key-cases :
    (a b : Key) → ((blob_equals a b ≡ true) × (a ≡ b)) ⊎ ((blob_equals a b ≡ false) × (a ≢ b))
key-cases a b = elim (Bool-cases (blob_equals a b)) [
  | inl same ↦ inl (same, (blob_equals_iff a b).0 same)
  | inr ne ↦ inr (ne, λ e. cc ((blob_equals_iff a b).1 e))
]

pub blob_equals_refl : (a : Key) → blob_equals a a ≡ true
blob_equals_refl a = (blob_equals_iff a a).1 refl

pub blob_equals_symm : (a b : Key) → blob_equals b a ≡ false → blob_equals a b ≡ false
unfolding blob_equals
blob_equals_symm a b h = ground arith

pub blob_equals_ne : (a b : Key) → a ≢ b → blob_equals a b ≡ false
blob_equals_ne a b h = elim (key-cases a b) [ inl (_, e) ↦ absurd (h e) | inr (ne, _) ↦ ne ]

-- Keys that differ in the hash differ in the bytes.
pub blob_equals_of_hash : (a b : Key) → l1_key_equals a b ≡ false → blob_equals a b ≡ false
unfolding blob_equals
blob_equals_of_hash a b h = ground arith
