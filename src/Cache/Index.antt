-- ===== src/Cache/Index.antt =====
-- The shared hash table `l2_slot_table`, which PostgreSQL's dynahash implements: what src/cache_l2.h
-- relies on of `hash_search` over a table created with HASH_ELEM | HASH_BLOBS.
use postfga.Prelude.{
  ℕ, ◌≡◌, refl, Option, none, some, List, [], ◌∷◌, if◌then◌else◌, arith, inl, inr, ◌∙◌,
}
use postfga.Cache.Key.{Key, blob_equals, key-cases, blob_equals_refl, blob_equals_symm}

pub record Index (T : Type 0) : Type 0 where
  pub empty : T
  -- HASH_FIND: the slot number kept under a key.
  pub find : T → Key → Option ℕ
  -- HASH_ENTER and the write of `slot_no`; `none` is the null pointer of a table that is full.
  pub enter : T → Key → ℕ → Option T
  -- HASH_REMOVE
  pub remove : T → Key → T
  pub find-empty : (k : Key) → find empty k ≡ none
  pub find-enter :
      (t u : T) (k j : Key) (slot_no : ℕ)
      → enter t k slot_no ≡ some u
      → find u j ≡ (if blob_equals k j then some slot_no else find t j)
  pub find-remove :
      (t : T) (k j : Key) → find (remove t k) j ≡ (if blob_equals k j then none else find t j)

-- A table that meets this: an association list.
abbrev pub Assoc : Type 0
Assoc = List (Key × ℕ)

abbrev pub assoc_find : Assoc → Key → Option ℕ
assoc_find [] k = none
assoc_find ((j, n) ∷ t) k = if blob_equals j k then some n else assoc_find t k

abbrev pub assoc_remove : Assoc → Key → Assoc
assoc_remove [] k = []
assoc_remove ((j, n) ∷ t) k =
    if blob_equals j k then assoc_remove t k else (j, n) ∷ assoc_remove t k

abbrev pub assoc_enter : Assoc → Key → ℕ → Option Assoc
assoc_enter t k n = some ((k, n) ∷ t)

pub assoc_find-enter :
    (t u : Assoc) (k j : Key) (n : ℕ)
    → assoc_enter t k n ≡ some u
    → assoc_find u j ≡ (if blob_equals k j then some n else assoc_find t j)
assoc_find-enter t u k j n e = let same : (k, n) ∷ t ≡ u = cc in rw (← same) refl

pub assoc_find-remove :
    (t : Assoc) (k j : Key)
    → assoc_find (assoc_remove t k) j ≡ (if blob_equals k j then none else assoc_find t j)
assoc_find-remove [] k j = ground arith
assoc_find-remove ((i, n) ∷ t) k j = elim (key-cases i k) [
  | inl (same, e) ↦ rw (same, e) (assoc_find-remove t k j ∙ ground arith)
  | inr (ne, _) ↦ elim (key-cases i j) [
    | inl (same, e) ↦ rw (ne, ← e, blob_equals_refl i, blob_equals_symm k i ne)
    | inr (far, _) ↦ rw (ne, far) (assoc_find-remove t k j)
  ]
]

abbrev pub assoc_index : Index Assoc
assoc_index = record {
  empty = [];
  find = assoc_find;
  enter = assoc_enter;
  remove = assoc_remove;
  find-empty = λ k. refl;
  find-enter = assoc_find-enter;
  find-remove = assoc_find-remove;
}
