-- ===== src/Cache/Encode/Laws.antt =====
-- The encoding is read back field by field, so it tells the arguments apart; where it fits the buffer.
use mathlib.Core.List.{append_assoc, append-nil}
use postfga.Prelude.{
  ℕ, ◌+◌, ◌%◌, ◌<◌, ◌≤◌, ◌≡◌, ◌≢◌, refl, sym, ap, ap₂, ◌∙◌, true, false, List, [], ◌∷◌, ◌++◌,
  length, length-append, arith,
}
use native.Mathlib.Nat.{mod-eq_of_lt}
use postfga.Cache.Key.{Key, l1_key_equals, blob_equals}
use postfga.Cache.Encode.{bytes, KeyArgs, key_bytes, cache_key}

-- The fields in the order in which they are written.
abbrev pub fields : KeyArgs → List (List ℕ)
fields a =
    bytes a.store_id
    ∷ bytes a.model_id
    ∷ bytes a.object_type
    ∷ bytes a.object_id
    ∷ bytes a.subject_type
    ∷ bytes a.subject_id
    ∷ bytes a.relation
    ∷ []

pair_path : (p q : ℕ × ℕ) → p.0 ≡ q.0 → p.1 ≡ q.1 → p ≡ q
pair_path (a, b) (c, d) h k = ap₂ (λ x y. (x, y)) h k

encode : List (List ℕ) → List ℕ
encode [] = []
encode (f ∷ fs) = (length f % 256) ∷ (f ++ encode fs)

key_bytes-encode : (a : KeyArgs) → key_bytes a ≡ encode (fields a)
unfolding key_bytes encode
key_bytes-encode a = simp (append_assoc, append-nil)

-- Every field is shorter than 256 bytes, so that its length survives in a byte.
abbrev pub AllShort : List (List ℕ) → Type 0
AllShort [] = Unit {0}
AllShort (f ∷ fs) = (length f < 256) × AllShort fs

-- Lists of one length that stand before others.
append-injective : (f g r s : List ℕ) → length f ≡ length g → f ++ r ≡ g ++ s → (f ≡ g) × (r ≡ s)
append-injective [] [] r s e h = (refl, h)
append-injective [] (y ∷ g) r s e h = absurd (omega (arith, e))
append-injective (x ∷ f) [] r s e h = absurd (omega (arith, e))
append-injective (x ∷ f) (y ∷ g) r s e h =
    let (p, q) = append-injective f g r s (omega (arith, e)) (cc) in (ap₂ ◌∷◌ (cc) p, q)

cons-injective : (x y : ℕ) (r s : List ℕ) → x ∷ r ≡ y ∷ s → (x ≡ y) × (r ≡ s)
cons-injective x y r s h = (cc, cc)

encode-injective :
    (fs gs : List (List ℕ))
    → length fs ≡ length gs
    → AllShort fs
    → AllShort gs
    → encode fs ≡ encode gs
    → fs ≡ gs
unfolding encode
encode-injective [] [] e p q h = refl
encode-injective [] (g ∷ gs) e p q h = absurd (omega (arith, e))
encode-injective (f ∷ fs) [] e p q h = absurd (omega (arith, e))
encode-injective (f ∷ fs) (g ∷ gs) e (pf, p) (qg, q) h =
    let (same, rest) =
      cons-injective (length f % 256) (length g % 256) (f ++ encode fs) (g ++ encode gs) h in
    let (here, there) =
      append-injective f g (encode fs) (encode gs) (sym (mod-eq_of_lt pf) ∙ same ∙ mod-eq_of_lt qg)
        rest in
    ap₂ ◌∷◌ here (encode-injective fs gs (omega (arith, e)) p q there)

total : List (List ℕ) → ℕ
total [] = 0
total (f ∷ fs) = length f + 1 + total fs

length-encode : (fs : List (List ℕ)) → length (encode fs) ≡ total fs
unfolding encode total
length-encode [] = refl
length-encode (f ∷ fs) = omega (arith, length-append f (encode fs), length-encode fs)

length-key_bytes : (a : KeyArgs) → length (key_bytes a) ≡ total (fields a)
length-key_bytes a = ap length (key_bytes-encode a) ∙ length-encode (fields a)

abbrev pub AllWithin : ℕ → List (List ℕ) → Type 0
AllWithin n [] = Unit {0}
AllWithin n (f ∷ fs) = (length f ≤ n) × AllWithin n fs

-- Arguments of at most 128 bytes, as the comment on the buffer assumes, leave room in its 1024 bytes.
pub key_bytes_room : (a : KeyArgs) → AllWithin 128 (fields a) → length (key_bytes a) ≤ 903
unfolding total
key_bytes_room a h = omega (arith, length-key_bytes a)

-- What the assertions of `append_cache_key_field` and `append_cache_key_field_text` demand.
pub record PassesAsserts (a : KeyArgs) : Type 0 where
  pub store_id : length (bytes a.store_id) ≤ 128
  pub model_id : length (bytes a.model_id) ≤ 128
  pub object_type : length (bytes a.object_type) ≤ 125
  pub object_id : length (bytes a.object_id) ≤ 125
  pub subject_type : length (bytes a.subject_type) ≤ 125
  pub subject_id : length (bytes a.subject_id) ≤ 125
  pub relation : length (bytes a.relation) ≤ 125

PassesAsserts-AllShort : (a : KeyArgs) → PassesAsserts a → AllShort (fields a)
PassesAsserts-AllShort a p = (
  omega (arith, p.store_id),
  (
    omega (arith, p.model_id),
    (
      omega (arith, p.object_type),
      (
        omega (arith, p.object_id),
        (
          omega (arith, p.subject_type),
          (omega (arith, p.subject_id), (omega (arith, p.relation), tt)),
        ),
      ),
    ),
  ),
)

PassesAsserts-room : (a : KeyArgs) → PassesAsserts a → length (key_bytes a) ≤ 1024
PassesAsserts-room a p = omega (
  arith,
  key_bytes_room a (
    omega (arith, p.store_id),
    (
      omega (arith, p.model_id),
      (
        omega (arith, p.object_type),
        (
          omega (arith, p.object_id),
          (
            omega (arith, p.subject_type),
            (omega (arith, p.subject_id), (omega (arith, p.relation), tt)),
          ),
        ),
      ),
    ),
  ),
)

-- For two requests whose arguments pass the assertions on their lengths: the bytes of both fit the buffer of 1024
-- bytes, and they are hashed from the same bytes only if they agree in each of the seven arguments, a null pointer
-- counting as the empty string.
pub key_bytes-injective :
    (a b : KeyArgs)
    → PassesAsserts a
    → PassesAsserts b
    → key_bytes a ≡ key_bytes b
    → (length (key_bytes a) ≤ 1024) × (length (key_bytes b) ≤ 1024) × (fields a ≡ fields b)
key_bytes-injective a b p q h = (
  PassesAsserts-room a p,
  PassesAsserts-room b q,
  encode-injective (fields a) (fields b) refl (PassesAsserts-AllShort a p)
      (PassesAsserts-AllShort b q) (sym (key_bytes-encode a) ∙ h ∙ key_bytes-encode b),
)

-- An object id of 1024 bytes or more, which no caller refuses, overruns the buffer of 1024 bytes.
pub key_bytes_overrun :
    (a : KeyArgs) → 1024 ≤ length (bytes a.object_id) → 1024 < length (key_bytes a)
unfolding total
key_bytes_overrun a h = omega (arith, length-key_bytes a)

module _ (xxh3_64 : List ℕ → ℕ) (xxh3_128 : List ℕ → ℕ × ℕ) where
  -- Two keys of one request, made in structures with other leftovers: the backend's own level takes
  -- them for one key, and the shared index for two.
  pub cache_key_leftovers :
      (old old' : Key) (a : KeyArgs)
      → old.relation_id ≢ old'.relation_id
      → let k = cache_key xxh3_64 xxh3_128 old a in
        let k' = cache_key xxh3_64 xxh3_128 old' a in
        (l1_key_equals k k' ≡ true) × (blob_equals k k' ≡ false)
  unfolding cache_key blob_equals
  cache_key_leftovers old old' a ne = ground arith

  -- For two requests whose arguments pass the assertions on their lengths, where the 128-bit hash tells their two
  -- buffers apart if they differ: keys that compare equal in the backend's own level come from requests with the
  -- same arguments, a null pointer counting as the empty string.
  pub cache_key_separates :
      (old old' : Key) (a b : KeyArgs)
      → PassesAsserts a
      → PassesAsserts b
      → (xxh3_128 (key_bytes a) ≡ xxh3_128 (key_bytes b) → key_bytes a ≡ key_bytes b)
      → l1_key_equals (cache_key xxh3_64 xxh3_128 old a) (cache_key xxh3_64 xxh3_128 old' b) ≡ true
      → fields a ≡ fields b
  unfolding cache_key
  cache_key_separates old old' a b p q separates h =
      (key_bytes-injective a b p q (
        separates (
          pair_path (xxh3_128 (key_bytes a)) (xxh3_128 (key_bytes b)) (ground arith)
            (ground arith)))).2
