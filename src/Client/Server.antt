-- ===== src/Client/Server.antt =====
-- A server for the tests of Client and Worker: it grants the relation "r" and nothing else, and it answers as
-- OpenFGA documents.
use mathlib.Core.List.{Memᴰ}
use mathlib.Core.List.Memᴰ
use postfga.Prelude.{
  ℕ, ◌≡◌, refl, ap, ap₂, sym, Bool, true, false, Option, none, some, List, [], ◌∷◌, ◌==◌, ==_iff,
  ==_refl, if◌then◌else◌, arith, inl, inr, Bool-cases,
}
use postfga.Client.{TupleKey, BatchCheck, BatchCheckRequest}
use postfga.Client.Answers
use postfga.Client.Answers.{SingleResult}
use postfga.Client.Decisions.{IsAnswered}

pub same : List ℕ → List ℕ → Bool
same [] [] = true
same [] (y ∷ ys) = false
same (x ∷ xs) [] = false
same (x ∷ xs) (y ∷ ys) = let rest = same xs ys in if x == y then rest else false

same_refl : (xs : List ℕ) → same xs xs ≡ true
unfolding same
same_refl [] = refl
same_refl (x ∷ xs) = rw (==_refl x, same_refl xs) refl

same_sound : (xs ys : List ℕ) → same xs ys ≡ true → xs ≡ ys
unfolding same
same_sound [] [] e = refl
same_sound [] (y ∷ ys) e = ground (arith, e)
same_sound (x ∷ xs) [] e = ground (arith, e)
same_sound (x ∷ xs) (y ∷ ys) e = elim (Bool-cases (x == y)) [
  | inl p ↦ ap₂ (◌∷◌) ((==_iff x y).0 p) (same_sound xs ys (ground (arith, e, p)))
  | inr n ↦ absurd (ground (arith, e, n))
]

abbrev pub decide : List ℕ → List ℕ → TupleKey → Bool
decide store model key = same key.relation (114 ∷ [])

pub find : (TupleKey → Bool) → List BatchCheck → List ℕ → Option SingleResult
find granted [] id = none
find granted (check ∷ checks) id =
    let rest = find granted checks id in
    if same check.correlation_id id then some (Answers.allowed (granted check.tuple_key)) else rest

abbrev pub server : BatchCheckRequest → List ℕ → Option SingleResult
server request id = find (decide request.store_id request.authorization_model_id) request.checks id

find-answers :
    (granted : TupleKey → Bool) (check : BatchCheck) (checks : List BatchCheck)
    → Memᴰ check checks
    → (other : BatchCheck) × Memᴰ other checks
      × (other.correlation_id ≡ check.correlation_id)
      × (find granted checks check.correlation_id
          ≡ some (Answers.allowed (granted other.tuple_key)))
unfolding find
find-answers granted check [] h = absurd (Memᴰ.not-nil h)
find-answers granted check (c ∷ checks) (Memᴰ.head e) =
    let same_id : c.correlation_id ≡ check.correlation_id =
      sym (ap (λ (x : BatchCheck). x.correlation_id) e) in
    (c, Memᴰ.head refl, same_id, rw (same_id, same_refl check.correlation_id) refl)
find-answers granted check (c ∷ checks) (Memᴰ.tail h) =
    elim (Bool-cases (same c.correlation_id check.correlation_id)) [
      | inl y ↦ (c, Memᴰ.head refl, same_sound c.correlation_id check.correlation_id y, rw y refl)
      | inr n ↦
          let (other, inside, same_id, e) = find-answers granted check checks h in
          (other, Memᴰ.tail inside, same_id, rw n e)
    ]

pub server-IsAnswered : IsAnswered decide server
server-IsAnswered request check h = find-answers _ check request.checks h
