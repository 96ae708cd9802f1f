-- ===== src/Client/Decisions.antt =====
-- What the checks of a batch are told, where the server answers each check that it is asked.
use mathlib.Core.List.{Memᴰ}
use mathlib.Core.List.Memᴰ
use postfga.Prelude.{
  ℕ, ◌<◌, ◌^◌, ◌≡◌, refl, ap, sym, ◌∙◌, Bool, true, Option, some, List, [], ◌∷◌, ◌==◌, ==_refl, inl,
  inr, Bool-cases,
}
use postfga.Client.{
  Memory, Item, request_id, store_id, model_id, tuple_of, to_string, TupleKey, fill_tuple_key,
  fill_check_request, BatchCheck, BatchCheckRequest, batch_check, batch_request, check_call,
  batch_call,
}
use postfga.Client.Answers
use postfga.Client.Answers.{
  Status, status_ok, SingleResult, Answer, check_response, single_response, batch_response,
  complete,
}
use postfga.Client.Decimal.{to_string-injective}
use postfga.Client.Batch.{names, complete-batch, complete-check}

pub Memᴰ-names :
    (item : Item) (items : List Item) → Memᴰ item items → names item.payload items ≡ true
Memᴰ-names item [] h = absurd (Memᴰ.not-nil h)
Memᴰ-names item (x ∷ xs) (Memᴰ.head e) =
    rw (← ap (λ (i : Item). i.payload == item.payload) e, ==_refl) refl
Memᴰ-names item (x ∷ xs) (Memᴰ.tail h) = elim (Bool-cases (x.payload == item.payload)) [
  | inl y ↦ rw y refl
  | inr n ↦ rw (n, Memᴰ-names item xs h) refl
]

abbrev pub key_at : Memory → ℕ → TupleKey
key_at mem p = fill_tuple_key (tuple_of (mem p).request.body)

-- The answers that OpenFGA documents for BatchCheck: under the correlation id of a check stands the decision on
-- a check with that id.
abbrev pub IsAnswered :
    (List ℕ → List ℕ → TupleKey → Bool)
    → (BatchCheckRequest → List ℕ → Option SingleResult)
    → Type 0
IsAnswered decide server =
    (request : BatchCheckRequest) (check : BatchCheck)
    → Memᴰ check request.checks
    → (other : BatchCheck) × Memᴰ other request.checks
      × (other.correlation_id ≡ check.correlation_id)
      × (server request check.correlation_id
          ≡ some (
              Answers.allowed
                (decide request.store_id request.authorization_model_id other.tuple_key)))

module _ (decide : List ℕ → List ℕ → TupleKey → Bool)
    (server : BatchCheckRequest → List ℕ → Option SingleResult)
    (documented : IsAnswered decide server) (mem : Memory) (first : Item) (rest : List Item)
    (small : (p : Item) → Memᴰ p (first ∷ rest) → request_id mem p.payload < 2 ^ 64)
    (distinct : (p q : Item)
      → Memᴰ p (first ∷ rest)
      → Memᴰ q (first ∷ rest)
      → request_id mem p.payload ≡ request_id mem q.payload
      → p.payload ≡ q.payload) where
  pub server-item :
      (item : Item)
      → Memᴰ item (first ∷ rest)
      → server (batch_request mem first rest) (to_string (request_id mem item.payload))
        ≡ some (
            Answers.allowed (
              decide
                (store_id mem first.payload)
                (model_id mem first.payload)
                (key_at mem item.payload)))
  unfolding batch_request batch_check
  server-item item inside =
      let (other, among, same_id, answer) =
        documented (batch_request mem first rest) (batch_check mem item)
          (Memᴰ.map (batch_check mem) inside) in
      let (source, at, e) = Memᴰ.of_map (batch_check mem) (first ∷ rest) among in
      let same : source.payload ≡ item.payload = distinct source item at inside (
        to_string-injective _ _ (small source at) (small item inside)
          (ap (λ (c : BatchCheck). c.correlation_id) e ∙ same_id)) in
      answer
      ∙ ap
          (λ (k : TupleKey).
            some (
              Answers.allowed (decide (store_id mem first.payload) (model_id mem first.payload) k)))
          (sym (ap (λ (c : BatchCheck). c.tuple_key) e) ∙ ap (key_at mem) same)

  -- Where the server decides each check of a batch as OpenFGA documents, the items with one request id have one
  -- payload, and ids are of 64 bits: the answer to the batch leaves an item with the store and the model of the
  -- first with the same payload as the answer to a call of its own, where the server decides that call alike.
  pub batch_equals_single :
      (item : Item) (answer alone : Answer)
      → Memᴰ item (first ∷ rest)
      → store_id mem item.payload ≡ store_id mem first.payload
      → model_id mem item.payload ≡ model_id mem first.payload
      → answer.status ≡ status_ok
      → answer.result ≡ server (batch_request mem first rest)
      → alone.status ≡ status_ok
      → alone.allowed
        ≡ decide
            (fill_check_request mem item.payload).store_id
            (fill_check_request mem item.payload).authorization_model_id
            (fill_check_request mem item.payload).tuple_key
      → (complete (batch_call (first ∷ rest) (batch_request mem first rest)) answer mem).0
          item.payload
        ≡ (complete (check_call item (fill_check_request mem item.payload)) alone mem).0
            item.payload
  unfolding batch_response single_response check_response fill_check_request fill_tuple_key
  batch_equals_single item answer alone inside same_store same_model fine answered fine_alone
        decided =
      rw
        (
          complete-batch,
          Memᴰ-names item (first ∷ rest) inside,
          fine,
          answered,
          server-item item inside,
          complete-check,
          fine_alone,
          decided,
          same_store,
          same_model,
        )
        refl
