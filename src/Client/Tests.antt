-- ===== src/Client/Tests.antt =====
-- The theorems on the client at a batch of two checks and a lookup of a store, with a server that grants the
-- relation "r" and nothing else.
use mathlib.Core.List.{Memᴰ, Permᴰ}
use mathlib.Core.List.Memᴰ
use postfga.Prelude.{
  ℕ, zero, suc, ◌<◌, ◌≡◌, ◌^◌, refl, ap, sym, ◌∙◌, false, some, List, [], ◌∷◌, map, arith, inl, inr,
  ◌⊎◌,
}
use postfga.Payload.{request_check, request_get_store, check_tuple, Payload, zero_payload}
use postfga.Client.{
  Memory, Item, request_id, to_string, fill_check_request, batch_request, check_call, batch_call,
  Call, process_batch,
}
use postfga.Client.Answers.{status_ok, status_failed, Answer, complete}
use postfga.Client.Batch.{decision, on_ok, FailsClosed, checks_fail_closed}
use postfga.Client.Server.{decide, server, server-IsAnswered}
use postfga.Client.Decisions.{batch_equals_single}

abbrev asked : ℕ → List ℕ → Payload
asked id relation = record {
  request = record {
    request_id = id;
    type = request_check;
    store_id = 83 ∷ [];
    model_id = [];
    body = check_tuple (record {
      object_type = 100 ∷ [];
      object_id = 49 ∷ [];
      subject_type = 117 ∷ [];
      subject_id = 97 ∷ [];
      relation = relation;
    });
  };
  response = zero_payload.response;
}

abbrev memory : Memory
memory zero = asked 7 (114 ∷ [])
memory (suc zero) = asked 12 (119 ∷ [])
memory (suc (suc p)) = record zero_payload {
  request = record zero_payload.request { type = request_get_store };
}

abbrev item : ℕ → Item
item p = record { payload = p; callback = p }

abbrev first : Item
first = item 0

abbrev second : Item
second = item 1

abbrev rest : List Item
rest = second ∷ []

abbrev answer : Answer
answer = record {
  status = status_ok;
  allowed = false;
  result = server (batch_request memory first rest);
  id = [];
  name = [];
}

abbrev failure : Answer
failure = record answer { status = status_failed (101 ∷ []) }

distinct :
    (p q : Item)
    → Memᴰ p (first ∷ rest)
    → Memᴰ q (first ∷ rest)
    → request_id memory p.payload ≡ request_id memory q.payload
    → p.payload ≡ q.payload
distinct p q h k e = by_place (place p h) (place q k)
  where
    place : (p : Item) → Memᴰ p (first ∷ rest) → (p.payload ≡ 0) ⊎ (p.payload ≡ 1)
    place p (Memᴰ.head e) = inl (ap (λ (x : Item). x.payload) e)
    place p (Memᴰ.tail (Memᴰ.head e)) = inr (ap (λ (x : Item). x.payload) e)
    place p (Memᴰ.tail (Memᴰ.tail h)) = absurd (Memᴰ.not-nil h)

    by_place :
        (p.payload ≡ 0) ⊎ (p.payload ≡ 1)
        → (q.payload ≡ 0) ⊎ (q.payload ≡ 1)
        → p.payload ≡ q.payload
    by_place (inl a) (inl b) = a ∙ sym b
    by_place (inr a) (inr b) = a ∙ sym b
    by_place (inl a) (inr b) =
        absurd (omega (arith, sym (ap (request_id memory) a) ∙ e ∙ ap (request_id memory) b))
    by_place (inr a) (inl b) =
        absurd (omega (arith, sym (ap (request_id memory) a) ∙ e ∙ ap (request_id memory) b))

small : (p : Item) → Memᴰ p (first ∷ rest) → request_id memory p.payload < 2 ^ 64
small p (Memᴰ.head e) = rw (ap (λ (x : Item). x.payload) e) (omega arith)
small p (Memᴰ.tail (Memᴰ.head e)) = rw (ap (λ (x : Item). x.payload) e) (omega arith)
small p (Memᴰ.tail (Memᴰ.tail h)) = absurd (Memᴰ.not-nil h)

abbrev alone : Answer
alone = record answer { allowed = decide [] [] (fill_check_request memory 1).tuple_key }

batch_equals_single_example :
    (complete (batch_call (first ∷ rest) (batch_request memory first rest)) answer memory).0 1
    ≡ (complete (check_call second (fill_check_request memory 1)) alone memory).0 1
batch_equals_single_example =
    batch_equals_single decide server server-IsAnswered memory first rest small distinct second
      answer alone (Memᴰ.tail (Memᴰ.head refl)) refl refl refl refl refl refl

checks_fail_closed_example :
    FailsClosed
      (on_ok failure.status (decision (failure.result (to_string (request_id memory 0)))))
      ((complete (batch_call (first ∷ rest) (batch_request memory first rest)) failure memory).0
        0).response
    × FailsClosed
        (on_ok failure.status (some failure.allowed))
        ((complete (check_call second (fill_check_request memory 1)) failure memory).0 1).response
checks_fail_closed_example =
    checks_fail_closed (first ∷ rest) (batch_request memory first rest) second
      (fill_check_request memory 1) failure memory 0 refl

abbrev started : List Call
started = process_batch memory (first ∷ item 2 ∷ rest)

abbrev done : List (Call × Answer)
done = map (λ (c : Call). (c, answer)) started

paired :
    (calls : List Call)
    → Permᴰ (map (λ (c : Call × Answer). c.0) (map (λ (c : Call). (c, answer)) calls)) calls
paired [] = Permᴰ.nil
paired (call ∷ calls) = Permᴰ.cons refl (paired calls)
