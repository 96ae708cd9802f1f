-- ===== src/Client/Batch.antt =====
-- What `process_batch` and `handle_request` write for checks, whatever the server answers.
use postfga.Prelude.{
  ℕ, ◌≡◌, ◌≢◌, refl, ap, ◌∙◌, Bool, true, false, Option, none, some, List, [], ◌∷◌, ◌==◌, ==_refl,
  if◌then◌else◌, arith, inl, inr, ◌⊎◌, Bool-cases,
}
use postfga.Payload.{Payload, Response, ResponseStatus, response_ok, checked}
use postfga.Client.{
  Memory, Item, request_id, to_string, check_call, batch_call, CheckRequest, BatchCheckRequest,
}
use postfga.Client.Answers
use postfga.Client.Answers.{
  Status, status_ok, status_failed, SingleResult, failed, no_result, Answer, check_response,
  single_response, batch_response, respond, respond_all, complete,
}

-- Whether the payload at `q` belongs to one of the items.
abbrev pub names : ℕ → List Item → Bool
names q [] = false
names q (item ∷ items) = let rest = names q items in if item.payload == q then true else rest

-- Where the response does not depend on the old one, it does not matter how often it is written.
respond_all_lem :
    (f : Payload → Response) (items : List Item) (mem : Memory) (q : ℕ)
    → ((p : Payload) → f (record p { response = f p }) ≡ f p)
    → (respond_all f items mem).0 q
      ≡ (if names q items then record (mem q) { response = f (mem q) } else mem q)
unfolding respond_all respond
respond_all_lem f [] mem q again = refl
respond_all_lem f (item ∷ items) mem q again =
    respond_all_lem f items (respond f item.payload mem) q again
    ∙ first (Bool-cases (item.payload == q))
  where
    first :
        ((item.payload == q) ≡ true) ⊎ ((item.payload == q) ≡ false)
        → (if names q items
            then record (respond f item.payload mem q) {
              response = f (respond f item.payload mem q);
            }
            else respond f item.payload mem q)
          ≡ (if names q (item ∷ items) then record (mem q) { response = f (mem q) } else mem q)
    first (inr apart) = rw apart refl
    first (inl same) = rw same (elim (Bool-cases (names q items)) [
      | inl more ↦ rw more (ap (λ (r : Response). record (mem q) { response = r }) (again (mem q)))
      | inr last ↦ rw last refl
    ])

single_response-again :
    (o : Option SingleResult) (r : Response)
    → single_response o (single_response o r) ≡ single_response o r
unfolding single_response
single_response-again none r = refl
single_response-again (some (Answers.allowed b)) r = refl
single_response-again (some (failed message)) r = refl
single_response-again (some no_result) r = refl

batch_response-again :
    (answer : Answer) (p : Payload)
    → batch_response answer (record p { response = batch_response answer p })
      ≡ batch_response answer p
unfolding batch_response
batch_response-again answer p = by_status answer.status refl
  where
    by_status :
        (s : Status)
        → answer.status ≡ s
        → batch_response answer (record p { response = batch_response answer p })
          ≡ batch_response answer p
    by_status status_ok e =
        rw e (single_response-again (answer.result (to_string p.request.request_id)) p.response)
    by_status (status_failed message) e = rw e refl

-- All of the memory after the answer to a batch.
pub complete-batch :
    (items : List Item) (request : BatchCheckRequest) (answer : Answer) (mem : Memory) (q : ℕ)
    → (complete (batch_call items request) answer mem).0 q ≡ (
        if names q items
        then record (mem q) { response = batch_response answer (mem q) }
        else mem q)
unfolding complete
complete-batch items request answer mem q =
    respond_all_lem (batch_response answer) items mem q (batch_response-again answer)

pub complete-check :
    (item : Item) (request : CheckRequest) (answer : Answer) (mem : Memory)
    → (complete (check_call item request) answer mem).0 item.payload
      ≡ record (mem item.payload) { response = check_response answer (mem item.payload).response }
unfolding complete respond_all respond
complete-check item request answer mem = rw ==_refl refl

-- What the server has decided: nothing, where the call failed or the answer has no decision.
abbrev pub decision : Option SingleResult → Option Bool
decision none = none
decision (some (Answers.allowed b)) = some b
decision (some (failed message)) = none
decision (some no_result) = none

abbrev pub on_ok : Status → Option Bool → Option Bool
on_ok status_ok o = o
on_ok (status_failed message) o = none

-- A decision is passed on, and without one the response denies and is no success.
abbrev pub FailsClosed : Option Bool → Response → Type 0
FailsClosed (some b) r = (r.status ≡ response_ok) × (r.body ≡ checked b)
FailsClosed none r = (r.status ≢ response_ok) × (r.body ≡ checked false)

is_success : ResponseStatus → ℕ
is_success response_ok = 1
is_success s = 0

single_response-FailsClosed :
    (o : Option SingleResult) (r : Response) → FailsClosed (decision o) (single_response o r)
unfolding single_response is_success
single_response-FailsClosed none r = (λ p. omega (arith, ap is_success p), refl)
single_response-FailsClosed (some (Answers.allowed b)) r = (refl, refl)
single_response-FailsClosed (some (failed message)) r = (λ p. omega (arith, ap is_success p), refl)
single_response-FailsClosed (some no_result) r = (λ p. omega (arith, ap is_success p), refl)

batch_response-FailsClosed :
    (answer : Answer) (p : Payload)
    → FailsClosed
        (on_ok answer.status (decision (answer.result (to_string p.request.request_id))))
        (batch_response answer p)
unfolding batch_response is_success
batch_response-FailsClosed answer p = by_status answer.status refl
  where
    by_status :
        (s : Status)
        → answer.status ≡ s
        → FailsClosed
            (on_ok answer.status (decision (answer.result (to_string p.request.request_id))))
            (batch_response answer p)
    by_status status_ok e =
        rw e
          (single_response-FailsClosed (answer.result (to_string p.request.request_id)) p.response)
    by_status (status_failed message) e = rw e (λ p. omega (arith, ap is_success p), refl)

check_response-FailsClosed :
    (answer : Answer) (r : Response)
    → FailsClosed (on_ok answer.status (some answer.allowed)) (check_response answer r)
unfolding check_response is_success
check_response-FailsClosed answer r = by_status answer.status refl
  where
    by_status :
        (s : Status)
        → answer.status ≡ s
        → FailsClosed (on_ok answer.status (some answer.allowed)) (check_response answer r)
    by_status status_ok e = rw e (refl, refl)
    by_status (status_failed message) e = rw e (λ p. omega (arith, ap is_success p), refl)

pub batch-FailsClosed :
    (items : List Item) (batch : BatchCheckRequest) (answer : Answer) (mem : Memory) (q : ℕ)
    → names q items ≡ true
    → FailsClosed
        (on_ok answer.status (decision (answer.result (to_string (request_id mem q)))))
        ((complete (batch_call items batch) answer mem).0 q).response
batch-FailsClosed items batch answer mem q h =
    rw (complete-batch, h) (batch_response-FailsClosed answer (mem q))

-- Whatever the server answers to a batch, the response in the payload of each of its items is OK with the
-- decision that the answer has under the item's own request id, and where the call failed or there is no
-- such decision, it is not OK and denies. The same holds of a check with a call of its own.
pub checks_fail_closed :
    (items : List Item) (batch : BatchCheckRequest) (item : Item) (request : CheckRequest)
    (answer : Answer) (mem : Memory) (q : ℕ)
    → names q items ≡ true
    → FailsClosed
        (on_ok answer.status (decision (answer.result (to_string (request_id mem q)))))
        ((complete (batch_call items batch) answer mem).0 q).response
      × FailsClosed
          (on_ok answer.status (some answer.allowed))
          ((complete (check_call item request) answer mem).0 item.payload).response
checks_fail_closed items batch item request answer mem q h = (
  batch-FailsClosed items batch answer mem q h,
  rw complete-check (check_response-FailsClosed answer (mem item.payload).response),
)
