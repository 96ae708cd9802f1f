-- ===== src/Sql/Replies.antt =====
-- What `fga_check` replies, from what the client has written into the slot.
use postfga.Prelude.{ℕ, ◌≡◌, ◌≢◌, ap, Bool, true, Option, none, some, List, arith}
use postfga.FreeList.{SlotList}
use postfga.Payload.{Payload, response_ok, checked}
use postfga.Channel.{Channel, slot_at, executed}
use postfga.Args.{is_ok}
use postfga.Sql.{replied, response_at, answer_check}
use postfga.Client.{Memory, Item, to_string, request_id, batch_call, BatchCheckRequest}
use postfga.Client.Answers.{Answer, complete}
use postfga.Client.Batch.{names, decision, on_ok, FailsClosed, batch-FailsClosed}

-- A decision, or what was in memory where there is none.
abbrev pub or_garbage : Option Bool → Bool → Bool
or_garbage none garbage = garbage
or_garbage (some allowed) garbage = allowed

module _ {T : Type 0} (S : SlotList T) (garbage : Bool) (i : ℕ) (ch : Channel T) where
  -- A decision that is written into the slot is replied, and nothing of an error is.
  pub reply_decision :
      (allowed : Bool)
      → (response_at S ch i).status ≡ response_ok
      → (response_at S ch i).body ≡ checked allowed
      → (answer_check S garbage i (executed, ch)).0 ≡ replied allowed
  unfolding answer_check is_ok
  reply_decision allowed fine e = ground (arith, fine, e)

  reply_error :
      (response_at S ch i).status ≢ response_ok
      → (answer_check S garbage i (executed, ch)).0 ≡ replied garbage
  unfolding answer_check is_ok
  reply_error refused = ground (arith, refused)

  reply_closed :
      (o : Option Bool)
      → FailsClosed o (response_at S ch i)
      → (answer_check S garbage i (executed, ch)).0 ≡ replied (or_garbage o garbage)
  reply_closed none (refused, e) = reply_error refused
  reply_closed (some allowed) (fine, e) = reply_decision allowed fine e

  -- Once the slot of a check has been answered in a batch, `fga_check` replies the decision
  -- that OpenFGA has made for its request id; where the call failed or brought no decision, it replies whatever
  -- the uninitialised variable `allowed` held, true included.
  pub check_reply :
      (items : List Item) (batch : BatchCheckRequest) (answer : Answer) (mem : Memory) (p : ℕ)
      → names p items ≡ true
      → (slot_at S ch.pool i).payload ≡ (complete (batch_call items batch) answer mem).0 p
      → (answer_check S garbage i (executed, ch)).0
        ≡ replied (
            or_garbage
              (on_ok answer.status (decision (answer.result (to_string (request_id mem p)))))
              garbage)
  check_reply items batch answer mem p among same =
      reply_closed (on_ok answer.status (decision (answer.result (to_string (request_id mem p))))) (
        rw (ap (λ (q : Payload). q.response) same)
          (batch-FailsClosed items batch answer mem p among))
