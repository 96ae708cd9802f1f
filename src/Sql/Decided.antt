-- ===== src/Sql/Decided.antt =====
-- `fga_check` from its arguments to its reply: the request in the slot, the worker, the client and the answer.
use mathlib.Core.List.{Memᴰ}
use postfga.Prelude.{ℕ, ◌^◌, ◌<◌, ◌≤◌, ◌≡◌, ap, ◌∙◌, Bool, Option, List, length}
use postfga.FreeList.{SlotList}
use postfga.Payload.{Request, Response, Payload, checked}
use postfga.Channel.{Slot, Channel, slot_at, executed}
use postfga.Args.{TupleArgs, Settings, ok}
use postfga.Sql.{replied, answer_check}
use postfga.Sql.Requests.{fga_check, request_of, key_of, key_at-request_of}
use postfga.Sql.Replies.{reply_decision}
use postfga.Client.{Memory, Item, TupleKey, request_id, batch_call, BatchCheckRequest}
use postfga.Client.Answers.{status_ok, SingleResult, Answer, complete}
use postfga.Client.Decisions.{IsAnswered}
use postfga.Protocol.{System, Reach}
use postfga.Protocol.Ids.{acquisitions}
use postfga.Protocol.Exclusive.{start}
use postfga.Worker
use postfga.Worker.{payloads, item}
use postfga.Worker.Decisions.{execute_decides}

module _ {T : Type 0} (S : SlotList T) where
  -- In every state that backends and the worker reach from the initialisation of a channel with fewer than 2^64
  -- slots taken on the way: where slot `i` holds the request of an `fga_check`, a run of the worker sends the slot
  -- in a batch, OpenFGA decides each check of it as it documents, and the slot still has its request id when the
  -- answer is written into it, `fga_check` replies the decision on its own arguments, each cut to 63 bytes, in the
  -- store and under the model of the batch, whatever its uninitialised variable held.
  pub check_decides :
      (decide : List ℕ → List ℕ → TupleKey → Bool)
      (server : BatchCheckRequest → List ℕ → Option SingleResult) (is_running : ℕ → Bool)
      (memory : List Slot) (values : List ℕ) (k : ℕ) (s : System T) (config : Settings)
      (args : TupleArgs) (old r : Request) (i : ℕ) (items : List Item) (request : BatchCheckRequest)
      (answer : Answer) (mem : Memory) (ch : Channel T) (garbage : Bool)
      → IsAnswered decide server
      → k ≤ 16
      → length values ≡ 2 ^ k
      → length memory ≤ 65536
      → (reached : Reach S is_running (start S memory values k) s)
      → acquisitions S is_running reached < 2 ^ 64
      → request_of config (fga_check args) old ≡ ok r
      → (payloads S s.ch i).request ≡ r
      → Memᴰ (batch_call items request) (Worker.execute S s.ch).0
      → Memᴰ (item i) items
      → answer.status ≡ status_ok
      → answer.result ≡ server request
      → request_id mem i ≡ request_id (payloads S s.ch) i
      → (slot_at S ch.pool i).payload ≡ (complete (batch_call items request) answer mem).0 i
      → (answer_check S garbage i (executed, ch)).0
        ≡ replied (decide request.store_id request.authorization_model_id (key_of args))
  check_decides decide server is_running memory values k s config args old r i items request answer
        mem ch garbage documented narrow storage few reached small asked stored started inside fine
        answered same_id written =
      let told =
        execute_decides S decide server is_running memory values k s items request (item i) answer
          mem documented narrow storage few reached small started inside fine answered same_id in
      let seen = ap (λ (p : Payload). p.response) written ∙ told in
      let key = key_at-request_of config args old r (payloads S s.ch) i asked stored in
      reply_decision S garbage i ch
        (decide request.store_id request.authorization_model_id (key_of args))
        (ap (λ (q : Response). q.status) seen)
        (ap (λ (q : Response). q.body) seen
          ∙ ap
              (λ (q : TupleKey). checked (decide request.store_id request.authorization_model_id q))
              key)
