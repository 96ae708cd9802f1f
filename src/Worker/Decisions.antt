-- ===== src/Worker/Decisions.antt =====
-- What the checks that one run of the worker sends together are told.
use mathlib.Core.List.{Memᴰ}
use mathlib.Core.List.Memᴰ
use mathlib.Core.Path.{fun_ext}
use postfga.Prelude.{
  ℕ, ◌^◌, ◌<◌, ◌≤◌, ◌≡◌, refl, ap, ◌∙◌, Bool, Option, List, [], ◌∷◌, map, length, ==_refl, arith,
}
use postfga.FreeList.{SlotList, occurrences}
use postfga.Payload.{response_ok, checked}
use postfga.Client.{
  Memory, Item, request_id, TupleKey, batch_call, BatchCheckRequest, batch_request, process_batch,
}
use postfga.Client.Answers.{
  status_ok, SingleResult, Answer, complete, batch_response, single_response,
}
use postfga.Client.Batch.{complete-batch}
use postfga.Client.Batches.{process_batch-IsBatchOf}
use postfga.Client.Decisions.{IsAnswered, key_at, Memᴰ-names, server-item}
use postfga.Channel.{Slot, Channel, drain_slots}
use postfga.Channel.Vacancy.{pool_init-IsConsistent}
use postfga.Protocol.{System, Reach}
use postfga.Protocol.Ids.{InUse, HasIds, Counted, acquisitions, Reach-HasIds}
use postfga.Protocol.Exclusive.{start, init-IsSound, from_start-IsSound, named_once}
use postfga.Worker.{item, payloads, begin_all, send, execute, max_batch}
use postfga.Worker.Drained.{Drained, begin_all-AllBegun}
use postfga.Worker.Execute.{send-process_batch, drain-Drained}

Memᴰ-occurrences : (i : ℕ) (xs : List ℕ) → Memᴰ i xs → 0 < occurrences i xs
Memᴰ-occurrences i [] h = absurd (Memᴰ.not-nil h)
Memᴰ-occurrences i (x ∷ xs) (Memᴰ.head e) = rw (← e) (ground (arith, ==_refl i))
Memᴰ-occurrences i (x ∷ xs) (Memᴰ.tail h) = omega (arith, Memᴰ-occurrences i xs h)

module _ {T : Type 0} (S : SlotList T) where
  -- The ids and the decisions of a batch of slots in use, each with an id of its own.
  start-Counted :
      (memory : List Slot) (values : List ℕ) (k : ℕ) → Counted S 0 (start S memory values k).ch
  start-Counted memory values k =
      let (consistent, long, all) = pool_init-IsConsistent S memory (length memory) refl in
      (
        refl,
        record {
          given = λ i u. absurd (u.1 (all i (omega (arith, u.0, long))));
          distinct = λ i j u w e. absurd (u.1 (all i (omega (arith, u.0, long))));
        },
      )

  -- An item of what is begun is a slot that was drained.
  item-InUse :
      (ch : Channel T) (slots : List ℕ) (p : Item)
      → Drained S ch slots
      → Memᴰ p (map item (begin_all S ch slots).0)
      → InUse S ch.pool p.payload
  item-InUse ch slots p d h =
      let r = begin_all-AllBegun S ch slots d in
      let (i, at, e) = Memᴰ.of_map item (begin_all S ch slots).0 h in
      let drained : 0 < occurrences i slots =
        ground (arith, r.taken i, Memᴰ-occurrences i (begin_all S ch slots).0 at) in
      rw (← ap (λ (x : Item). x.payload) e) (d.inside i drained, d.used i drained)

  -- The answer to a batch of slots in use that have ids of their own.
  send-decides :
      (decide : List ℕ → List ℕ → TupleKey → Bool)
      (server : BatchCheckRequest → List ℕ → Option SingleResult) (ch : Channel T) (slots : List ℕ)
      (n : ℕ) (items : List Item) (request : BatchCheckRequest) (p : Item) (answer : Answer)
      (mem : Memory)
      → IsAnswered decide server
      → Drained S ch slots
      → HasIds S n ch.pool
      → n < 2 ^ 64
      → Memᴰ (batch_call items request) (send S ch slots).0
      → Memᴰ p items
      → answer.status ≡ status_ok
      → answer.result ≡ server request
      → request_id mem p.payload ≡ request_id (payloads S ch) p.payload
      → ((complete (batch_call items request) answer mem).0 p.payload).response
        ≡ record (mem p.payload).response {
          status = response_ok;
          body = checked (
              decide request.store_id request.authorization_model_id
                (key_at (payloads S ch) p.payload));
        }
  unfolding batch_response single_response batch_request
  send-decides decide server ch slots n items request p answer mem documented d v small started
        inside fine answered same_id =
      let same : payloads S (begin_all S ch slots).1 ≡ payloads S ch =
        fun_ext (begin_all-AllBegun S ch slots d).kept in
      let calls : (send S ch slots).0
          ≡ process_batch (payloads S ch) (map item (begin_all S ch slots).0) =
        send-process_batch S ch slots
        ∙ ap (λ (m : Memory). process_batch m (map item (begin_all S ch slots).0)) same in
      let b =
        process_batch-IsBatchOf (payloads S ch) (map item (begin_all S ch slots).0) items request
          (rw (← calls) started) in
      let at : Memᴰ p (b.first ∷ b.rest) = rw (← b.items) inside in
      let used : (q : Item) → Memᴰ q (b.first ∷ b.rest) → InUse S ch.pool q.payload =
        λ q h. item-InUse ch slots q d (b.among q h) in
      let told =
        server-item decide server documented (payloads S ch) b.first b.rest
          (λ q h. omega (arith, v.given q.payload (used q h), small))
          (λ q r h g e. v.distinct q.payload r.payload (used q h) (used r g) e) p at in
      rw
        (
          complete-batch,
          b.items,
          Memᴰ-names p (b.first ∷ b.rest) at,
          fine,
          answered,
          b.request,
          same_id,
          told,
        )
        refl

  -- In every state that backends and the worker reach from the initialisation of a channel with fewer than 2^64
  -- slots taken on the way: where OpenFGA decides each check of a batch as it documents, and a batch that one run
  -- of `execute` starts is answered, the response of each slot of the batch that still has the request id that it
  -- had when it was drained is OK with the decision on the slot's own tuple, in the store and under the model of
  -- the batch.
  pub execute_decides :
      (decide : List ℕ → List ℕ → TupleKey → Bool)
      (server : BatchCheckRequest → List ℕ → Option SingleResult) (is_running : ℕ → Bool)
      (memory : List Slot) (values : List ℕ) (k : ℕ) (s : System T) (items : List Item)
      (request : BatchCheckRequest) (p : Item) (answer : Answer) (mem : Memory)
      → IsAnswered decide server
      → k ≤ 16
      → length values ≡ 2 ^ k
      → length memory ≤ 65536
      → (r : Reach S is_running (start S memory values k) s) → acquisitions S is_running r < 2 ^ 64
      → Memᴰ (batch_call items request) (execute S s.ch).0
      → Memᴰ p items
      → answer.status ≡ status_ok
      → answer.result ≡ server request
      → request_id mem p.payload ≡ request_id (payloads S s.ch) p.payload
      → ((complete (batch_call items request) answer mem).0 p.payload).response
        ≡ record (mem p.payload).response {
          status = response_ok;
          body = checked (
              decide request.store_id request.authorization_model_id
                (key_at (payloads S s.ch) p.payload));
        }
  unfolding execute drain_slots
  execute_decides decide server is_running memory values k s items request p answer mem documented
        narrow storage few r small started inside fine answered same_id =
      let v = from_start-IsSound S is_running memory values k narrow storage few r in
      let (at, ids) =
        Reach-HasIds S is_running k r (init-IsSound S memory values k narrow storage few)
          (start-Counted memory values k) small in
      send-decides decide server (drain_slots S s.ch max_batch).1 (drain_slots S s.ch max_batch).0
        (acquisitions S is_running r) items request p answer mem documented
        (drain-Drained S k max_batch s v
          (λ i. named_once S is_running memory values k narrow storage few i r))
        ids small started inside fine answered same_id
