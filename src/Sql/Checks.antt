-- ===== src/Sql/Checks.antt =====
-- What `fga_check` does with its slot.
use postfga.Prelude.{
  ℕ, ◌<◌, ◌≡◌, ◌≢◌, refl, ◌∙◌, sym, Bool, true, Option, none, some, List, length, ◌==◌, ==_refl,
  if◌then◌else◌, arith,
}
use postfga.FreeList.{SlotList}
use postfga.Payload.{Request}
use postfga.Channel.{
  SlotState, empty, pending, Outcome, executed, failed, waiting, pool_exhausted, enqueue_failed,
  request_canceled, interrupted, Wake, Pool, Channel, state_of, acquire,
}
use postfga.Channel.Vacancy.{IsConsistent}
use postfga.Channel.Busy.{Busy, release-Busy}
use postfga.Channel.Effect.{Effect, rewritten-Effect}
use postfga.Channel.Taken.{Taken, acquire-Taken}
use postfga.Channel.Execute.{AllCareful, ExecuteEnd, execute-ExecuteEnd}
use postfga.Args.{Settings, TupleArgs, no_store_id, slots_exhausted, is_missing, fill_request}
use postfga.Sql.{Reply, replied, raised, suspended, answer_check, ask_filled, ask, put_request}

fill_request-none :
    (config : Settings) (request : Request)
    → is_missing config.store_id ≡ true
    → fill_request config request ≡ none
unfolding fill_request
fill_request-none config request m = rw m

module _ {T : Type 0} (S : SlotList T) where
  -- Writing a request touches no state.
  pub put_request-Effect :
      (pool : Pool T) (ch : Channel T) (i : ℕ) (s : SlotState) (request : Request)
      → i < length pool.slots
      → Effect S i s pool ch.pool
      → Effect S i s pool (put_request S ch i request).pool
  unfolding put_request
  put_request-Effect pool ch i s request h f = rewritten-Effect S pool ch.pool i s _ h f refl

  pub queue-put_request :
      (ch : Channel T) (i : ℕ) (request : Request) → (put_request S ch i request).queue ≡ ch.queue
  unfolding put_request
  queue-put_request ch i request = refl

  pub pending-Busy :
      (ch ch' : Channel T) (i : ℕ)
      → i < length ch.pool.slots
      → Effect S i pending ch.pool ch'.pool
      → Busy S i ch'.pool
  pending-Busy ch ch' i h f =
      let at : state_of S ch'.pool i ≡ pending = f.states i ∙ rw (==_refl i) refl in
      record {
        consistent = f.consistent;
        inside = rw f.same_length h;
        used = λ p. let q = sym at ∙ p in ground arith;
      }

  -- How a check ends that the cache does not answer, by the slot that it took.
  abbrev pub CheckEnd : ℕ → Reply Bool × Channel T → Type 0
  CheckEnd i (replied allowed, ch) = IsConsistent S ch.pool × (state_of S ch.pool i ≡ empty)
  CheckEnd i (raised no_store_id, ch) = IsConsistent S ch.pool × (state_of S ch.pool i ≡ pending)
  CheckEnd i (raised e, ch) = IsConsistent S ch.pool × (state_of S ch.pool i ≢ pending)
  CheckEnd i (suspended, ch) = Busy S i ch.pool

  answer_check-CheckEnd :
      (garbage : Bool) (i : ℕ) (r : Outcome × Channel T)
      → ExecuteEnd S i r
      → CheckEnd i (answer_check S garbage i r)
  unfolding answer_check
  answer_check-CheckEnd garbage i (executed, ch) (b, _) = release-Busy S ch i b
  answer_check-CheckEnd garbage i (waiting, ch) (b, _) = b
  answer_check-CheckEnd garbage i (failed pool_exhausted, ch) h = absurd h
  answer_check-CheckEnd garbage i (failed enqueue_failed, ch) (c, e) = (c, λ p. ground arith)
  answer_check-CheckEnd garbage i (failed request_canceled, ch) (c, e) = (c, λ p. ground arith)
  answer_check-CheckEnd garbage i (failed interrupted, ch) (c, e, _) = (c, λ p. ground arith)

  abbrev pub Asked : Channel T → Option ℕ → Reply Bool × Channel T → Type 0
  Asked ch none r = (r.0 ≡ raised slots_exhausted) × (r.1.pool ≡ ch.pool)
  Asked ch (some i) r = (i < length ch.pool.slots) × (state_of S ch.pool i ≡ empty) × CheckEnd i r

  ask_filled-CheckEnd :
      (garbage : Bool) (wakes : List (Wake T)) (i : ℕ) (ch ch' : Channel T) (o : Option Request)
      → i < length ch.pool.slots
      → Effect S i pending ch.pool ch'.pool
      → AllCareful S i wakes
      → CheckEnd i (ask_filled S garbage wakes i ch' o)
  unfolding ask_filled
  ask_filled-CheckEnd garbage wakes i ch ch' none inside f careful =
      (f.consistent, f.states i ∙ rw (==_refl i) refl)
  ask_filled-CheckEnd garbage wakes i ch ch' (some request) inside f careful =
      let g = put_request-Effect ch.pool ch' i pending _ inside f in
      answer_check-CheckEnd garbage i _ (
        execute-ExecuteEnd S _ i wakes (pending-Busy ch (put_request S ch' i _) i inside g) careful)

  ask-Asked :
      (config : Settings) (garbage : Bool) (args : TupleArgs) (wakes : List (Wake T))
      (ch : Channel T) (r : Option ℕ × Channel T)
      → Taken S ch r
      → ((i : ℕ) → AllCareful S i wakes)
      → Asked ch r.0 (ask S config garbage args wakes r)
  unfolding ask
  ask-Asked config garbage args wakes ch (none, ch') (same, _) careful = (refl, same)
  ask-Asked config garbage args wakes ch (some i, ch') (inside, free, effect, _) careful = (
    inside,
    free,
    ask_filled-CheckEnd garbage wakes i ch _ _ inside
        (put_request-Effect ch.pool ch' i pending _ inside effect) (careful i),
  )

  -- `fga_check` without an answer from the cache, on a consistent pool, while the other processes free no slot
  -- that is in use. Without a free slot it raises an error and changes no slot. Else it takes one that was EMPTY;
  -- when it answers, that slot is EMPTY again; when it raises an error, the slot is not PENDING, unless the error
  -- is that the store is not configured, when the slot stays PENDING. The pool stays consistent throughout.
  pub check_slot :
      (config : Settings) (garbage : Bool) (args : TupleArgs) (wakes : List (Wake T))
      (ch : Channel T) (my_pid : ℕ)
      → IsConsistent S ch.pool
      → ((i : ℕ) → AllCareful S i wakes)
      → Asked ch (acquire S ch my_pid).0 (ask S config garbage args wakes (acquire S ch my_pid))
  check_slot config garbage args wakes ch my_pid c careful =
      ask-Asked config garbage args wakes ch (acquire S ch my_pid) (acquire-Taken S ch my_pid c)
        careful

  abbrev pub Lost : Channel T → ℕ → Reply Bool × Channel T → Type 0
  Lost ch i (reply, ch') =
      (reply ≡ raised no_store_id)
      × (state_of S ch.pool i ≡ empty)
      × (ch'.queue ≡ ch.queue)
      × ((j : ℕ) → state_of S ch'.pool j ≡ (if i == j then pending else state_of S ch.pool j))

  ask-Lost :
      (config : Settings) (garbage : Bool) (args : TupleArgs) (wakes : List (Wake T))
      (ch : Channel T) (i : ℕ) (r : Option ℕ × Channel T)
      → Taken S ch r
      → r.0 ≡ some i
      → is_missing config.store_id ≡ true
      → Lost ch i (ask S config garbage args wakes r)
  unfolding ask ask_filled put_request
  ask-Lost config garbage args wakes ch i (none, ch') t e m = absurd (cc)
  ask-Lost config garbage args wakes ch i (some j, ch') (inside, free, effect, queue) e m =
      let same : j ≡ i = cc in
      let f = put_request-Effect ch.pool ch' j pending _ inside effect in
      rw (fill_request-none config _ m, ← same) (refl, free, queue, f.states)

  -- Where no store is configured, every `fga_check` that finds a free slot raises an error and leaves that slot
  -- PENDING and the queue as it was, so that this call has not queued the slot; the other slots stay as they are.
  pub check_loses_slot :
      (config : Settings) (garbage : Bool) (args : TupleArgs) (wakes : List (Wake T))
      (ch : Channel T) (my_pid i : ℕ)
      → IsConsistent S ch.pool
      → (acquire S ch my_pid).0 ≡ some i
      → is_missing config.store_id ≡ true
      → Lost ch i (ask S config garbage args wakes (acquire S ch my_pid))
  check_loses_slot config garbage args wakes ch my_pid i c e m =
      ask-Lost config garbage args wakes ch i (acquire S ch my_pid) (acquire-Taken S ch my_pid c) e
        m
