-- ===== src/Sql/Writes.antt =====
-- What `fga_write_tuple`, `fga_delete_tuple`, `fga_create_store` and `fga_delete_store` do with their slot: all four
-- run through `guarded`.
use postfga.Prelude.{
  ℕ, ◌+◌, ◌<◌, ◌≤◌, ◌≡◌, refl, ◌∙◌, sym, true, inl, Option, none, some, List, ◌∷◌, length, ==_refl,
  arith, u16,
}
use postfga.FreeList.{SlotList, occurrences}
use postfga.Payload.{Request, Response}
use postfga.Queue
use postfga.Queue.Invariant
use postfga.Queue.Fifo.{contents}
use postfga.Channel.{
  empty, pending, canceled, pool_exhausted, enqueue_failed, request_canceled, Outcome, executed,
  failed, waiting, interrupted, Wake, Channel, state_of, acquire, release, catch_interrupt,
  answered,
}
use postfga.Channel.Vacancy.{IsConsistent}
use postfga.Channel.Busy.{Busy, release-Busy, release-empty, canceled-ne-empty}
use postfga.Channel.Effect
use postfga.Channel.Effect.{Effect, interrupted_state}
use postfga.Channel.Taken.{Taken, acquire-Taken}
use postfga.Channel.Ring.{queue-catch_interrupt, queue-release}
use postfga.Channel.Execute.{
  AllCareful, ExecuteEnd, execute-ExecuteEnd, execute-interrupted, queued,
}
use postfga.Protocol.Counts.{enqueue-occurrences}
use postfga.Args.{Result, ok, err, slots_exhausted, channel_error}
use postfga.Sql.{
  Reply, replied, raised, suspended, request_at, put_request, settle_read, settle, guard_filled,
  guarded,
}
use postfga.Sql.Checks.{put_request-Effect, pending-Busy}

module _ {T : Type 0} (S : SlotList T) where
  released_twice :
      (ch : Channel T) (i : ℕ)
      → Busy S i ch.pool
      → state_of S ch.pool i ≡ pending
      → let ch' = release S (catch_interrupt S ch i) i in
        IsConsistent S ch'.pool × (state_of S ch'.pool i ≡ empty) × (ch'.queue ≡ ch.queue)
  unfolding interrupted_state
  released_twice ch i b e =
      let h = Effect.interrupted S ch i b in
      let at : state_of S (catch_interrupt S ch i).pool i ≡ canceled =
        h.states i ∙ rw (==_refl i, e) refl in
      let (c, free) = release-Busy S (catch_interrupt S ch i) i (record {
        consistent = h.consistent;
        inside = rw h.same_length b.inside;
        used = λ p. canceled-ne-empty (sym at ∙ p);
      }) in
      (c, free, queue-release S (catch_interrupt S ch i) i ∙ queue-catch_interrupt S ch i)

module _ {T : Type 0} (S : SlotList T) {A : Type 0} where
  -- After an answer or an error the slot is EMPTY, and the pool consistent unless the channel raised the error.
  abbrev pub GuardEnd : ℕ → Reply A × Channel T → Type 0
  GuardEnd i (replied a, ch) = IsConsistent S ch.pool × (state_of S ch.pool i ≡ empty)
  GuardEnd i (raised (channel_error e), ch) = state_of S ch.pool i ≡ empty
  GuardEnd i (raised e, ch) = IsConsistent S ch.pool × (state_of S ch.pool i ≡ empty)
  GuardEnd i (suspended, ch) = Busy S i ch.pool

  settle_read-GuardEnd :
      (i : ℕ) (ch : Channel T) (r : Result A) → Busy S i ch.pool → GuardEnd i (settle_read S i ch r)
  unfolding settle_read
  settle_read-GuardEnd i ch (ok a) b = release-Busy S ch i b
  settle_read-GuardEnd i ch (err (channel_error e)) b = (release-Busy S ch i b).1
  settle_read-GuardEnd i ch (err e) b = release-Busy S ch i b

  settle-GuardEnd :
      (read : Response → Result A) (i : ℕ) (r : Outcome × Channel T)
      → ExecuteEnd S i r
      → GuardEnd i (settle S read i r)
  unfolding settle
  settle-GuardEnd read i (executed, ch) (b, _) = settle_read-GuardEnd i ch _ b
  settle-GuardEnd read i (failed interrupted, ch) (_, h, _) = release-empty S ch i h
  settle-GuardEnd read i (failed pool_exhausted, ch) h = absurd h
  settle-GuardEnd read i (failed enqueue_failed, ch) (_, h) = release-empty S ch i (inl h)
  settle-GuardEnd read i (failed request_canceled, ch) (_, h) = release-empty S ch i (inl h)
  settle-GuardEnd read i (waiting, ch) (b, _) = b

  guard_filled-GuardEnd :
      (read : Response → Result A) (wakes : List (Wake T)) (i : ℕ) (ch ch' : Channel T)
      (r : Result Request)
      → i < length ch.pool.slots
      → Effect S i pending ch.pool ch'.pool
      → AllCareful S i wakes
      → GuardEnd i (guard_filled S read wakes i ch' r)
  unfolding guard_filled
  guard_filled-GuardEnd read wakes i ch ch' (err (channel_error e)) inside f careful =
      (release-Busy S ch' i (pending-Busy S ch ch' i inside f)).1
  guard_filled-GuardEnd read wakes i ch ch' (err e) inside f careful =
      release-Busy S ch' i (pending-Busy S ch ch' i inside f)
  guard_filled-GuardEnd read wakes i ch ch' (ok request) inside f careful =
      let g = put_request-Effect S ch.pool ch' i pending request inside f in
      settle-GuardEnd read i _ (
        execute-ExecuteEnd S _ i wakes (pending-Busy S ch (put_request S ch' i request) i inside g)
          careful)

  abbrev pub Guarded : Channel T → Option ℕ → Reply A × Channel T → Type 0
  Guarded ch none r = (r.0 ≡ raised slots_exhausted) × (r.1.pool ≡ ch.pool)
  Guarded ch (some i) r = (i < length ch.pool.slots) × (state_of S ch.pool i ≡ empty) × GuardEnd i r

  guarded-Taken :
      (fill : Request → Result Request) (read : Response → Result A) (wakes : List (Wake T))
      (ch : Channel T) (r : Option ℕ × Channel T)
      → Taken S ch r
      → ((i : ℕ) → AllCareful S i wakes)
      → Guarded ch r.0 (guarded S fill read wakes r)
  unfolding guarded
  guarded-Taken fill read wakes ch (none, ch') (same, _) careful = (refl, same)
  guarded-Taken fill read wakes ch (some i, ch') (inside, free, effect, _) careful =
      (inside, free, guard_filled-GuardEnd read wakes i ch ch' _ inside effect (careful i))

  -- A guarded call on a consistent pool, while the other processes free no slot that is in use. Without a free
  -- slot it raises an error and changes no slot. Else it takes one that was EMPTY; that slot is EMPTY again when the
  -- call answers or raises any error, an interrupt of the wait included, and the pool is consistent then unless the
  -- error is one that the channel raised; while the call still waits, the slot is in use.
  pub guarded_slot :
      (fill : Request → Result Request) (read : Response → Result A) (wakes : List (Wake T))
      (ch : Channel T) (my_pid : ℕ)
      → IsConsistent S ch.pool
      → ((i : ℕ) → AllCareful S i wakes)
      → Guarded ch (acquire S ch my_pid).0 (guarded S fill read wakes (acquire S ch my_pid))
  guarded_slot fill read wakes ch my_pid c careful =
      guarded-Taken fill read wakes ch (acquire S ch my_pid) (acquire-Taken S ch my_pid c) careful

  abbrev pub FreedWhileQueued : ℕ → Channel T → Reply A × Channel T → Type 0
  FreedWhileQueued i ch (reply, ch') =
      (reply ≡ raised (channel_error interrupted))
      × IsConsistent S ch'.pool
      × (state_of S ch'.pool i ≡ empty)
      × (occurrences i (contents ch'.queue) ≡ 1 + occurrences i (contents ch.queue))

  interrupted-Taken :
      (k : ℕ) (fill : Request → Result Request) (read : Response → Result A) (w : Wake T)
      (wakes : List (Wake T)) (ch : Channel T) (i : ℕ) (r : Option ℕ × Channel T)
      → Taken S ch r
      → r.0 ≡ some i
      → Queue.Invariant.IsValid k ch.queue
      → length ch.pool.slots ≤ 65536
      → ((request : Request) → (request' : Request) × (fill request ≡ ok request'))
      → (Queue.enqueue ch.queue (u16 i)).0 ≡ true
      → w.interrupt ≡ true
      → w.change ≡ (λ ch. ch)
      → FreedWhileQueued i ch (guarded S fill read (w ∷ wakes) r)
  unfolding guarded guard_filled settle answered put_request
  interrupted-Taken k fill read w wakes ch i (none, ch') t e v few total accepted due idle =
      absurd (cc)
  interrupted-Taken k fill read w wakes ch i (some j, ch') (inside, free, f, queue) e v few total
        accepted due idle =
      let same : j ≡ i = cc in
      let (request, filled) = total (request_at S ch' j) in
      let ch1 = put_request S ch' j request in
      let g = put_request-Effect S ch.pool ch' j pending request inside f in
      let at : state_of S ch1.pool j ≡ pending = g.states j ∙ rw (==_refl j) refl in
      let fits : (Queue.enqueue ch1.queue (u16 j)).0 ≡ true = rw (queue, same) accepted in
      let small : u16 j ≡ j = omega arith in
      let counted : (q : Queue.Queue)
          → q ≡ ch.queue
          → occurrences j (contents (Queue.enqueue q (u16 j)).1)
            ≡ 1 + occurrences j (contents ch.queue) =
        λ q p. rw p (
          rw (enqueue-occurrences k ch.queue v (u16 j) j (rw same accepted), small, ==_refl j)
            refl) in
      let (consistent, free_again, ring) =
        released_twice S (queued S ch1 j) j (pending-Busy S ch ch1 j inside g) at in
      rw (filled, execute-interrupted S ch1 j w wakes fits (rw at refl) due, idle)
        (refl, consistent, rw (← same) free_again, rw (ring, ← same) (counted ch1.queue queue))

  -- A guarded call whose request fills and whose slot the ring accepts, on a consistent pool of at most 65536
  -- slots and a valid ring, with an interrupt due when it first sleeps and no other process at work before that.
  -- It raises the error of the interrupt, its slot is EMPTY in a consistent pool, so that any process can take
  -- it, and the ring names the slot once more than it did before the call.
  pub interrupt_frees_queued :
      (k : ℕ) (fill : Request → Result Request) (read : Response → Result A) (w : Wake T)
      (wakes : List (Wake T)) (ch : Channel T) (my_pid i : ℕ)
      → IsConsistent S ch.pool
      → Queue.Invariant.IsValid k ch.queue
      → length ch.pool.slots ≤ 65536
      → (acquire S ch my_pid).0 ≡ some i
      → ((request : Request) → (request' : Request) × (fill request ≡ ok request'))
      → (Queue.enqueue ch.queue (u16 i)).0 ≡ true
      → w.interrupt ≡ true
      → w.change ≡ (λ ch. ch)
      → FreedWhileQueued i ch (guarded S fill read (w ∷ wakes) (acquire S ch my_pid))
  interrupt_frees_queued k fill read w wakes ch my_pid i c v few e total accepted due idle =
      interrupted-Taken k fill read w wakes ch i _ (acquire-Taken S ch my_pid c) e v few total
        accepted due idle
