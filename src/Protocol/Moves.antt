-- ===== src/Protocol/Moves.antt =====
-- The steps that touch the ring, the batch or the client keep the system sound.
use native.Mathlib.Decide.{dec_lt}
use postfga.Prelude.{
  ltb, ℕ, ◌+◌, ◌<◌, ◌≡◌, refl, ap, ◌∙◌, Bool, true, some, List, [], ◌∷◌, ◌++◌, length, ◌==◌,
  ==_refl, if◌then◌else◌, arith, inl, inr, Bool-cases, u16,
}
use postfga.FreeList.{SlotList, occurrences, occurrences-append}
use postfga.Queue
use postfga.Queue.Invariant.{enqueue-IsValid}
use postfga.Queue.Trace.{drain_refines}
use postfga.Queue.Fifo.{contents}
use postfga.Channel.{
  SlotState, pending, state_of, acquire, drain_slots, wake_backend, begin_processing,
  handle_response,
}
use postfga.Channel.Effect.{begun, responded, unchanged, is_pending}
use postfga.Channel.Taken.{acquire-Taken}
use postfga.Channel.Ring.{queue-begin_processing, queue-handle_response, begin_processing-taken}
use postfga.Protocol.{Phase, filling, waiting, System, update}
use postfga.Protocol.Slots.{IsFine, take-IsFine, submit-IsFine, begin-IsFine, respond-IsFine}
use postfga.Protocol.Counts.{enqueue-occurrences, drain-occurrences}
use postfga.Protocol.Invariant.{
  queued, served, IsSound, About-IsSound, recount-IsSound, owned-Busy, named-Busy, restate-IsSound,
  filling-ne-nobody, Taken-slot, same_at, split_at,
}

recount-IsFine :
    (s : SlotState) (p : Phase) (w v f g : ℕ) → w ≡ v → f ≡ g → IsFine s p w f → IsFine s p v g
recount-IsFine s p w v f g d e h = rw (← d, ← e) h

module _ {T : Type 0} (S : SlotList T) (is_running : ℕ → Bool) (k : ℕ) where
  -- A slot that is named is one of the pool's.
  pub named-inside :
      (s : System T) (i : ℕ)
      → IsSound S k s
      → 0 < queued s i + served s i
      → i < length s.ch.pool.slots
  named-inside s i v h = elim (dec_lt i (length s.ch.pool.slots)) [
    | yes p ↦ p
    | no p ↦ absurd (omega (arith, h, v.named i (omega (arith, p))))
  ]

  pub begins-IsSound :
      (s : System T) (i : ℕ) (rest : List ℕ)
      → s.batch ≡ i ∷ rest
      → IsSound S k s
      → IsSound S k (record s {
        ch = (begin_processing S s.ch i).1;
        batch = rest;
        inflight = if (begin_processing S s.ch i).0 then i ∷ s.inflight else s.inflight;
      })
  begins-IsSound s i rest e v =
      About-IsSound S k i _ (s.phase i) w f s t
        (record {
          effect = begun S s.ch i (named-Busy S k s v i inside some_name);
          phases = same_at s.phase i;
          queues = λ j.
              split_at (queued t) (queued s) w i j (rw (queue-begin_processing S s.ch i) refl)
                (λ apart. rw (queue-begin_processing S s.ch i) (ground (arith, batched j, apart)));
          serves = λ j.
              split_at (served t) (served s) f i j (in_client i ∙ ground (arith, ==_refl i))
                (λ apart. in_client j ∙ ground (arith, apart));
        })
        v (rw (queue-begin_processing S s.ch i) v.ring) inside
        (begin-IsFine (state_of S s.ch.pool i) (s.phase i) w (served s i) (
          recount-IsFine _ _ (queued s i) (1 + w) _ (served s i)
            (ground (arith, batched i, ==_refl i)) refl (v.fine i inside)))
    where
      t : System T
      t = record s {
        ch = (begin_processing S s.ch i).1;
        batch = rest;
        inflight = if (begin_processing S s.ch i).0 then i ∷ s.inflight else s.inflight;
      }

      w : ℕ
      w = occurrences i (contents s.ch.queue) + occurrences i rest

      f : ℕ
      f = (if is_pending (state_of S s.ch.pool i) then 1 else 0) + served s i

      batched : (j : ℕ) → occurrences j s.batch ≡ (if i == j then 1 else 0) + occurrences j rest
      batched j = ap (occurrences j) e

      in_client :
          (j : ℕ)
          → served t j
            ≡ (if i == j then (if is_pending (state_of S s.ch.pool i) then 1 else 0) else 0)
              + served s j
      in_client j =
          rw (begin_processing-taken S s.ch i)
            (elim (Bool-cases (is_pending (state_of S s.ch.pool i))) [
              | inl y ↦ rw y (omega arith)
              | inr n ↦ rw n (ground arith)
            ])

      some_name : 0 < queued s i + served s i
      some_name = ground (arith, batched i, ==_refl i)

      inside : i < length s.ch.pool.slots
      inside = named-inside s i v some_name

  pub responds-IsSound :
      (s : System T) (i : ℕ) (rest : List ℕ)
      → s.completed ≡ i ∷ rest
      → (s.phase i ≡ waiting → wake_backend S is_running s.ch i ≡ true)
      → IsSound S k s
      → IsSound S k (record s { ch = handle_response S is_running s.ch i; completed = rest })
  responds-IsSound s i rest e woken v =
      About-IsSound S k i _ (s.phase i) (queued s i) f s t
        (record {
          effect = responded S is_running s.ch i (named-Busy S k s v i inside some_name);
          phases = same_at s.phase i;
          queues = λ j. rw (queue-handle_response S is_running s.ch i) (same_at (queued s) i j);
          serves = λ j.
              split_at (served t) (served s) f i j refl
                (λ apart. ground (arith, done_count j, apart));
        })
        v (rw (queue-handle_response S is_running s.ch i) v.ring) inside
        (respond-IsFine (state_of S s.ch.pool i) (s.phase i) (queued s i) f
          (wake_backend S is_running s.ch i)
          (recount-IsFine _ _ (queued s i) (queued s i) _ (1 + f) refl
            (ground (arith, done_count i, ==_refl i)) (v.fine i inside))
          woken)
    where
      t : System T
      t = record s { ch = handle_response S is_running s.ch i; completed = rest }

      f : ℕ
      f = occurrences i s.inflight + occurrences i rest

      done_count :
          (j : ℕ) → occurrences j s.completed ≡ (if i == j then 1 else 0) + occurrences j rest
      done_count j = ap (occurrences j) e

      some_name : 0 < queued s i + served s i
      some_name = ground (arith, done_count i, ==_refl i)

      inside : i < length s.ch.pool.slots
      inside = named-inside s i v some_name

  pub submits-IsSound :
      (s : System T) (i : ℕ)
      → i < length s.ch.pool.slots
      → s.phase i ≡ filling
      → (Queue.enqueue s.ch.queue (u16 i)).0 ≡ true
      → IsSound S k s
      → IsSound S k (record s {
        ch = record s.ch { queue = (Queue.enqueue s.ch.queue (u16 i)).1 };
        phase = update s.phase i waiting;
      })
  submits-IsSound s i inside e ok v =
      About-IsSound S k i (state_of S s.ch.pool i) waiting (queued s i + 1) (served s i) s t
        (record {
          effect =
              unchanged S s.ch.pool i _ (owned-Busy S k s v i inside filling e filling-ne-nobody)
                refl;
          phases = λ j. refl;
          queues = λ j.
              split_at (queued t) (queued s) (queued s i + 1) i j
                (ground (arith, grown i, ==_refl i)) (λ apart. ground (arith, grown j, apart));
          serves = same_at (served s) i;
        })
        v (enqueue-IsValid k s.ch.queue (u16 i) v.ring) inside
        (submit-IsFine (state_of S s.ch.pool i) (queued s i) (served s i)
          (rw e at (v.fine i inside)))
    where
      t : System T
      t = record s {
        ch = record s.ch { queue = (Queue.enqueue s.ch.queue (u16 i)).1 };
        phase = update s.phase i waiting;
      }

      exact : u16 i ≡ i
      exact = omega (arith, inside, v.few)

      grown :
          (j : ℕ)
          → occurrences j (contents (Queue.enqueue s.ch.queue (u16 i)).1)
            ≡ (if i == j then 1 else 0) + occurrences j (contents s.ch.queue)
      grown j =
          enqueue-occurrences k s.ch.queue v.ring (u16 i) j ok
          ∙ ap (λ (x : ℕ). (if x == j then 1 else 0) + occurrences j (contents s.ch.queue)) exact

  pub acquires-IsSound :
      (s : System T) (my_pid i : ℕ)
      → (acquire S s.ch my_pid).0 ≡ some i
      → IsSound S k s
      → IsSound S k (record s { ch = (acquire S s.ch my_pid).1; phase = update s.phase i filling })
  acquires-IsSound s my_pid i e v =
      let (inside, free, effect, queue) =
        Taken-slot S s.ch i (acquire S s.ch my_pid) (acquire-Taken S s.ch my_pid v.consistent) e in
      restate-IsSound S k s v i inside pending filling (acquire S s.ch my_pid).1 effect queue
        (take-IsFine (s.phase i) (queued s i) (served s i) (rw free at (v.fine i inside)))

  pub drains-IsSound :
      (s : System T) (max_count : ℕ)
      → IsSound S k s
      → IsSound S k (record s {
        ch = (drain_slots S s.ch max_count).1;
        batch = s.batch ++ (drain_slots S s.ch max_count).0;
      })
  unfolding drain_slots
  drains-IsSound s max_count v =
      let n = if ltb 64 max_count then 64 else max_count in
      let (out, left, valid) = drain_refines k s.ch.queue n v.ring in
      recount-IsSound S k s _ v refl refl valid
        (λ j. omega (
          arith,
          occurrences-append j s.batch (Queue.drain s.ch.queue n).0,
          drain-occurrences k s.ch.queue v.ring n j,
        ))
        (λ j. refl)

  pub completes-IsSound :
      (s : System T) (i : ℕ) (before after : List ℕ)
      → s.inflight ≡ before ++ (i ∷ after)
      → IsSound S k s
      → IsSound S k (record s { inflight = before ++ after; completed = s.completed ++ (i ∷ []) })
  completes-IsSound s i before after e v =
      recount-IsSound S k s _ v refl refl v.ring (λ j. refl)
        (λ j. omega (
          arith,
          ap (occurrences j) e,
          occurrences-append j before after,
          occurrences-append j before (i ∷ after),
          occurrences-append j s.completed (i ∷ []),
        ))
