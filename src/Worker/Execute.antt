-- ===== src/Worker/Execute.antt =====
-- Which slots one run of the worker completes.
use mathlib.Core.List.{Permᴰ}
use postfga.Prelude.{
  ℕ, ◌+◌, ◌<◌, ◌≤◌, ◌≡◌, refl, sym, ◌∙◌, true, List, [], ◌∷◌, map, length, ◌==◌, ==_iff, ==_refl,
  if◌then◌else◌, arith, inl, inr, Bool-cases,
}
use postfga.FreeList.{SlotList, occurrences}
use postfga.Channel.{Channel, state_of, begin_processing}
use postfga.Channel.Effect.{is_pending}
use postfga.Client.{Memory}
use postfga.Client.Callbacks.{is_sent, sent}
use postfga.Client.{Call, process_batch}
use postfga.Client.Answers.{Answer, complete_all}
use postfga.Client.Callbacks.{process_batch_completes, process_batch-nil, process_batch-single}
use postfga.Channel.{drain_slots}
use postfga.Protocol.{System}
use postfga.Protocol.Invariant.{IsSound, queued, served, named-Busy}
use postfga.Protocol.Counts.{drain-occurrences}
use postfga.Protocol.Moves.{named-inside}
use postfga.Prelude.{ltb}
use postfga.Worker.Drained.{Drained, AllBegun, begin_all-AllBegun}
use postfga.Worker.{item, payloads, begin_all, send, execute, max_batch}

occurrences-sent :
    (mem : Memory) (slots : List ℕ) (i : ℕ)
    → occurrences i (sent mem (map item slots))
      ≡ (if is_sent (mem i).request.type then occurrences i slots else 0)
occurrences-sent mem [] i = ground arith
occurrences-sent mem (j ∷ slots) i = elim (Bool-cases (j == i)) [
  | inl same ↦ rw ((==_iff j i).0 same) (ground (arith, occurrences-sent mem slots i, ==_refl i))
  | inr apart ↦ ground (arith, apart, occurrences-sent mem slots i)
]

module _ {T : Type 0} (S : SlotList T) where
  -- One slot goes alone, as a batch of one would.
  pub send-process_batch :
      (ch : Channel T) (slots : List ℕ)
      → (send S ch slots).0
        ≡ process_batch (payloads S (begin_all S ch slots).1) (map item (begin_all S ch slots).0)
  unfolding send begin_all
  send-process_batch ch [] = sym (process_batch-nil (payloads S ch))
  send-process_batch ch (i ∷ []) = elim (Bool-cases (begin_processing S ch i).0) [
    | inl y ↦ rw y (process_batch-single (payloads S (begin_processing S ch i).1) (item i))
    | inr n ↦ rw n (sym (process_batch-nil (payloads S (begin_processing S ch i).1)))
  ]
  send-process_batch ch (i ∷ j ∷ slots) = refl

  abbrev pub Completes : Channel T → List ℕ → List ℕ → Type 0
  Completes ch slots callbacks =
      (i : ℕ)
      → occurrences i callbacks ≡ (
          if is_pending (state_of S ch.pool i)
          then (if is_sent (payloads S ch i).request.type then occurrences i slots else 0)
          else 0)

  pub send-Completes :
      (ch : Channel T) (slots : List ℕ) (calls : List (Call × Answer)) (mem : Memory)
      → Drained S ch slots
      → Permᴰ (map (λ (c : Call × Answer). c.0) calls) (send S ch slots).0
      → Completes ch slots (complete_all calls mem).1
  send-Completes ch slots calls mem d order i =
      let r = begin_all-AllBegun S ch slots d in
      let counted =
        process_batch_completes (payloads S (begin_all S ch slots).1) mem
          (map item (begin_all S ch slots).0) calls (rw (← send-process_batch ch slots) order) i in
      counted
      ∙ occurrences-sent (payloads S (begin_all S ch slots).1) (begin_all S ch slots).0 i
      ∙ rw (r.kept i, r.taken i) (ground arith)

  send-channel : (ch : Channel T) (slots : List ℕ) → (send S ch slots).1 ≡ (begin_all S ch slots).1
  unfolding send begin_all
  send-channel ch [] = refl
  send-channel ch (i ∷ []) = refl
  send-channel ch (i ∷ j ∷ slots) = refl

  drain-queued :
      (k n : ℕ) (s : System T) (i : ℕ)
      → IsSound S k s
      → occurrences i (drain_slots S s.ch n).0 ≤ queued s i
  unfolding drain_slots
  drain-queued k n s i v =
      omega (arith, drain-occurrences k s.ch.queue v.ring (if ltb 64 n then 64 else n) i)

  pub drain-Drained :
      (k n : ℕ) (s : System T)
      → IsSound S k s
      → ((i : ℕ) → queued s i + served s i ≤ 1)
      → Drained S (drain_slots S s.ch n).1 (drain_slots S s.ch n).0
  unfolding drain_slots
  drain-Drained k n s v once =
      let drained = (drain_slots S s.ch n).0 in
      let inside : (i : ℕ) → 0 < occurrences i drained → i < length s.ch.pool.slots =
        λ i h. named-inside S (λ pid. true) k s i v (omega (arith, drain-queued k n s i v, h)) in
      record {
        consistent = v.consistent;
        once = λ i. omega (arith, drain-queued k n s i v, once i);
        inside = inside;
        used = λ i h.
            (named-Busy S k s v i (inside i h) (omega (arith, drain-queued k n s i v, h))).used;
      }

  send-AllBegun :
      (ch : Channel T) (slots : List ℕ)
      → Drained S ch slots
      → AllBegun S ch slots (begin_all S ch slots).0 (send S ch slots).1
  send-AllBegun ch slots d = rw (send-channel ch slots) (begin_all-AllBegun S ch slots d)

  module _ (k : ℕ) (s : System T) (v : IsSound S k s)
      (once : (j : ℕ) → queued s j + served s j ≤ 1) where
    -- A slot that the worker or its client has already is left alone by a run of `execute`.
    pub execute-state :
        (i : ℕ) → 0 < served s i → state_of S (execute S s.ch).1.pool i ≡ state_of S s.ch.pool i
    unfolding execute drain_slots
    execute-state i taken =
        let r =
          send-AllBegun (drain_slots S s.ch max_batch).1 (drain_slots S s.ch max_batch).0
            (drain-Drained k max_batch s v once) in
        let away : occurrences i (drain_slots S s.ch max_batch).0 ≡ 0 =
          omega (arith, drain-queued k max_batch s i v, once i, taken) in
        r.states i ∙ rw away refl

    -- The completed slots are in use, each of them once, after it as before.
    pub execute-Drained : Drained S (execute S s.ch).1 s.completed
    unfolding execute drain_slots
    execute-Drained =
        let r =
          send-AllBegun (drain_slots S s.ch max_batch).1 (drain_slots S s.ch max_batch).0
            (drain-Drained k max_batch s v once) in
        let inside : (i : ℕ) → 0 < occurrences i s.completed → i < length s.ch.pool.slots =
          λ i h. named-inside S (λ pid. true) k s i v (omega (arith, h)) in
        record {
          consistent = r.consistent;
          once = λ i. omega (arith, once i);
          inside = λ i h. omega (arith, r.same_length, inside i h);
          used = λ i h.
              rw (execute-state i (omega (arith, h)))
                ((named-Busy S k s v i (inside i h) (omega (arith, h))).used);
        }
