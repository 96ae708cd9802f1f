-- ===== src/Protocol/Exclusive.antt =====
-- What the soundness of all reachable states means for a backend that acquires or queues a slot.
use native.Mathlib.Decide.{dec_lt}
use postfga.Prelude.{
  ltb, ◌∙◌, ℕ, zero, suc, ◌+◌, ◌^◌, ◌<◌, ◌≤◌, ◌≡◌, refl, Bool, true, List, [], ◌∷◌, length, ◌==◌,
  ==_iff, ==_refl, if◌then◌else◌, arith, inl, inr, Bool-cases, u16,
}
use postfga.FreeList.{SlotList, occurrences}
use postfga.Queue
use postfga.Queue.{Queue}
use postfga.Queue.Invariant
use postfga.Queue.Invariant.{init-IsValid, is_full_iff}
use postfga.Queue.Fifo.{contents, push_back, enqueue_refines, length-contents}
use postfga.Channel.{Slot, SlotState, empty, pending, state_of}
use postfga.Channel.Vacancy.{pool_init-IsConsistent}
use postfga.Protocol.{Phase, nobody, filling, waiting, System, init, Reach}
use postfga.Protocol.Slots.{IsFine}
use postfga.Protocol.Invariant.{queued, served, IsSound}
use postfga.Protocol.Safety.{Reach-IsSound}

free_of_empty : (p : Phase) (w f : ℕ) → IsFine empty p w f → (p ≡ nobody) × (w ≡ 0) × (f ≡ 0)
free_of_empty nobody w f (a, b) = (refl, a, b)
free_of_empty filling w f h = absurd h
free_of_empty waiting w f h = absurd h

named_le_one : (s : SlotState) (p : Phase) (w f : ℕ) → IsFine s p w f → w + f ≤ 1
named_le_one empty nobody w f h = omega arith
named_le_one s p w f h = ground arith

unnamed_of_filling : (s : SlotState) (w f : ℕ) → IsFine s filling w f → w ≡ 0
unnamed_of_filling pending w f h = h.0
unnamed_of_filling s w f h = ground arith

-- A list of numbers below `n`, none of them twice, is not longer than `n`.
without : ℕ → List ℕ → List ℕ
without i [] = []
without i (x ∷ xs) = let rest = without i xs in if x == i then rest else x ∷ rest

length-without : (i : ℕ) (xs : List ℕ) → length (without i xs) + occurrences i xs ≡ length xs
unfolding without
length-without i [] = omega arith
length-without i (x ∷ xs) = ground (arith, length-without i xs)

occurrences-without :
    (i j : ℕ) (xs : List ℕ)
    → occurrences j (without i xs) ≡ (if i == j then 0 else occurrences j xs)
unfolding without
occurrences-without i j [] = ground arith
occurrences-without i j (x ∷ xs) = ground (arith, occurrences-without i j xs)

no_members : (xs : List ℕ) → ((i : ℕ) → occurrences i xs ≡ 0) → xs ≡ []
no_members [] h = refl
no_members (x ∷ xs) h = absurd (ground (arith, h x))

length-le :
    (n : ℕ) (xs : List ℕ)
    → ((i : ℕ) → occurrences i xs ≤ (if ltb i n then 1 else 0))
    → length xs ≤ n
length-le zero xs h = rw (no_members xs (λ i. ground (arith, h i))) (omega arith)
length-le (suc n) xs h =
    let once : occurrences n xs ≤ 1 = ground (arith, h n) in
    let rest = length-le n (without n xs) (λ i. rw occurrences-without (ground (arith, h i))) in
    omega (arith, length-without n xs, once, rest)

pub accepted :
    (k : ℕ) (q : Queue)
    → Queue.Invariant.IsValid k q
    → (x : ℕ) → length (contents q) < q.mask
    → (Queue.enqueue q x).0 ≡ true
unfolding push_back
accepted k q v x h = ground (arith, enqueue_refines k q v x)

contents_nothing : (q : Queue) → length (contents q) ≡ 0 → (i : ℕ) → occurrences i (contents q) ≡ 0
contents_nothing q e = none_in (contents q) e
  where
    none_in : (xs : List ℕ) → length xs ≡ 0 → (i : ℕ) → occurrences i xs ≡ 0
    none_in [] e i = refl
    none_in (x ∷ xs) e i = absurd (omega (arith, e))

module _ {T : Type 0} (S : SlotList T) where
  abbrev pub start : List Slot → List ℕ → ℕ → System T
  start memory values k = init S memory values (length memory) (2 ^ k)

  pub init-IsSound :
      (memory : List Slot) (values : List ℕ) (k : ℕ)
      → k ≤ 16
      → length values ≡ 2 ^ k
      → length memory ≤ 65536
      → IsSound S k (start memory values k)
  init-IsSound memory values k narrow storage few =
      let (ring, unused) = init-IsValid k values narrow storage in
      let (consistent, long, all) = pool_init-IsConsistent S memory (length memory) refl in
      let q = Queue.init values (2 ^ k) in
      let unnamed = contents_nothing q (length-contents k q ring ∙ unused) in
      record {
        consistent = consistent;
        ring = ring;
        few = rw long few;
        fine = λ i h. rw (all i (omega (arith, h, long))) (omega (arith, unnamed i));
        named = λ i h. omega (arith, unnamed i);
      }

  module _ (is_running : ℕ → Bool) (memory : List Slot) (values : List ℕ) (k : ℕ) (narrow : k ≤ 16)
      (storage : length values ≡ 2 ^ k) (few : length memory ≤ 65536) where
    pub from_start-IsSound :
        {s : System T} → Reach S is_running (start memory values k) s → IsSound S k s
    from_start-IsSound r =
        Reach-IsSound S is_running k r (init-IsSound memory values k narrow storage few)

    -- In every such state no slot is named twice by the ring, the drained batch, the client and the completed
    -- queue together.
    pub named_once :
        {s : System T} (i : ℕ)
        → Reach S is_running (start memory values k) s
        → queued s i + served s i ≤ 1
    named_once {s} i r =
        let v = from_start-IsSound r in
        elim (dec_lt i (length s.ch.pool.slots)) [
          | yes h ↦ named_le_one (state_of S s.ch.pool i) (s.phase i) _ _ (v.fine i h)
          | no h ↦ omega (arith, v.named i (omega (arith, h)))
        ]

    -- In every state that backends and the worker reach, in any order, from the initialisation of a channel with a
    -- power of two of ring cells, up to 2^16, and fewer slots than that: the ring takes a slot that a backend has
    -- filled, so `fga_channel_execute_slot` does not raise "failed to enqueue".
    pub enqueue_accepted :
        {s : System T} (i : ℕ)
        → Reach S is_running (start memory values k) s
        → length s.ch.pool.slots < 2 ^ k
        → i < length s.ch.pool.slots
        → s.phase i ≡ filling
        → (Queue.enqueue s.ch.queue (u16 i)).0 ≡ true
    enqueue_accepted {s} i r room inside e =
        let v = from_start-IsSound r in
        let unnamed = unnamed_of_filling (state_of S s.ch.pool i) _ _ (rw e at (v.fine i inside)) in
        let short : length (i ∷ contents s.ch.queue) ≤ length s.ch.pool.slots =
          length-le (length s.ch.pool.slots) (i ∷ contents s.ch.queue) (λ j.
            elim (Bool-cases (i == j)) [
              | inl same ↦ rw (← (==_iff i j).0 same) (ground (arith, unnamed, inside, ==_refl i))
              | inr apart ↦ elim (dec_lt j (length s.ch.pool.slots)) [
                | yes h ↦ ground (arith, apart, h, named_once j r)
                | no h ↦ ground (arith, apart, h, v.named j (omega (arith, h)))
              ]
            ]) in
        accepted k s.ch.queue v.ring (u16 i) (omega (arith, short, room, v.ring.capacity))
