-- ===== src/Protocol/Ids.antt =====
-- The request ids of the slots in use are all different, as long as the 64-bit counter of the channel does not wrap.
use postfga.Prelude.{
  ℕ, suc, ◌+◌, ◌%◌, ◌^◌, ◌<◌, ◌≤◌, ◌≡◌, ◌≢◌, refl, ap, sym, ◌∙◌, Bool, true, false, Option, none,
  some, List, ◌∷◌, length, ◌==◌, ==_iff, ==_refl, if◌then◌else◌, arith, inl, inr, Bool-cases,
}
use postfga.FreeList.{SlotList, occurrences}
use postfga.Payload.{Payload}
use postfga.Sql.{put_request}
use postfga.Sql.Checks.{put_request-Effect}
use postfga.Protocol.Moves.{named-inside}
use postfga.Channel.{
  drain_slots, SlotState, empty, Pool, Channel, state_of, acquire, release, catch_interrupt,
  begin_processing, handle_response,
}
use postfga.Channel.Busy.{Busy}
use postfga.Channel.Effect.{Effect, released, interrupted, begun, responded, unchanged}
use postfga.Channel.Taken.{Taken, acquire-Taken}
use postfga.Channel.Payloads.{
  payload-release, payload-catch_interrupt, payload-begin_processing, payload-handle_response,
  request_id-release, request_id-catch_interrupt, request_id-begin_processing,
  request_id-handle_response,
}
use postfga.Channel.Numbers.{id_at, Numbered, acquire-Numbered, id-set}
use postfga.Protocol.{
  filling, waiting, System, acquires, fills, submits, is_refused, returns, gives_up, dies, drains,
  begins, completes, responds, Reach, here, next,
}
use postfga.Protocol.Invariant.{
  IsSound, queued, served, named-Busy, owned-Busy, filling-ne-nobody, waiting-ne-nobody,
}
use postfga.Protocol.Safety.{Reach-IsSound}

abbrev number : Payload → ℕ
number payload = payload.request.request_id

same_if : (f : ℕ → ℕ) (i j n : ℕ) → n ≡ f i → (if i == j then n else f j) ≡ f j
same_if f i j n e = elim (Bool-cases (i == j)) [
  | inl y ↦ rw (y, e, (==_iff i j).0 y) refl
  | inr y ↦ rw y refl
]

module _ {T : Type 0} (S : SlotList T) where
  -- Whether slot `i` is one of the pool and in use.
  abbrev pub InUse : Pool T → ℕ → Type 0
  InUse pool i = (i < length pool.slots) × (state_of S pool i ≢ empty)

  -- `n` is the last id that was given.
  pub record HasIds (n : ℕ) (pool : Pool T) : Type 0 where
    pub given : (i : ℕ) → InUse pool i → id_at S pool i ≤ n
    pub distinct : (i j : ℕ) → InUse pool i → InUse pool j → id_at S pool i ≡ id_at S pool j → i ≡ j

  -- A step that takes no slot into use and keeps the ids.
  kept-HasIds :
      (n i : ℕ) (x : SlotState) (pool pool' : Pool T)
      → Busy S i pool
      → Effect S i x pool pool'
      → ((j : ℕ) → id_at S pool' j ≡ id_at S pool j)
      → HasIds n pool
      → HasIds n pool'
  kept-HasIds n i x pool pool' b f same v =
      let used : (j : ℕ) → InUse pool' j → InUse pool j = λ j u. (
        omega (arith, f.same_length, u.0),
        elim (Bool-cases (i == j)) [
          | inl same_slot ↦ rw (← (==_iff i j).0 same_slot) b.used
          | inr apart ↦ λ e. u.1 (f.states j ∙ rw apart e)
        ],
      ) in
      record {
        given = λ j u. rw (same j) (v.given j (used j u));
        distinct = λ j l u w e. v.distinct j l (used j u) (used l w) (sym (same j) ∙ e ∙ same l);
      }

  Taken-HasIds :
      (n i : ℕ) (ch : Channel T) (r : Option ℕ × Channel T)
      → Taken S ch r
      → Numbered S ch r
      → r.0 ≡ some i
      → ch.request_id ≡ n
      → suc n < 2 ^ 64
      → HasIds n ch.pool
      → (r.1.request_id ≡ suc n) × HasIds (suc n) r.1.pool
  Taken-HasIds n i ch (none, ch') t ids e at small v = absurd (cc)
  Taken-HasIds n i ch (some j, ch') (inside, free, f, queue) (last, ids) e at small v =
      let next_id : (ch.request_id + 1) % 2 ^ 64 ≡ suc n = omega (arith, at, small) in
      let numbered : (l : ℕ) → id_at S ch'.pool l ≡ (if j == l then suc n else id_at S ch.pool l) =
        λ l. rw (← next_id) (ids l) in
      let used : (l : ℕ) → (j == l) ≡ false → InUse ch'.pool l → InUse ch.pool l =
        λ l apart u. (omega (arith, f.same_length, u.0), λ p. u.1 (f.states l ∙ rw apart p)) in
      (
        last ∙ next_id,
        record {
          given = λ l u. elim (Bool-cases (j == l)) [
            | inl y ↦ rw (numbered l, y) (omega arith)
            | inr y ↦ rw (numbered l, y) (omega (arith, v.given l (used l y u)))
          ];
          distinct = λ l m u w p. elim (Bool-cases (j == l)) [
            | inl y ↦ elim (Bool-cases (j == m)) [
              | inl z ↦ sym ((==_iff j l).0 y) ∙ (==_iff j m).0 z
              | inr z ↦
                  absurd (ground (arith, p, numbered l, numbered m, y, z, v.given m (used m z w)))
            ]
            | inr y ↦ elim (Bool-cases (j == m)) [
              | inl z ↦
                  absurd (ground (arith, p, numbered l, numbered m, y, z, v.given l (used l y u)))
              | inr z ↦
                  v.distinct l m (used l y u) (used m z w)
                    (ground (arith, p, numbered l, numbered m, y, z))
            ]
          ];
        },
      )

  abbrev pub Counted : ℕ → Channel T → Type 0
  Counted n ch = (ch.request_id ≡ n) × HasIds n ch.pool

  one_slot :
      (n i : ℕ) (x : SlotState) (s : System T) (ch : Channel T)
      → Busy S i s.ch.pool
      → Effect S i x s.ch.pool ch.pool
      → ch.request_id ≡ s.ch.request_id
      → ((j : ℕ) → id_at S ch.pool j ≡ id_at S s.ch.pool j)
      → Counted n s.ch
      → Counted n ch
  one_slot n i x s ch b f count same (at, v) =
      (count ∙ at, kept-HasIds n i x s.ch.pool ch.pool b f same v)

  release-Counted :
      (n i : ℕ) (s : System T) → Busy S i s.ch.pool → Counted n s.ch → Counted n (release S s.ch i)
  release-Counted n i s b c =
      one_slot n i empty s (release S s.ch i) b (released S s.ch i b) (request_id-release S s.ch i)
        (λ j. ap number (payload-release S s.ch i j b.inside)) c

  filling-Busy :
      (k : ℕ) (s : System T) (i : ℕ)
      → i < length s.ch.pool.slots
      → s.phase i ≡ filling
      → IsSound S k s
      → Busy S i s.ch.pool
  filling-Busy k s i inside e v = owned-Busy S k s v i inside filling e filling-ne-nobody

  waiting-Busy :
      (k : ℕ) (s : System T) (i : ℕ)
      → i < length s.ch.pool.slots
      → s.phase i ≡ waiting
      → IsSound S k s
      → Busy S i s.ch.pool
  waiting-Busy k s i inside e v = owned-Busy S k s v i inside waiting e waiting-ne-nobody

  named_slot-Busy :
      (k : ℕ) (s : System T) (i : ℕ)
      → 0 < queued s i + served s i
      → IsSound S k s
      → Busy S i s.ch.pool
  named_slot-Busy k s i some_name v =
      named-Busy S k s v i (named-inside S (λ pid. true) k s i v some_name) some_name

  batch-Busy :
      (k : ℕ) (s : System T) (i : ℕ) (rest : List ℕ)
      → s.batch ≡ i ∷ rest
      → IsSound S k s
      → Busy S i s.ch.pool
  batch-Busy k s i rest e = named_slot-Busy k s i (ground (arith, ap (occurrences i) e, ==_refl i))

  completed-Busy :
      (k : ℕ) (s : System T) (i : ℕ) (rest : List ℕ)
      → s.completed ≡ i ∷ rest
      → IsSound S k s
      → Busy S i s.ch.pool
  completed-Busy k s i rest e =
      named_slot-Busy k s i (ground (arith, ap (occurrences i) e, ==_refl i))

  module _ (is_running : ℕ → Bool) where
    -- How many slots have been taken.
    unfoldable pub acquisitions : {start s : System T} → Reach S is_running start s → ℕ
    acquisitions here = 0
    acquisitions (next r (acquires my_pid i e)) = suc (acquisitions r)
    acquisitions (next r st) = acquisitions r

    pub Reach-HasIds :
        (k : ℕ) {start s : System T} (r : Reach S is_running start s)
        → IsSound S k start
        → Counted 0 start.ch
        → acquisitions r < 2 ^ 64
        → Counted (acquisitions r) s.ch
    unfolding acquisitions drain_slots put_request
    Reach-HasIds k here v c small = c
    Reach-HasIds k (next {s} r (acquires my_pid i e)) v c small =
        let (at, ids) = Reach-HasIds k r v c (omega (arith, small)) in
        Taken-HasIds (acquisitions r) i s.ch (acquire S s.ch my_pid)
          (acquire-Taken S s.ch my_pid (Reach-IsSound S is_running k r v).consistent)
          (acquire-Numbered S s.ch my_pid (Reach-IsSound S is_running k r v).consistent) e at small
          ids
    Reach-HasIds k (next {s} r (fills i request inside e same_id)) v c small =
        let at = filling-Busy k s i inside e (Reach-IsSound S is_running k r v) in
        one_slot (acquisitions r) i _ s (put_request S s.ch i request) at
          (put_request-Effect S s.ch.pool s.ch i _ request inside
            (unchanged S s.ch.pool i _ at refl))
          refl
          (λ j.
            id-set S s.ch.pool i j _ inside
            ∙ same_if (id_at S s.ch.pool) i j request.request_id same_id)
          (Reach-HasIds k r v c small)
    Reach-HasIds k (next {s} r (submits i inside e ok)) v c small = Reach-HasIds k r v c small
    Reach-HasIds k (next {s} r (is_refused i inside e full)) v c small =
        release-Counted (acquisitions r) i s
          (filling-Busy k s i inside e (Reach-IsSound S is_running k r v))
          (Reach-HasIds k r v c small)
    Reach-HasIds k (next {s} r (returns i inside e d)) v c small =
        release-Counted (acquisitions r) i s
          (waiting-Busy k s i inside e (Reach-IsSound S is_running k r v))
          (Reach-HasIds k r v c small)
    Reach-HasIds k (next {s} r (gives_up i inside e)) v c small =
        let at = waiting-Busy k s i inside e (Reach-IsSound S is_running k r v) in
        one_slot (acquisitions r) i _ s (catch_interrupt S s.ch i) at (interrupted S s.ch i at)
          (request_id-catch_interrupt S s.ch i)
          (λ j. ap number (payload-catch_interrupt S s.ch i j inside)) (Reach-HasIds k r v c small)
    Reach-HasIds k (next {s} r (dies i inside)) v c small = Reach-HasIds k r v c small
    Reach-HasIds k (next {s} r (drains max_count)) v c small = Reach-HasIds k r v c small
    Reach-HasIds k (next {s} r (begins i rest e)) v c small =
        let at = batch-Busy k s i rest e (Reach-IsSound S is_running k r v) in
        one_slot (acquisitions r) i _ s (begin_processing S s.ch i).1 at (begun S s.ch i at)
          (request_id-begin_processing S s.ch i)
          (λ j. ap number (payload-begin_processing S s.ch i j at.inside))
          (Reach-HasIds k r v c small)
    Reach-HasIds k (next {s} r (completes i before after e)) v c small = Reach-HasIds k r v c small
    Reach-HasIds k (next {s} r (responds i rest e woken)) v c small =
        let at = completed-Busy k s i rest e (Reach-IsSound S is_running k r v) in
        one_slot (acquisitions r) i _ s (handle_response S is_running s.ch i) at
          (responded S is_running s.ch i at) (request_id-handle_response S is_running s.ch i)
          (λ j. ap number (payload-handle_response S is_running s.ch i j at.inside))
          (Reach-HasIds k r v c small)
