-- ===== src/Protocol/Invariant.antt =====
-- What holds of all slots in every state that the backends and the worker reach.
use postfga.Prelude.{
  ℕ, ◌+◌, ◌<◌, ◌≤◌, ◌≡◌, ◌≢◌, refl, sym, ◌∙◌, false, Option, some, none, length, ◌==◌, ==_iff,
  if◌then◌else◌, arith, inl, inr, Bool-cases,
}
use postfga.FreeList.{SlotList, occurrences}
use postfga.Queue
use postfga.Queue.Invariant
use postfga.Queue.Fifo.{contents}
use postfga.Channel.{SlotState, Channel, state_of}
use postfga.Channel.Vacancy.{IsConsistent}
use postfga.Channel.Busy.{Busy}
use postfga.Channel.Effect.{Effect}
use postfga.Channel.Taken.{Taken}
use postfga.Protocol.{Phase, nobody, filling, waiting, System, update}
use postfga.Protocol.Slots.{IsFine, used_of_named, used_of_owned}

pub filling-ne-nobody : filling ≢ nobody
filling-ne-nobody e = ground arith

pub waiting-ne-nobody : waiting ≢ nobody
waiting-ne-nobody e = ground arith

-- A function that is changed at one place only.
pub split_at {ℓ} :
    {A : Type ℓ} (f g : ℕ → A) (a : A) (i j : ℕ)
    → f i ≡ a
    → ((i == j) ≡ false → f j ≡ g j)
    → f j ≡ (if i == j then a else g j)
split_at f g a i j at away = elim (Bool-cases (i == j)) [
  | inl e ↦ rw (e, ← (==_iff i j).0 e) at
  | inr e ↦ rw e (away e)
]

pub same_at {ℓ} : {A : Type ℓ} (f : ℕ → A) (i j : ℕ) → f j ≡ (if i == j then f i else f j)
same_at f i j = split_at f f (f i) i j refl (λ e. refl)

module _ {T : Type 0} where
  -- How often slot `i` waits for the worker, and how often the worker or its client has it.
  abbrev pub queued : System T → ℕ → ℕ
  queued s i = occurrences i (contents s.ch.queue) + occurrences i s.batch

  abbrev pub served : System T → ℕ → ℕ
  served s i = occurrences i s.inflight + occurrences i s.completed

  module _ (S : SlotList T) where
    -- The free list holds exactly the EMPTY slots; the ring is valid; every slot is fine; and only slots are named.
    pub record IsSound (k : ℕ) (s : System T) : Type 0 where
      pub consistent : IsConsistent S s.ch.pool
      pub ring : Queue.Invariant.IsValid k s.ch.queue
      pub few : length s.ch.pool.slots ≤ 65536
      pub fine :
          (i : ℕ)
          → i < length s.ch.pool.slots
          → IsFine (state_of S s.ch.pool i) (s.phase i) (queued s i) (served s i)
      pub named : (i : ℕ) → length s.ch.pool.slots ≤ i → queued s i + served s i ≡ 0

    -- A step that is about slot `i`: its state, its phase and its counts become `x`, `p`, `w` and `f`.
    pub record About (i : ℕ) (x : SlotState) (p : Phase) (w f : ℕ) (s t : System T) : Type 0 where
      pub effect : Effect S i x s.ch.pool t.ch.pool
      pub phases : (j : ℕ) → t.phase j ≡ (if i == j then p else s.phase j)
      pub queues : (j : ℕ) → queued t j ≡ (if i == j then w else queued s j)
      pub serves : (j : ℕ) → served t j ≡ (if i == j then f else served s j)

    pub About-IsSound :
        (k i : ℕ) (x : SlotState) (p : Phase) (w f : ℕ) (s t : System T)
        → About i x p w f s t
        → IsSound k s
        → Queue.Invariant.IsValid k t.ch.queue
        → i < length s.ch.pool.slots
        → IsFine x p w f
        → IsSound k t
    About-IsSound k i x p w f s t a v ring inside ok = record {
      consistent = a.effect.consistent;
      ring = ring;
      few = omega (arith, a.effect.same_length, v.few);
      fine = λ j h. elim (Bool-cases (i == j)) [
        | inl e ↦ rw (a.effect.states j, a.phases j, a.queues j, a.serves j, e) ok
        | inr e ↦
            rw (a.effect.states j, a.phases j, a.queues j, a.serves j, e)
              (v.fine j (omega (arith, a.effect.same_length, h)))
      ];
      named = λ j h. elim (Bool-cases (i == j)) [
        | inl e ↦ absurd (ground (arith, a.effect.same_length, h, inside, ==_iff i j))
        | inr e ↦
            rw (a.queues j, a.serves j, e) (v.named j (omega (arith, a.effect.same_length, h)))
      ];
    }

    -- A step that moves names about and changes no slot.
    pub recount-IsSound :
        (k : ℕ) (s t : System T)
        → IsSound k s
        → t.ch.pool ≡ s.ch.pool
        → t.phase ≡ s.phase
        → Queue.Invariant.IsValid k t.ch.queue
        → ((j : ℕ) → queued t j ≡ queued s j)
        → ((j : ℕ) → served t j ≡ served s j)
        → IsSound k t
    recount-IsSound k s t v pool phase ring queues serves = record {
      consistent = rw pool v.consistent;
      ring = ring;
      few = rw pool v.few;
      fine = λ j. rw (pool, phase, queues j, serves j) (v.fine j);
      named = λ j. rw (pool, queues j, serves j) (v.named j);
    }

    module _ (k : ℕ) (s : System T) (v : IsSound k s) (i : ℕ)
        (inside : i < length s.ch.pool.slots) where
      pub owned-Busy : (p : Phase) → s.phase i ≡ p → p ≢ nobody → Busy S i s.ch.pool
      owned-Busy p e h = record {
        consistent = v.consistent;
        inside = inside;
        used = used_of_owned _ (s.phase i) _ _ (v.fine i inside) (λ q. h (sym e ∙ q));
      }

      pub named-Busy : 0 < queued s i + served s i → Busy S i s.ch.pool
      named-Busy h = record {
        consistent = v.consistent;
        inside = inside;
        used = used_of_named _ (s.phase i) _ _ (v.fine i inside) h;
      }

      -- A step that gives slot `i` another state and phase, and names it no more and no less.
      pub restate-IsSound :
          (x : SlotState) (p : Phase) (ch : Channel T)
          → Effect S i x s.ch.pool ch.pool
          → ch.queue ≡ s.ch.queue
          → IsFine x p (queued s i) (served s i)
          → IsSound k (record s { ch = ch; phase = update s.phase i p })
      restate-IsSound x p ch f q ok =
          About-IsSound k i x p (queued s i) (served s i) s _
            (record {
              effect = f;
              phases = λ j. refl;
              queues = λ j. rw q (same_at (queued s) i j);
              serves = λ j. same_at (served s) i j;
            })
            v (rw q v.ring) inside ok

    pub Taken-slot :
        (ch : Channel T) (i : ℕ) (r : Option ℕ × Channel T)
        → Taken S ch r
        → r.0 ≡ some i
        → Taken S ch (some i, r.1)
    Taken-slot ch i (none, ch') t e = absurd (cc)
    Taken-slot ch i (some j, ch') t e = let same : j ≡ i = cc in rw (← same) t
