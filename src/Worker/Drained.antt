-- ===== src/Worker/Drained.antt =====
-- The slots that the worker has in its hands, and the loop of `Processor::execute` over those that it has drained.
use postfga.Prelude.{
  ℕ, ◌<◌, ◌≤◌, ◌≡◌, ◌≢◌, refl, ◌∙◌, false, List, [], ◌∷◌, length, ◌==◌, ==_iff, ==_refl,
  if◌then◌else◌, arith, inl, inr, Bool-cases,
}
use postfga.FreeList.{SlotList, occurrences}
use postfga.Channel.{Channel, SlotState, empty, state_of, begin_processing}
use postfga.Channel.Vacancy.{IsConsistent}
use postfga.Channel.Busy.{Busy}
use postfga.Channel.Effect.{Effect, begun, begun_state, is_pending}
use postfga.Channel.Ring.{begin_processing-taken}
use postfga.Channel.Payloads.{payload-begin_processing}
use postfga.Worker.{payloads, begin_all}

module _ {T : Type 0} (S : SlotList T) where
  -- Slots that are in use, each of them once.
  pub record Drained (ch : Channel T) (slots : List ℕ) : Type 0 where
    pub consistent : IsConsistent S ch.pool
    pub once : (i : ℕ) → occurrences i slots ≤ 1
    pub inside : (i : ℕ) → 0 < occurrences i slots → i < length ch.pool.slots
    pub used : (i : ℕ) → 0 < occurrences i slots → state_of S ch.pool i ≢ empty

  -- What the loop over them leaves.
  pub record AllBegun (ch : Channel T) (slots gone : List ℕ) (ch' : Channel T) : Type 0 where
    pub consistent : IsConsistent S ch'.pool
    pub same_length : length ch'.pool.slots ≡ length ch.pool.slots
    pub states :
        (i : ℕ)
        → state_of S ch'.pool i ≡ (
            if occurrences i slots == 0
            then state_of S ch.pool i
            else begun_state (state_of S ch.pool i))
    pub kept : (i : ℕ) → payloads S ch' i ≡ payloads S ch i
    pub taken :
        (i : ℕ)
        → occurrences i gone
          ≡ (if is_pending (state_of S ch.pool i) then occurrences i slots else 0)

  pub Drained-first :
      (ch : Channel T) (i : ℕ) (slots : List ℕ) → Drained ch (i ∷ slots) → Busy S i ch.pool
  Drained-first ch i slots d = record {
    consistent = d.consistent;
    inside = d.inside i (ground (arith, ==_refl i));
    used = d.used i (ground (arith, ==_refl i));
  }

  pub Drained-next :
      (ch ch' : Channel T) (i : ℕ) (x : SlotState) (slots : List ℕ)
      → Drained ch (i ∷ slots)
      → Effect S i x ch.pool ch'.pool
      → Drained ch' slots
  Drained-next ch ch' i x slots d f = record {
    consistent = f.consistent;
    once = λ j. omega (arith, d.once j);
    inside = λ j h. omega (arith, f.same_length, d.inside j (omega (arith, h)));
    used = λ j h.
        let apart : (i == j) ≡ false = elim (Bool-cases (i == j)) [
          | inl same ↦ absurd (ground (arith, d.once j, same, h))
          | inr apart ↦ apart
        ] in
        rw (f.states j, apart) (d.used j (omega (arith, h)));
  }

  pub begin_all-AllBegun :
      (ch : Channel T) (slots : List ℕ)
      → Drained ch slots
      → AllBegun ch slots (begin_all S ch slots).0 (begin_all S ch slots).1
  unfolding begin_all
  begin_all-AllBegun ch [] d = record {
    consistent = d.consistent;
    same_length = refl;
    states = λ i. refl;
    kept = λ i. refl;
    taken = λ i. ground arith;
  }
  begin_all-AllBegun ch (i ∷ slots) d =
      let b = Drained-first ch i slots d in
      let f = begun S ch i b in
      let r =
        begin_all-AllBegun (begin_processing S ch i).1 slots
          (Drained-next ch (begin_processing S ch i).1 i _ slots d f) in
      record {
        consistent = r.consistent;
        same_length = r.same_length ∙ f.same_length;
        states = λ j. elim (Bool-cases (i == j)) [
          | inl same ↦ ground (arith, same, ==_iff i j, r.states j, f.states j, d.once j)
          | inr apart ↦ ground (arith, apart, r.states j, f.states j, d.once j)
        ];
        kept = λ j. r.kept j ∙ payload-begin_processing S ch i j b.inside;
        taken = λ j. elim (Bool-cases (i == j)) [
          | inl same ↦ ground (
            arith,
            same,
            ==_iff i j,
            r.taken j,
            f.states j,
            d.once j,
            begin_processing-taken S ch i,
          )
          | inr apart ↦
              ground (arith, apart, r.taken j, f.states j, d.once j, begin_processing-taken S ch i)
        ];
      }
