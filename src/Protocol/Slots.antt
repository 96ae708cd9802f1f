-- ===== src/Protocol/Slots.antt =====
-- One slot: its state, the backend that has it, how often the ring and the batch name it (`w`) and how often
-- the client and the completed queue do (`f`).
use postfga.Prelude.{ℕ, ◌+◌, ◌<◌, ◌≤◌, ◌≡◌, ◌≢◌, refl, Bool, true, false, if◌then◌else◌, arith}
use postfga.Channel.{SlotState, empty, canceled, pending, processing, done}
use postfga.Channel.Effect.{is_pending, interrupted_state, begun_state, responded_state}
use postfga.Protocol.{Phase, nobody, filling, waiting}

abbrev pub IsFine : SlotState → Phase → ℕ → ℕ → Type 0
IsFine empty nobody w f = (w ≡ 0) × (f ≡ 0)
IsFine empty filling w f = ⊥
IsFine empty waiting w f = ⊥
IsFine pending nobody w f = (w ≤ 1) × (f ≡ 0)
IsFine pending filling w f = (w ≡ 0) × (f ≡ 0)
IsFine pending waiting w f = (w ≡ 1) × (f ≡ 0)
IsFine processing nobody w f = (w ≡ 0) × (f ≡ 1)
IsFine processing filling w f = ⊥
IsFine processing waiting w f = (w ≡ 0) × (f ≡ 1)
IsFine canceled nobody w f = w + f ≡ 1
IsFine canceled filling w f = ⊥
IsFine canceled waiting w f = ⊥
IsFine done nobody w f = (w ≡ 0) × (f ≡ 0)
IsFine done filling w f = ⊥
IsFine done waiting w f = (w ≡ 0) × (f ≡ 0)

-- A slot that is named, or that a backend has, is in use.
pub used_of_named : (s : SlotState) (p : Phase) (w f : ℕ) → IsFine s p w f → 0 < w + f → s ≢ empty
used_of_named empty nobody w f h n e = omega arith
used_of_named s p w f h n e = ground arith

pub used_of_owned : (s : SlotState) (p : Phase) (w f : ℕ) → IsFine s p w f → p ≢ nobody → s ≢ empty
used_of_owned empty nobody w f h n e = n refl
used_of_owned s p w f h n e = ground arith

-- What each step makes of the slot that it is about.
pub take-IsFine : (p : Phase) (w f : ℕ) → IsFine empty p w f → IsFine pending filling w f
take-IsFine nobody w f h = h
take-IsFine p w f h = ground arith

pub submit-IsFine : (s : SlotState) (w f : ℕ) → IsFine s filling w f → IsFine s waiting (w + 1) f
submit-IsFine pending w f h = ground arith
submit-IsFine s w f h = ground arith

pub refuse-IsFine : (s : SlotState) (w f : ℕ) → IsFine s filling w f → IsFine empty nobody w f
refuse-IsFine pending w f h = h
refuse-IsFine s w f h = ground arith

pub return-IsFine :
    (s : SlotState) (w f : ℕ) → s ≡ done → IsFine s waiting w f → IsFine empty nobody w f
return-IsFine done w f e h = h
return-IsFine s w f e h = ground arith

pub give_up-IsFine :
    (s : SlotState) (w f : ℕ) → IsFine s waiting w f → IsFine (interrupted_state s) nobody w f
unfolding interrupted_state
give_up-IsFine done w f h = h
give_up-IsFine s w f h = ground arith

pub die-IsFine : (s : SlotState) (p : Phase) (w f : ℕ) → IsFine s p w f → IsFine s nobody w f
die-IsFine empty nobody w f h = h
die-IsFine s p w f h = ground arith

pub begin-IsFine :
    (s : SlotState) (p : Phase) (w f : ℕ)
    → IsFine s p (1 + w) f
    → IsFine (begun_state s) p w ((if is_pending s then 1 else 0) + f)
unfolding begun_state is_pending
begin-IsFine empty nobody w f h = ground arith
begin-IsFine s p w f h = ground arith

pub respond-IsFine :
    (s : SlotState) (p : Phase) (w f : ℕ) (woken : Bool)
    → IsFine s p w (1 + f)
    → (p ≡ waiting → woken ≡ true)
    → IsFine (responded_state woken s) p w f
unfolding responded_state
respond-IsFine empty nobody w f true h k = ground arith
respond-IsFine s waiting w f true h k = ground arith
respond-IsFine s waiting w f false h k = let bad = k refl in absurd (cc)
respond-IsFine s p w f woken h k = ground arith
