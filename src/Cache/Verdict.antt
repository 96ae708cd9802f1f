-- ===== src/Cache/Verdict.antt =====
-- What a cache level promises of a key: a decision, the generation it was taken in and its deadline.
use postfga.Prelude.{ℕ, ◌≡◌, ◌⊎◌, Bool, Option, none, some, leb, ◌==◌, if◌then◌else◌, arith}

pub record Verdict : Type 0 where
  pub allowed : Bool
  pub generation : ℕ
  pub expires_at : ℕ

-- What a verdict is worth at a generation and a time: nothing once it has expired or the generation
-- has moved on.
unfoldable pub answer : Option Verdict → ℕ → ℕ → Option Bool
answer none gen now = none
answer (some v) gen now =
    if leb v.expires_at now then none else if v.generation == gen then some v.allowed else none

-- What is held for a key is kept, or dropped; it never becomes another verdict.
abbrev pub Kept : Option Verdict → Option Verdict → Type 0
Kept before after = (after ≡ before) ⊎ (after ≡ none)

pub Kept-trans : (a b c : Option Verdict) → Kept a b → Kept b c → Kept a c
Kept-trans a b c h k = ground arith

pub answer-Kept :
    (a b : Option Verdict) (gen now : ℕ) (allowed : Bool)
    → Kept a b
    → answer b gen now ≡ some allowed
    → answer a gen now ≡ some allowed
unfolding answer
answer-Kept a b gen now allowed k h = ground arith

-- What is left of a verdict when a generation is dropped.
abbrev pub forget : ℕ → Option Verdict → Option Verdict
forget g none = none
forget g (some v) = if v.generation == g then none else some v

pub Kept-forget : (g : ℕ) (a b c : Option Verdict) → Kept a b → c ≡ forget g b → Kept (forget g a) c
Kept-forget g a b c h e = ground arith
