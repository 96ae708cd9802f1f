-- ===== src/Counter/Limit.antt =====
-- The tokens of the counter and of the guards.
use postfga.Prelude.{
  ℕ, Bool, not, ◌||◌, zero, suc, ◌+◌, ◌-◌, ◌<◌, ◌≤◌, ◌≡◌, refl, ap, pos, true, List, [], ◌∷◌, ◌++◌,
  length, set, get_or, get_or-set_ne, ltb, ◌==◌, ◌&&◌, if◌then◌else◌, sum, sum-set, sum-append,
  arith, inl, inr, Bool-cases,
}
use postfga.Counter.{
  Counter, Guard, is_limited, make, no_guard, acquire, try_acquire, release, Program, Action,
  acquires, tries, moves, assigns, destroys, assign, act, run, start,
}

-- 1 for a guard that holds a token.
abbrev pub token : Guard → ℕ
token g = if g.has_semaphore && g.acquired then 1 else 0

abbrev pub held : Program → ℕ
held p = sum token p.guards

-- A program whose counter has the limit `n + 1`.
abbrev limited : ℕ → ℕ → List Guard → Program
limited n semaphore guards = record {
  counter = record { semaphore = semaphore; max_value = pos (suc n) };
  guards = guards;
}

-- No token is lost or made.
record IsKept (n : ℕ) (p : Program) : Type 0 where
  semaphore : ℕ
  guards : List Guard
  same : p ≡ limited n semaphore guards
  all : semaphore + sum token guards ≡ suc n

-- A guard that is not there holds nothing.
get_or-outside : (gs : List Guard) (i : ℕ) → length gs ≤ i → get_or gs i no_guard ≡ no_guard
get_or-outside [] i h = refl
get_or-outside (g ∷ gs) zero h = absurd (omega arith)
get_or-outside (g ∷ gs) (suc i) h = get_or-outside gs i (omega arith)

set-outside : (gs : List Guard) (i : ℕ) (g : Guard) → length gs ≤ i → set gs i g ≡ gs
set-outside [] i g h = refl
set-outside (x ∷ gs) zero g h = absurd (omega arith)
set-outside (x ∷ gs) (suc i) g h = ap (◌∷◌ x) (set-outside gs i g (omega arith))

-- A guard is emptied.
sum-clear :
    (gs : List Guard) (i : ℕ)
    → sum token (set gs i no_guard) + token (get_or gs i no_guard) ≡ sum token gs
sum-clear gs i = elim (Bool-cases (ltb i (length gs))) [
  | inl y ↦ omega (arith, sum-set token gs i no_guard no_guard (ground (arith, y)))
  | inr n ↦
      rw (set-outside gs i no_guard (ground (arith, n)), get_or-outside gs i (ground (arith, n)))
        (omega arith)
]

add_guard :
    (n k : ℕ) (gs : List Guard) (g : Guard)
    → k + sum token gs + token g ≡ suc n
    → k + sum token (gs ++ (g ∷ [])) ≡ suc n
unfolding sum
add_guard n k gs g e = omega (arith, e, sum-append token gs (g ∷ []))

counter-release :
    (n k : ℕ) (g : Guard)
    → (release g (limited n k []).counter).1 ≡ (limited n (k + token g) []).counter
unfolding release
counter-release n k g = elim (Bool-cases (g.has_semaphore && g.acquired)) [
  | inl y ↦ rw y refl
  | inr m ↦ rw m (ap (λ (s : ℕ). (limited n s []).counter) (omega arith))
]

assign-limited :
    (n k : ℕ) (gs : List Guard) (i j : ℕ)
    → k + sum token gs ≡ suc n
    → (i < length gs) × (j < length gs)
    → IsKept n (assign i j (limited n k gs))
unfolding assign
assign-limited n k gs i j e (here_i, here_j) = elim (Bool-cases (i == j)) [
  | inl y ↦ rw y (record { semaphore = k; guards = gs; same = refl; all = e })
  | inr apart ↦
      let other = get_or gs j no_guard in
      let seen : get_or (set gs i other) j no_guard ≡ other =
        get_or-set_ne gs i j other no_guard (λ q. ground (arith, apart, q)) in
      rw apart (record {
        semaphore = k + token (get_or gs i no_guard);
        guards = set (set gs i other) j no_guard;
        same =
            ap (λ (c : Counter). record { counter = c; guards = set (set gs i other) j no_guard })
              (counter-release n k (get_or gs i no_guard));
        all = omega (
          arith,
          e,
          sum-clear (set gs i other) j,
          ap token seen,
          sum-set token gs i other no_guard here_i,
        );
      })
]

act-limited :
    (n : ℕ) (a : Action) (k : ℕ) (gs : List Guard)
    → k + sum token gs ≡ suc n
    → IsKept n (act a (limited n k gs))
unfolding act acquire try_acquire is_limited release assign
act-limited n acquires k gs e = elim (Bool-cases (k == 0)) [
  | inl y ↦ rw y (record { semaphore = k; guards = gs; same = refl; all = e })
  | inr some_left ↦ rw some_left (record {
    semaphore = k - 1;
    guards = gs ++ (record { has_semaphore = true; acquired = true } ∷ []);
    same = refl;
    all = add_guard n (k - 1) gs _ (ground (arith, e, some_left));
  })
]
act-limited n (tries spurious) k gs e = elim (Bool-cases (spurious || k == 0)) [
  | inl y ↦ rw y (record {
    semaphore = k;
    guards = gs ++ (no_guard ∷ []);
    same = refl;
    all = add_guard n k gs _ (omega (arith, e));
  })
  | inr some_left ↦ rw some_left (record {
    semaphore = k - 1;
    guards = gs ++ (record { has_semaphore = true; acquired = true } ∷ []);
    same = refl;
    all = add_guard n (k - 1) gs _ (ground (arith, e, some_left));
  })
]
act-limited n (moves i) k gs e = record {
  semaphore = k;
  guards = set gs i no_guard ++ (get_or gs i no_guard ∷ []);
  same = refl;
  all = add_guard n k (set gs i no_guard) _ (omega (arith, e, sum-clear gs i));
}
act-limited n (assigns i j) k gs e = elim (Bool-cases (ltb i (length gs) && ltb j (length gs))) [
  | inl there ↦ rw there (assign-limited n k gs i j e (ground (arith, there)))
  | inr missing ↦ rw missing (record { semaphore = k; guards = gs; same = refl; all = e })
]
act-limited n (destroys i) k gs e = record {
  semaphore = k + token (get_or gs i no_guard);
  guards = set gs i no_guard;
  same =
      ap (λ (c : Counter). record { counter = c; guards = set gs i no_guard })
        (counter-release n k (get_or gs i no_guard));
  all = omega (arith, e, sum-clear gs i);
}

run-limited :
    (n : ℕ) (actions : List Action) (k : ℕ) (gs : List Guard)
    → k + sum token gs ≡ suc n
    → IsKept n (run actions (limited n k gs))
unfolding run
run-limited n [] k gs e = record { semaphore = k; guards = gs; same = refl; all = e }
run-limited n (a ∷ actions) k gs e =
    let v = act-limited n a k gs e in rw v.same (run-limited n actions v.semaphore v.guards v.all)

try_acquire-acquired :
    (spurious : Bool) (n k : ℕ) (gs : List Guard)
    → k + sum token gs ≡ suc n
    → (try_acquire spurious (limited n k gs).counter).0.acquired
      ≡ not spurious && ltb (sum token gs) (suc n)
unfolding try_acquire is_limited
try_acquire-acquired spurious n k gs e = ground (arith, e)

-- Whatever a program does with a counter of a positive limit and its guards, moves and assignments of guards to
-- themselves included: no more guards than the limit hold a token at any time, and a `try_acquire` succeeds when
-- fewer do and its semaphore does not fail spuriously, and never else.
pub limit_held :
    (n : ℕ) (actions : List Action) (spurious : Bool)
    → (held (run actions (start (pos (suc n)))) ≤ suc n)
      × ((try_acquire spurious (run actions (start (pos (suc n)))).counter).0.acquired
          ≡ not spurious && ltb (held (run actions (start (pos (suc n))))) (suc n))
unfolding make sum
limit_held n actions spurious =
    let v = run-limited n actions (suc n) [] (omega arith) in
    rw v.same (omega (arith, v.all), try_acquire-acquired spurious n v.semaphore v.guards v.all)
