-- ===== src/TaskSlot/Exclusive.antt =====
-- Who has a slot of the pool, where each slot is given back once.
use postfga.Prelude.{
  ℕ, zero, suc, ◌+◌, ◌<◌, ◌≡◌, refl, ap, ◌∙◌, Option, none, some, List, [], ◌∷◌, ◌++◌, length,
  length-append, ltb, ◌==◌, ==_refl, ==_iff, if◌then◌else◌, arith, u64, inl, inr, Bool-cases,
}
use postfga.FreeList.{occurrences, occurrences-append}
use postfga.TaskSlot.{SlotPool, make, pushed, try_from, wait_for, try_acquire, acquire, release}

-- The pool, and the slots that have been handed out and not given back.
pub record Holding : Type 0 where
  pub pool : SlotPool
  pub held : List ℕ

-- The steps of a program that gives back what it holds.
pub data Step (h : Holding) : Holding → Type 0 where
  acquires :
      (s : ℕ) (p : SlotPool)
      → acquire h.pool ≡ some (s, p)
      → Step h (record { pool = p; held = s ∷ h.held })
  tries :
      (s : ℕ)
      → (try_acquire h.pool).0 ≡ some s
      → Step h (record { pool = (try_acquire h.pool).1; held = s ∷ h.held })
  finds_none : (try_acquire h.pool).0 ≡ none → Step h (record h { pool = (try_acquire h.pool).1 })
  releases :
      (s : ℕ) (before after : List ℕ)
      → h.held ≡ before ++ (s ∷ after)
      → Step h (record { pool = release (some s) h.pool; held = before ++ after })

pub data Reach (capacity : ℕ) : Holding → Type 0 where
  start : Reach capacity (record { pool = make capacity; held = [] })
  next : {h h' : Holding} → Reach capacity h → Step h h' → Reach capacity h'

pub record IsShared (capacity : ℕ) (h : Holding) : Type 0 where
  pub once :
      (i : ℕ)
      → occurrences i h.pool.free_list + occurrences i h.held ≡ (if ltb i capacity then 1 else 0)
  pub all : length h.pool.free_list + length h.held ≡ capacity
  pub counted : h.pool.in_use ≡ length h.held

occurrences-pushed : (n i : ℕ) → occurrences i (pushed n) ≡ (if ltb i n then 1 else 0)
unfolding pushed
occurrences-pushed zero i = ground arith
occurrences-pushed (suc n) i = elim (Bool-cases (n == i)) [
  | inl same ↦ ground (arith, same, ==_iff n i, occurrences-pushed n i)
  | inr apart ↦ ground (arith, apart, ==_iff n i, occurrences-pushed n i)
]

length-pushed : (n : ℕ) → length (pushed n) ≡ n
unfolding pushed
length-pushed zero = refl
length-pushed (suc n) = ap suc (length-pushed n)

make-IsShared : (n : ℕ) → IsShared n (record { pool = make n; held = [] })
unfolding make
make-IsShared n = record {
  once = λ i. omega (arith, occurrences-pushed n i);
  all = omega (arith, length-pushed n);
  counted = refl;
}

-- What both ways of acquiring a slot do.
taken-IsShared :
    (n : ℕ) (h : Holding) (s : ℕ) (rest : List ℕ) (p : SlotPool)
    → n < 18446744073709551616
    → h.pool.free_list ≡ s ∷ rest
    → p.free_list ≡ rest
    → p.in_use ≡ u64 (h.pool.in_use + 1)
    → IsShared n h
    → IsShared n (record { pool = p; held = s ∷ h.held })
taken-IsShared n h s rest p small e left count v =
    let long = ap length e in
    record {
      once = λ i. rw left (omega (arith, v.once i, ap (occurrences i) e));
      all = rw left (omega (arith, v.all, long));
      counted = omega (arith, count, v.counted, v.all, long);
    }

-- An acquisition that has got slot `s` has taken the last of the free list.
record Took (s : ℕ) (q p : SlotPool) : Type 0 where
  rest : List ℕ
  free : q.free_list ≡ s ∷ rest
  left : p.free_list ≡ rest
  count : p.in_use ≡ u64 (q.in_use + 1)

try_from-Took :
    (q : SlotPool) (s : ℕ) (xs : List ℕ)
    → q.free_list ≡ xs
    → (try_from q xs).0 ≡ some s
    → Took s q (try_from q xs).1
try_from-Took q s [] at e = absurd (cc)
try_from-Took q s (x ∷ xs) at e =
    let same : x ≡ s = ground (arith, e) in
    record { rest = xs; free = at ∙ ap (λ (y : ℕ). y ∷ xs) same; left = refl; count = refl }

-- `acquire` and `try_acquire` do the same to a pool with a free slot.
wait_for-try_from :
    (q : SlotPool) (s : ℕ) (p : SlotPool) (xs : List ℕ)
    → wait_for q xs ≡ some (s, p)
    → ((try_from q xs).0 ≡ some s) × ((try_from q xs).1 ≡ p)
wait_for-try_from q s p [] e = absurd (cc)
wait_for-try_from q s p (x ∷ xs) e = (cc, cc)

none_taken : (q : SlotPool) (xs : List ℕ) → (try_from q xs).0 ≡ none → (try_from q xs).1 ≡ q
none_taken q [] e = refl
none_taken q (x ∷ xs) e = absurd (cc)

module _ (n : ℕ) (small : n < 18446744073709551616) where
  Step-IsShared : {h h' : Holding} → Step h h' → IsShared n h → IsShared n h'
  unfolding release try_acquire acquire
  Step-IsShared {h} (acquires s p e) v =
      let (got, same) = wait_for-try_from h.pool s p h.pool.free_list e in
      let t = try_from-Took h.pool s h.pool.free_list refl got in
      rw (← same) (taken-IsShared n h s t.rest (try_acquire h.pool).1 small t.free t.left t.count v)
  Step-IsShared {h} (tries s e) v =
      let t = try_from-Took h.pool s h.pool.free_list refl e in
      taken-IsShared n h s t.rest (try_acquire h.pool).1 small t.free t.left t.count v
  Step-IsShared {h} (finds_none e) v = rw (none_taken h.pool h.pool.free_list e) v
  Step-IsShared {h} (releases s before after e) v =
      let long = ap length e in
      record {
        once = λ i. omega (
          arith,
          v.once i,
          ap (occurrences i) e,
          occurrences-append i before (s ∷ after),
          occurrences-append i before after,
        );
        all =
            omega
              (arith, v.all, long, length-append before (s ∷ after), length-append before after);
        counted = omega (
          arith,
          v.counted,
          v.all,
          long,
          small,
          length-append before (s ∷ after),
          length-append before after,
        );
      }

  Reach-IsShared : {h : Holding} → Reach n h → IsShared n h
  Reach-IsShared start = make-IsShared n
  Reach-IsShared (next r st) = Step-IsShared st (Reach-IsShared r)

  -- What an attempt to acquire a slot finds.
  abbrev pub Found : Holding → Option ℕ → Type 0
  Found h none = length h.held ≡ n
  Found h (some s) = (s < n) × (occurrences s h.held ≡ 0)

  found :
      (h : Holding) (xs : List ℕ)
      → h.pool.free_list ≡ xs
      → IsShared n h
      → Found h (try_from h.pool xs).0
  found h [] e v = omega (arith, v.all, ap length e)
  found h (x ∷ xs) e v =
      let named : 0 < occurrences x h.pool.free_list =
        ground (arith, ap (occurrences x) e, ==_refl x) in
      (ground (arith, v.once x, named), ground (arith, v.once x, named))

  -- In every state of a program that gives back each slot that it holds once, with a pool of fewer than 2^64
  -- slots: each slot of the pool is in the free list or held, in one of them and once, and nothing else is; the
  -- free list and the slots held are as many as the pool has; `in_use` is the number of slots held. An attempt to
  -- acquire gets a slot of the pool that is not held, or gets none and then all slots are held.
  pub pool_exclusive : {h : Holding} → Reach n h → IsShared n h × Found h (try_acquire h.pool).0
  unfolding try_acquire
  pool_exclusive {h} r = let v = Reach-IsShared r in (v, found h h.pool.free_list refl v)
