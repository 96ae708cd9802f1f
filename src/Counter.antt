-- ===== src/Counter.antt =====
-- `Counter` of src/util/counter.hpp and src/util/counter.cpp, which limits what runs at once, and its guards. The
-- guards that the program has are a list of objects, and `none` is a call that waits.
pub mod Limit
mod Tests
use postfga.Prelude.{
  ℕ, zero, suc, ◌+◌, ◌-◌, ℤ, pos, negsuc, Bool, true, false, Option, none, some, List, [], ◌∷◌,
  ◌++◌, length, set, get_or, ltb, ◌==◌, ◌&&◌, ◌||◌, if◌then◌else◌,
}

-- The count of `std::counting_semaphore`, and the limit.
pub record Counter : Type 0 where
  pub semaphore : ℕ
  pub max_value : ℤ

-- Whether `sem_` points to the semaphore of the counter, and `acquired_`.
pub record Guard : Type 0 where
  pub has_semaphore : Bool
  pub acquired : Bool

unfoldable pub is_limited : ℤ → Bool
is_limited (pos zero) = false
is_limited (pos (suc n)) = true
is_limited (negsuc n) = false

-- The constructor, which starts the semaphore at `max_value` or at the largest `int`.
unfoldable pub make : ℤ → Counter
make max_value = record { semaphore = tokens max_value; max_value = max_value }
  where
    tokens : ℤ → ℕ
    tokens (pos zero) = 2147483647
    tokens (pos (suc n)) = suc n
    tokens (negsuc n) = 2147483647

abbrev pub no_guard : Guard
no_guard = record { has_semaphore = false; acquired = false }

unfoldable pub acquire : Counter → Option (Guard × Counter)
unfolding is_limited
acquire c =
    if is_limited c.max_value
    then (if c.semaphore == 0
        then none
        else some (
          record { has_semaphore = true; acquired = true },
          record c { semaphore = c.semaphore - 1 },
        ))
    else some (record { has_semaphore = false; acquired = true }, c)

-- `std::counting_semaphore::try_acquire` may fail though there is a token: `spurious` says that it does.
unfoldable pub try_acquire : Bool → Counter → Guard × Counter
unfolding is_limited
try_acquire spurious c =
    if is_limited c.max_value
    then (if spurious || c.semaphore == 0
        then (record { has_semaphore = false; acquired = false }, c)
        else (
          record { has_semaphore = true; acquired = true },
          record c { semaphore = c.semaphore - 1 },
        ))
    else (record { has_semaphore = false; acquired = true }, c)

-- `Guard::release`, which is the destructor too.
unfoldable pub release : Guard → Counter → Guard × Counter
release g c = (
  no_guard,
  if g.has_semaphore && g.acquired then record c { semaphore = c.semaphore + 1 } else c,
)

-- The program: its counter, and the guards that it has made.
pub record Program : Type 0 where
  pub counter : Counter
  pub guards : List Guard

-- What it does: `moves i` makes a guard from guard `i`, and `assigns i j` moves guard `j` into guard `i`.
pub data Action : Type 0 where
  acquires : Action
  tries : Bool → Action
  moves : ℕ → Action
  assigns : ℕ → ℕ → Action
  destroys : ℕ → Action

-- `Guard::operator=` on two objects that there are.
unfoldable pub assign : ℕ → ℕ → Program → Program
unfolding release
assign i j p =
    if i == j
    then p
    else (let other = get_or p.guards j no_guard in
        let (mine, counter) = release (get_or p.guards i no_guard) p.counter in
        record { counter = counter; guards = set (set p.guards i other) j mine })

unfoldable pub act : Action → Program → Program
unfolding acquire try_acquire assign release
act acquires p = taken (acquire p.counter)
  where
    taken : Option (Guard × Counter) → Program
    taken none = p
    taken (some (g, counter)) = record { counter = counter; guards = p.guards ++ (g ∷ []) }
act (tries spurious) p =
    let (g, counter) = try_acquire spurious p.counter in
    record { counter = counter; guards = p.guards ++ (g ∷ []) }
act (moves i) p = record p { guards = set p.guards i no_guard ++ (get_or p.guards i no_guard ∷ []) }
act (assigns i j) p = if ltb i (length p.guards) && ltb j (length p.guards) then assign i j p else p
act (destroys i) p =
    let (mine, counter) = release (get_or p.guards i no_guard) p.counter in
    record { counter = counter; guards = set p.guards i mine }

unfoldable pub run : List Action → Program → Program
unfolding act
run [] p = p
run (a ∷ actions) p = run actions (act a p)

abbrev pub start : ℤ → Program
start max_value = record { counter = make max_value; guards = [] }
