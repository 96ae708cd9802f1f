-- ===== src/TaskSlot/Tests.antt =====
-- A pool of two slots, one of them held.
use postfga.Prelude.{◌≡◌, refl, some, [], ◌∷◌, arith}
use postfga.TaskSlot.{SlotPool, make, pushed, try_acquire, release}
use postfga.TaskSlot.Exclusive.{Holding, Reach, start, next, tries, IsShared, Found, pool_exclusive}

abbrev one_held : Holding
one_held = record { pool = (try_acquire (make 2)).1; held = 1 ∷ [] }

reached : Reach 2 one_held
unfolding make pushed try_acquire
reached = next start (tries 1 refl)

pool_exclusive_example :
    IsShared 2 one_held × Found 2 (omega arith) one_held (try_acquire one_held.pool).0
unfolding make pushed try_acquire
pool_exclusive_example = pool_exclusive 2 (omega arith) reached

-- A slot that is given back twice is handed out twice.
abbrev twice : SlotPool
twice = release (some 1) (release (some 1) one_held.pool)

handed_out_twice :
    ((try_acquire twice).0 ≡ some 1) × ((try_acquire (try_acquire twice).1).0 ≡ some 1)
unfolding make pushed try_acquire release
handed_out_twice = (refl, refl)
