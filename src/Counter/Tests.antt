-- ===== src/Counter/Tests.antt =====
-- A limit of two, with a move, a self-assignment and a destruction.
use postfga.Prelude.{◌≤◌, ◌≡◌, pos, List, [], ◌∷◌, ltb, true, false, not, ◌&&◌}
use postfga.Counter.{try_acquire, Action, acquires, tries, moves, assigns, destroys, run, start}
use postfga.Counter.Limit.{held, limit_held}

abbrev actions : List Action
actions =
    acquires ∷ tries false ∷ tries true ∷ moves 0 ∷ assigns 3 3 ∷ assigns 1 3 ∷ destroys 1 ∷ []

limit_held_example :
    (held (run actions (start (pos 2))) ≤ 2)
    × ((try_acquire false (run actions (start (pos 2))).counter).0.acquired
        ≡ not false && ltb (held (run actions (start (pos 2)))) 2)
limit_held_example = limit_held 1 actions false
