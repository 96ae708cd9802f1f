-- ===== src/Protocol/Counts.antt =====
-- How often the ring, the batch and the worker's lists name a slot.
use postfga.Prelude.{
  ℕ, zero, suc, ◌+◌, ◌≡◌, ap, ◌∙◌, true, List, [], ◌∷◌, ◌++◌, take, drop, ◌==◌, if◌then◌else◌,
  arith,
}
use postfga.FreeList.{occurrences, occurrences-append}
use postfga.Queue
use postfga.Queue.{Queue}
use postfga.Queue.Invariant
use postfga.Queue.Fifo.{contents, push_back, enqueue_refines}
use postfga.Queue.Trace.{drain_refines}

occurrences-take-drop :
    (i n : ℕ) (xs : List ℕ)
    → occurrences i (drop n xs) + occurrences i (take n xs) ≡ occurrences i xs
occurrences-take-drop i zero xs = omega arith
occurrences-take-drop i (suc n) [] = omega arith
occurrences-take-drop i (suc n) (x ∷ xs) = omega (arith, occurrences-take-drop i n xs)

module _ (k : ℕ) (q : Queue) (v : Queue.Invariant.IsValid k q) where
  -- A push that succeeds adds the slot, and one that fails adds nothing.
  pub enqueue-occurrences :
      (x i : ℕ)
      → (Queue.enqueue q x).0 ≡ true
      → occurrences i (contents (Queue.enqueue q x).1)
        ≡ (if x == i then 1 else 0) + occurrences i (contents q)
  unfolding push_back
  enqueue-occurrences x i e =
      ap (occurrences i) grown ∙ occurrences-append i (contents q) (x ∷ []) ∙ omega arith
    where
      grown : contents (Queue.enqueue q x).1 ≡ contents q ++ (x ∷ [])
      grown = ground (arith, e, enqueue_refines k q v x)

  -- What a drain takes and what it leaves are what there was.
  pub drain-occurrences :
      (n i : ℕ)
      → occurrences i (contents (Queue.drain q n).1) + occurrences i (Queue.drain q n).0
        ≡ occurrences i (contents q)
  drain-occurrences n i =
      let (out, left, valid) = drain_refines k q n v in
      rw (out, left) (occurrences-take-drop i n (contents q))
