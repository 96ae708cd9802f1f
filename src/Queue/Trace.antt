-- ===== src/Queue/Trace.antt =====
-- Batches and whole histories of calls on the ring, against the bounded queue.
use postfga.Prelude.{
  ℕ, zero, suc, ◌+◌, ◌≡◌, refl, ap, Bool, true, false, Option, none, some, List, [], ◌∷◌, get_elem?,
  get_or, take, drop, bit_and, u16, arith, inl, inr, Bool-cases,
}
use postfga.Queue.{Queue, is_empty, enqueue, dequeue, drain, peek}
use postfga.Queue.Invariant.{IsValid, enqueue-IsValid, dequeue-IsValid}
use postfga.Queue.Fifo.{
  contents, push_back, pop_front, enqueue_refines, dequeue_refines, peek_refines,
}

-- One round of `queue_drain` is a `queue_dequeue`.
abbrev advance : Queue → Queue
advance q = record q { tail = u16 (q.tail + 1) }

dequeue_empty : (q : Queue) → is_empty q ≡ true → dequeue q ≡ (none, q)
unfolding dequeue
dequeue_empty q e = rw e

dequeue_more :
    (q : Queue)
    → is_empty q ≡ false
    → dequeue q ≡ (some (get_or q.values (bit_and q.tail q.mask) 0), advance q)
unfolding dequeue
dequeue_more q e = rw e

pop_front-none : (xs ys : List ℕ) → (none, ys) ≡ pop_front xs → xs ≡ []
unfolding pop_front
pop_front-none [] ys e = refl
pop_front-none (x ∷ xs) ys e = cc

pop_front-some : (x : ℕ) (xs ys : List ℕ) → (some x, ys) ≡ pop_front xs → xs ≡ x ∷ ys
unfolding pop_front
pop_front-some x [] ys e = cc
pop_front-some x (z ∷ xs) ys e = cc

contents_empty : (k : ℕ) (q : Queue) → IsValid k q → is_empty q ≡ true → contents q ≡ []
contents_empty k q v e =
    pop_front-none (contents q) (contents q) (rw (dequeue_empty q e) at (dequeue_refines k q v))

contents_more :
    (k : ℕ) (q : Queue)
    → IsValid k q
    → is_empty q ≡ false
    → contents q ≡ get_or q.values (bit_and q.tail q.mask) 0 ∷ contents (advance q)
contents_more k q v e =
    pop_front-some _ (contents q) (contents (advance q))
      (rw (dequeue_more q e) at (dequeue_refines k q v))

advance-IsValid : (k : ℕ) (q : Queue) → IsValid k q → is_empty q ≡ false → IsValid k (advance q)
advance-IsValid k q v e = rw (dequeue_more q e) at (dequeue-IsValid k q v)

-- `queue_drain` takes the oldest entries, in order, as many as asked for or all, leaves the others,
-- and keeps the invariant.
pub drain_refines :
    (k : ℕ) (q : Queue) (max_count : ℕ)
    → IsValid k q
    → let (out, q') = drain q max_count in
      (out ≡ take max_count (contents q))
      × (contents q' ≡ drop max_count (contents q))
      × IsValid k q'
unfolding drain
drain_refines k q zero v = (refl, refl, v)
drain_refines k q (suc n) v = elim (Bool-cases (is_empty q)) [
  | inl e ↦ rw (e, contents_empty k q v e) (refl, refl, v)
  | inr e ↦
      let (out, left, valid) = drain_refines k (advance q) n (advance-IsValid k q v e) in
      rw (e, contents_more k q v e)
        (ap (◌∷◌ (get_or q.values (bit_and q.tail q.mask) 0)) out, left, valid)
]

-- What a client can ask of the ring, and what it sees of each call.
pub data Call : Type 0 where
  put : ℕ → Call
  get : Call
  batch : ℕ → Call
  look : ℕ → Call

pub data Reply : Type 0 where
  accepted : Bool → Reply
  taken : Option ℕ → Reply
  drained : List ℕ → Reply
  seen : Option ℕ → Reply

unfoldable pub run : Queue → List Call → List Reply
run q [] = []
run q (put x ∷ cs) = let (done, q') = enqueue q x in accepted done ∷ run q' cs
run q (get ∷ cs) = let (out, q') = dequeue q in taken out ∷ run q' cs
run q (batch n ∷ cs) = let (out, q') = drain q n in drained out ∷ run q' cs
run q (look i ∷ cs) = seen (peek q i) ∷ run q cs

-- The same calls on a list of at most `limit` entries.
unfoldable pub run_list : ℕ → List ℕ → List Call → List Reply
run_list limit xs [] = []
run_list limit xs (put x ∷ cs) =
    let (done, xs') = push_back limit xs x in accepted done ∷ run_list limit xs' cs
run_list limit xs (get ∷ cs) = let (out, xs') = pop_front xs in taken out ∷ run_list limit xs' cs
run_list limit xs (batch n ∷ cs) = drained (take n xs) ∷ run_list limit (drop n xs) cs
run_list limit xs (look i ∷ cs) = seen (get_elem? xs i) ∷ run_list limit xs cs

mask-enqueue : (q : Queue) (x : ℕ) → (enqueue q x).1.mask ≡ q.mask
unfolding enqueue
mask-enqueue q x = ground arith

mask-dequeue : (q : Queue) → (dequeue q).1.mask ≡ q.mask
unfolding dequeue
mask-dequeue q = ground arith

mask-drain : (q : Queue) (n : ℕ) → (drain q n).1.mask ≡ q.mask
unfolding drain
mask-drain q zero = refl
mask-drain q (suc n) = ground (arith, mask-drain (record q { tail = u16 (q.tail + 1) }) n)

-- No sequence of calls tells a valid ring from the queue of its contents, bounded by `mask`.
pub run_refines :
    (k : ℕ) (q : Queue) (cs : List Call) → IsValid k q → run q cs ≡ run_list q.mask (contents q) cs
unfolding run run_list
run_refines k q [] v = refl
run_refines k q (put x ∷ cs) v = rw (
  run_refines k (enqueue q x).1 cs (enqueue-IsValid k q x v),
  ← enqueue_refines k q v x,
  mask-enqueue,
)
run_refines k q (get ∷ cs) v =
    rw (
      run_refines k (dequeue q).1 cs (dequeue-IsValid k q v),
      ← dequeue_refines k q v,
      mask-dequeue,
    )
run_refines k q (batch n ∷ cs) v =
    let d = drain_refines k q n v in rw (run_refines k (drain q n).1 cs d.2, d.0, d.1, mask-drain)
run_refines k q (look i ∷ cs) v = rw (run_refines k q cs v, peek_refines k q v i)
