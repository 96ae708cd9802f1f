-- ===== src/Queue/Fifo.antt =====
-- The ring refines a first-in first-out queue of at most `mask` slot indices, oldest first.
use native.Mathlib.Decide.{dec_lt}
use native.Mathlib.Nat.{
  mod-lt, mod-eq_of_lt, mod-add-mod, mod-eq-sub-mod, add-zero, add-suc, add_assoc,
}
use postfga.Prelude.{
  ℕ, zero, suc, ◌+◌, ◌-◌, ◌%◌, ◌≤◌, ◌<◌, ◌≡◌, ◌≢◌, refl, sym, ap, ap₂, ◌∙◌, Bool, true, false,
  Option, none, some, List, [], ◌∷◌, ◌++◌, length, set, get_or, get_elem?, get_or-set_self,
  get_or-set_ne, bit_and, u16, arith, leb, ◌==◌, if◌then◌else◌,
}
use postfga.Queue.{Queue, enqueue, dequeue, peek}
use postfga.Queue.Invariant.{
  IsValid, used, masked, size-eq-used, is_empty_iff, is_full_iff, mask_small, wrapped,
}

module _ (values : List ℕ) (c : ℕ) where
  -- The `n` cells from cursor `t` on, going round at `c`.
  abbrev pub window : ℕ → ℕ → List ℕ
  window t zero = []
  window t (suc n) = get_or values (t % c) 0 ∷ window (t + 1) n

  length-window : (t n : ℕ) → length (window t n) ≡ n
  length-window t zero = refl
  length-window t (suc n) = ap suc (length-window (t + 1) n)

  window-congr : (t u n : ℕ) → t % c ≡ u % c → window t n ≡ window u n
  window-congr t u zero e = refl
  window-congr t u (suc n) e =
      ap₂ ◌∷◌ (ap (λ i. get_or values i 0) e) (window-congr (t + 1) (u + 1) n shift)
    where
      shift : (t + 1) % c ≡ (u + 1) % c
      shift = sym (mod-add-mod t c 1) ∙ ap (λ (r : ℕ). (r + 1) % c) e ∙ mod-add-mod u c 1

  -- `window` matches on `suc`, the code tests the cursors.
  window_of_ne_zero :
      (t n : ℕ) → n ≢ 0 → window t n ≡ get_or values (t % c) 0 ∷ window (t + 1) (n - 1)
  window_of_ne_zero t zero h = absurd (h refl)
  window_of_ne_zero t (suc n) h = ap (λ m. window t (suc m)) (omega arith)

  get_elem?-window :
      (t n i : ℕ)
      → get_elem? (window t n) i ≡ (if leb n i then none else some (get_or values ((t + i) % c) 0))
  get_elem?-window t zero i = ground arith
  get_elem?-window t (suc n) zero = ground (arith, add-zero t)
  get_elem?-window t (suc n) (suc i) =
      ground (arith, get_elem?-window (t + 1) n i, add-suc t i, add_assoc t 1 i)

-- Fewer than `c` steps round the ring do not come back to the start.
add-mod-ne : (c t k : ℕ) → 0 < k → k < c → (t + k) % c ≢ t % c
add-mod-ne c t k hk hc e = elim (dec_lt (t % c + k) c) [
  | yes p ↦ omega (arith, e, mod-add-mod t c k, mod-eq_of_lt p)
  | no p ↦ omega (
    arith,
    e,
    mod-add-mod t c k,
    mod-lt t {m = c} (omega arith),
    mod-eq-sub-mod {n = t % c + k} {m = c} (omega arith),
    mod-eq_of_lt {n = t % c + k - c} {m = c} (omega (arith, mod-lt t {m = c} (omega arith))),
  )
]

-- Writing the cell just past a window extends it.
window-set :
    (values : List ℕ) (c x n t : ℕ)
    → n < c
    → c ≤ length values
    → window (set values ((t + n) % c) x) c t (suc n) ≡ window values c t n ++ (x ∷ [])
window-set values c x zero t hn hc =
    rw add-zero (ap (λ y. y ∷ []) (get_or-set_self values (t % c) x 0 (omega (arith, mod-lt t hn))))
window-set values c x (suc n) t hn hc =
    ap₂ ◌∷◌
      (get_or-set_ne values ((t + suc n) % c) (t % c) x 0 (add-mod-ne c t (suc n) (omega arith) hn))
      (ap (λ i. window (set values (i % c) x) c (t + 1) (suc n)) {y = t + 1 + n} (omega arith)
        ∙ window-set values c x n (t + 1) (omega arith) hc)

-- What the ring holds.
abbrev pub contents : Queue → List ℕ
contents q = window q.values (q.mask + 1) q.tail (used q)

-- The bounded queue.
unfoldable pub push_back : ℕ → List ℕ → ℕ → Bool × List ℕ
push_back limit xs x = if length xs == limit then (false, xs) else (true, xs ++ (x ∷ []))

unfoldable pub pop_front : List ℕ → Option ℕ × List ℕ
pop_front [] = (none, [])
pop_front (x ∷ xs) = (some x, xs)

module _ (k : ℕ) (q : Queue) (v : IsValid k q) where
  pub length-contents : length (contents q) ≡ used q
  length-contents = length-window q.values (q.mask + 1) q.tail (used q)

  -- The cell that `enqueue` writes is the one past the window,
  write_at : bit_and q.head q.mask ≡ (q.tail + used q) % (q.mask + 1)
  write_at =
      masked k q v q.head
      ∙ ap (λ (t : ℕ). t % (q.mask + 1)) (omega (arith, v.head_in, v.tail_in))
      ∙ wrapped k q v (q.tail + used q)

  -- so the window grows by the new entry.
  written :
      (x : ℕ)
      → used q < q.mask
      → let n = (u16 (q.head + 1) + 65536 - q.tail) % 65536 in
        window (set q.values (bit_and q.head q.mask) x) (q.mask + 1) q.tail n
        ≡ contents q ++ (x ∷ [])
  written x h =
      ap₂ (λ i n. window (set q.values i x) (q.mask + 1) q.tail n) write_at grown
      ∙ window-set q.values (q.mask + 1) x (used q) q.tail (omega arith) (omega (arith, v.storage))
    where
      grown : (u16 (q.head + 1) + 65536 - q.tail) % 65536 ≡ suc (used q)
      grown = omega (arith, v.head_in, v.tail_in, mask_small k q v)

  -- Taking the oldest entry leaves the rest of the window.
  rest :
      used q ≢ 0
      → window q.values (q.mask + 1) (q.tail + 1) (used q - 1)
        ≡ window q.values
            (q.mask + 1)
            (u16 (q.tail + 1))
            ((q.head + 65536 - u16 (q.tail + 1)) % 65536)
  rest h =
      window-congr q.values (q.mask + 1) (q.tail + 1) (u16 (q.tail + 1)) (used q - 1)
        (sym (wrapped k q v (q.tail + 1)))
      ∙ ap (window q.values (q.mask + 1) (u16 (q.tail + 1)))
          (omega (arith, v.head_in, v.tail_in, v.bounded, mask_small k q v))

  -- `queue_enqueue` is a push on the queue of at most `mask` entries.
  pub enqueue_refines :
      (x : ℕ)
      → let (done, q') = enqueue q x in (done, contents q') ≡ push_back q.mask (contents q) x
  unfolding enqueue push_back
  enqueue_refines x =
      ground
        (arith, is_full_iff k q v, length-contents, v.bounded, λ (h : used q < q.mask). written x h)

  -- `queue_dequeue` takes the oldest entry.
  pub dequeue_refines : let (out, q') = dequeue q in (out, contents q') ≡ pop_front (contents q)
  unfolding dequeue pop_front
  dequeue_refines = ground (
    arith,
    is_empty_iff k q v,
    masked k q v q.tail,
    λ (h : used q ≢ 0). rest h,
    λ (h : used q ≢ 0). window_of_ne_zero q.values (q.mask + 1) q.tail (used q) h,
  )

  -- `queue_peek` reads the entry at an index, counted from the oldest, and no other.
  pub peek_refines : (i : ℕ) → peek q i ≡ get_elem? (contents q) i
  unfolding peek
  peek_refines i = rw (
    get_elem?-window q.values (q.mask + 1) q.tail (used q) i,
    size-eq-used k q v,
    masked k q v (q.tail + i),
  )
