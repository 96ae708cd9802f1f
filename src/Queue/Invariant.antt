-- ===== src/Queue/Invariant.antt =====
-- The representation invariant of the ring: its capacity is 2 to the `k`, and fewer cells are in use.
use native.Mathlib.Decide.{dec_lt}
use native.Mathlib.Nat.{
  mod-eq_of_lt, pow-suc, one-le-pow, add-mul-mod_self_right, add-zero, add-suc, mul-one, mul_assoc,
  pow-le-pow_right,
}
use postfga.Prelude.{
  ℕ, zero, suc, ◌+◌, ◌-◌, ◌*◌, ◌/◌, ◌%◌, ◌^◌, ◌≤◌, ◌<◌, ◌≡◌, ◌↔◌, sym, ap, ◌∙◌, true, List, length,
  length-set, bit_and, bit_and-mask, u16, u32, arith,
}
use postfga.Queue.{Queue, init, size, is_empty, is_full, enqueue, dequeue}

-- How many cells are in use, read off the wrapping cursors.
abbrev pub used : Queue → ℕ
used q = (q.head + 65536 - q.tail) % 65536

pub record IsValid (k : ℕ) (q : Queue) : Type 0 where
  pub capacity : q.mask + 1 ≡ 2 ^ k
  pub narrow : k ≤ 16
  pub head_in : q.head < 65536
  pub tail_in : q.tail < 65536
  pub bounded : used q ≤ q.mask
  pub storage : length q.values ≡ q.mask + 1

pow_mul : (a b : ℕ) → 2 ^ a * 2 ^ b ≡ 2 ^ (a + b)
pow_mul a zero = rw (add-zero, mul-one)
pow_mul a (suc b) =
    rw (add-suc, pow-suc 2 b, pow-suc 2 (a + b))
      (sym (mul_assoc (2 ^ a) (2 ^ b) 2) ∙ ap (λ (t : ℕ). t * 2) (pow_mul a b))

-- The capacity divides the range of a cursor,
pow_split : (k : ℕ) → k ≤ 16 → 2 ^ (16 - k) * 2 ^ k ≡ 65536
pow_split k h = pow_mul (16 - k) k ∙ ap (λ (t : ℕ). 2 ^ t) {y = 16} (omega arith)

-- so a multiple of that range is not seen through the mask,
mod_skip : (k n m : ℕ) → k ≤ 16 → (n + m * 65536) % 2 ^ k ≡ n % 2 ^ k
mod_skip k n m h =
    ap (λ (t : ℕ). (n + t) % 2 ^ k)
      (ap (λ (t : ℕ). m * t) (sym (pow_split k h)) ∙ sym (mul_assoc m (2 ^ (16 - k)) (2 ^ k)))
    ∙ add-mul-mod_self_right n (m * 2 ^ (16 - k)) (2 ^ k)

-- and neither is the wrap of a cursor.
pub mod_wrap : (k n : ℕ) → k ≤ 16 → n % 65536 % 2 ^ k ≡ n % 2 ^ k
mod_wrap k n h =
    sym (ap (λ (t : ℕ). t % 2 ^ k) (omega arith) ∙ mod_skip k (n % 65536) (n / 65536) h)

module _ (k : ℕ) (q : Queue) (v : IsValid k q) where
  -- The mask takes the remainder by the capacity.
  pub masked : (n : ℕ) → bit_and n q.mask ≡ n % (q.mask + 1)
  masked n =
      ap (bit_and n) (omega (arith, v.capacity))
      ∙ bit_and-mask n k
      ∙ ap (λ (t : ℕ). n % t) (sym v.capacity)

  pub wrapped : (n : ℕ) → n % 65536 % (q.mask + 1) ≡ n % (q.mask + 1)
  wrapped n = rw v.capacity (mod_wrap k n v.narrow)

  distance : (q.head + 4294967296 - q.tail) % 4294967296 % 2 ^ k ≡ used q % 2 ^ k
  distance = elim (dec_lt q.head q.tail) [
    | yes h ↦
        ap (λ (t : ℕ). t % 2 ^ k) (omega (arith, v.head_in, v.tail_in))
        ∙ mod_skip k (used q) 65535 v.narrow
    | no h ↦ ap (λ (t : ℕ). t % 2 ^ k) (omega (arith, v.head_in, v.tail_in))
  ]

  pub size-eq-used : size q ≡ used q
  unfolding size
  size-eq-used =
      ap u16 (
        masked (u32 (q.head + 4294967296 - q.tail))
        ∙ ap (λ (t : ℕ). u32 (q.head + 4294967296 - q.tail) % t) v.capacity
        ∙ distance
        ∙ mod-eq_of_lt (omega (arith, v.bounded, v.capacity)))
      ∙ omega (arith, v.bounded)

  -- The two ways in which the code looks at the cursors agree.
  pub is_empty_iff : (is_empty q ≡ true) ↔ (used q ≡ 0)
  unfolding is_empty
  is_empty_iff = ground (arith, v.head_in, v.tail_in)

  pub is_full_iff : (is_full q ≡ true) ↔ (used q ≡ q.mask)
  unfolding is_full
  is_full_iff = ground (arith, size-eq-used)

  pub mask_small : q.mask ≤ 65535
  mask_small = omega (arith, v.capacity, pow-le-pow_right {n = 2} (omega arith) v.narrow)

-- `queue_init` makes an empty ring, for every power of two up to 2^16 (where the truncated argument
-- is 0, and the mask still 65535).
pub init-IsValid :
    (k : ℕ) (values : List ℕ)
    → k ≤ 16
    → length values ≡ 2 ^ k
    → IsValid k (init values (2 ^ k)) × (used (init values (2 ^ k)) ≡ 0)
unfolding init
init-IsValid k values h e =
    ground (arith, one-le-pow k 2 (omega arith), pow-le-pow_right {n = 2} (omega arith) h)

-- `queue_enqueue` keeps the invariant, and uses one more cell unless the ring is full.
pub enqueue-IsValid : (k : ℕ) (q : Queue) (x : ℕ) → IsValid k q → IsValid k (enqueue q x).1
unfolding enqueue
enqueue-IsValid k q x v =
    ground
      (arith, is_full_iff k q v, mask_small k q v, length-set q.values (bit_and q.head q.mask) x)

pub dequeue-IsValid : (k : ℕ) (q : Queue) → IsValid k q → IsValid k (dequeue q).1
unfolding dequeue
dequeue-IsValid k q v = ground (arith, is_empty_iff k q v)
