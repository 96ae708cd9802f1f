-- ===== src/Shmem/Smear.antt =====
-- `pow2_ceil` rounds up to a power of two.
use native.Mathlib.Nat.{pow-suc, pow-le-pow_right}
use postfga.Prelude.{
  ℕ, zero, suc, ◌+◌, ◌/◌, ◌%◌, ◌^◌, ◌<◌, ◌≤◌, ◌≡◌, refl, ap, sym, ◌∙◌, max, min, bit_or,
  bit_or-halves, arith,
}
use postfga.Shmem.{smear_by, smear, pow2_ceil}

shift : ℕ → ℕ → ℕ
shift zero y = y
shift (suc n) y = shift n (y / 2)

-- A function on digits that treats all of them alike, and whose lowest digit is set where one of the lowest digits
-- below `c` is.
record Smears (f : ℕ → ℕ) (c : ℕ) : Type 0 where
  halves : (y : ℕ) → f y / 2 ≡ f (y / 2)
  low : (y : ℕ) → f y % 2 ≡ min 1 (y % c)

smear_by-half :
    (c y : ℕ) → ((y : ℕ) → y / c / 2 ≡ y / 2 / c) → smear_by c y / 2 ≡ smear_by c (y / 2)
smear_by-half c y comm = omega (arith, bit_or-halves y (y / c), ap (bit_or (y / 2)) (comm y))

module _ (f : ℕ → ℕ) (c : ℕ) (s : Smears f c) where
  shift-f : (n y : ℕ) → shift n (f y) ≡ f (shift n y)
  unfolding shift
  shift-f zero y = refl
  shift-f (suc n) y = ap (shift n) (s.halves y) ∙ shift-f n (y / 2)

  grow :
      (n d : ℕ)
      → ((y : ℕ) → shift n y ≡ y / c)
      → ((y : ℕ) → y / c / 2 ≡ y / 2 / c)
      → ((y : ℕ) → max (min 1 (y % c)) (min 1 (y / c % c)) ≡ min 1 (y % d))
      → Smears (λ y. smear_by c (f y)) d
  grow n d shifts comm merge = record {
    halves = λ y. smear_by-half c (f y) comm ∙ ap (smear_by c) (s.halves y);
    low = λ y.
        let moved : f y / c ≡ f (y / c) = sym (shifts (f y)) ∙ shift-f n y ∙ ap f (shifts y) in
        omega (
          arith,
          bit_or-halves (f y) (f y / c),
          s.low y,
          ap (λ (x : ℕ). x % 2) moved,
          s.low (y / c),
          merge y,
        );
  }

start : Smears (λ y. smear_by 2 y) 4
start = record {
  halves = λ y. smear_by-half 2 y (λ y. omega arith);
  low = λ y. omega (arith, bit_or-halves y (y / 2));
}

shift-2 : (y : ℕ) → shift 2 y ≡ y / 4
unfolding shift
shift-2 y = omega arith

shift-4 : (y : ℕ) → shift 4 y ≡ y / 16
unfolding shift
shift-4 y = omega arith

shift-8 : (y : ℕ) → shift 8 y ≡ y / 256
unfolding shift
shift-8 y = omega arith

shift-16 : (y : ℕ) → shift 16 y ≡ y / 65536
unfolding shift
shift-16 y = omega arith

smear-Smears : Smears smear 4294967296
smear-Smears =
    let s2 = grow _ 4 start 2 16 shift-2 (λ y. omega arith) (λ y. omega arith) in
    let s3 = grow _ 16 s2 4 256 shift-4 (λ y. omega arith) (λ y. omega arith) in
    let s4 = grow _ 256 s3 8 65536 shift-8 (λ y. omega arith) (λ y. omega arith) in
    grow _ 65536 s4 16 4294967296 shift-16 (λ y. omega arith) (λ y. omega arith)

exponent_step : (k y j : ℕ) → ((j : ℕ) → y / 2 < 2 ^ j → k ≤ j) → 0 < y → y < 2 ^ j → suc k ≤ j
exponent_step k y zero least some_bit h = absurd (omega (arith, h, some_bit))
exponent_step k y (suc j) least some_bit h = omega (arith, least j (omega (arith, h, pow-suc 2 j)))

-- The least power of two above `y`, less one.
smear_lem :
    (n y : ℕ)
    → n ≤ 32
    → y < 2 ^ n
    → (k : ℕ) × (smear y + 1 ≡ 2 ^ k) × (y < 2 ^ k) × ((j : ℕ) → y < 2 ^ j → k ≤ j)
smear_lem n zero narrow h = (0, refl, omega arith, λ j h. omega arith)
smear_lem zero (suc y) narrow h = absurd (omega (arith, h))
smear_lem (suc n) (suc y) narrow h =
    let (k, e, above, least) =
      smear_lem n (suc y / 2) (omega (arith, narrow)) (omega (arith, h, pow-suc 2 n)) in
    let bounded : suc y < 2 ^ 32 =
      omega (arith, h, pow-le-pow_right {n = 2} (omega arith) narrow) in
    (
      suc k,
      omega (arith, smear-Smears.halves (suc y), smear-Smears.low (suc y), e, pow-suc 2 k, bounded),
      omega (arith, above, pow-suc 2 k),
      λ j h'. exponent_step k (suc y) j least (omega arith) h',
    )

-- For up to 2^31 slots `pow2_ceil` is the least power of two that is not below its argument, though it computes in 32
-- bits.
pub pow2_ceil_lem :
    (x : ℕ)
    → x ≤ 2 ^ 31
    → (k : ℕ) × (pow2_ceil x ≡ 2 ^ k) × (x ≤ 2 ^ k) × ((j : ℕ) → x ≤ 2 ^ j → k ≤ j)
unfolding pow2_ceil
pow2_ceil_lem zero h = (0, refl, omega arith, λ j h. omega arith)
pow2_ceil_lem (suc x) h =
    let (k, e, above, least) = smear_lem 32 x (omega arith) (omega (arith, h)) in
    let narrow : k ≤ 31 = least 31 (omega (arith, h)) in
    let small : 2 ^ k ≤ 2 ^ 31 = pow-le-pow_right {n = 2} (omega arith) narrow in
    (k, omega (arith, e, small), omega (arith, above), λ j h'. least j (omega (arith, h')))
