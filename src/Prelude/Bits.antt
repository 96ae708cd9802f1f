-- ===== src/Prelude/Bits.antt =====
-- Masks: `x & (2^k - 1)` is `x % 2^k` at every width, which the sources rely on for ring indices and
-- hash sets.
use Prim.Native.Nat.{
  ℕ, zero, suc, ◌+◌, ◌-◌, ◌*◌, ◌/◌, ◌%◌, ◌^◌, ◌≤◌, ◌<◌, min, bit_and, digits, bit_and-bitwise,
}
use Prim.Native.Nat.add
use mathlib.Core.Path.{◌≡◌, refl, sym, ap, ◌∙◌}
use native.Mathlib.Nat.{
  pow-suc, one-le-pow, mod-lt, div-add-mod, mod-eq_of_lt, mul-add-mod_self_left,
}
use native.Mathlib.Omega.{arith}

-- A number with no digits left gives none, whatever the fuel, so fuel beyond the first number is spare.
digits-zero : (d b : ℕ) → digits (λ b. zero) min d 0 b ≡ 0
digits-zero zero b = refl
digits-zero (suc d) b = refl

spare_fuel :
    (n d a b : ℕ) → a ≤ n → digits (λ b. zero) min (n + d) a b ≡ digits (λ b. zero) min n a b
spare_fuel zero d zero b h = digits-zero (0 + d) b
spare_fuel zero d (suc a) b h = absurd (omega arith)
spare_fuel (suc n) d zero b h = digits-zero (suc n + d) b
spare_fuel (suc n) d (suc a) b h =
    rw add.suc (omega (arith, spare_fuel n d (suc a / 2) (b / 2) (omega arith)))

zero-bit_and : (b : ℕ) → bit_and 0 b ≡ 0
zero-bit_and b = bit_and-bitwise 0 b

-- The law for the lowest digit.
pub bit_and-halves : (a b : ℕ) → bit_and a b ≡ bit_and (a / 2) (b / 2) * 2 + min (a % 2) (b % 2)
bit_and-halves zero b = omega (arith, zero-bit_and b, zero-bit_and (b / 2))
bit_and-halves (suc a) b = omega (
  arith,
  bit_and-bitwise (suc a) b,
  bit_and-bitwise (suc a / 2) (b / 2),
  spare_fuel (suc a / 2) (a - suc a / 2) (suc a / 2) (b / 2) (omega arith),
  ap (λ (n : ℕ). digits (λ b. zero) min n (suc a / 2) (b / 2)) {x = suc a / 2 + (a - suc a / 2)}
      {y = a} (omega arith),
)

bit_and-zero_below : (n a : ℕ) → a ≤ n → bit_and a 0 ≡ 0
bit_and-zero_below n zero h = refl
bit_and-zero_below zero (suc a) h = absurd (omega arith)
bit_and-zero_below (suc n) (suc a) h =
    omega (arith, bit_and-halves (suc a) 0, bit_and-zero_below n (suc a / 2) (omega arith))

-- The lowest digit joined to a remainder of the others.
mod-double : (a c : ℕ) → 0 < c → a / 2 % c * 2 + a % 2 ≡ a % (2 * c)
mod-double a c h = sym (
    ap (λ (t : ℕ). t % (2 * c)) whole
    ∙ mul-add-mod_self_left (2 * c) (a / 2 / c) rest
    ∙ mod-eq_of_lt small)
  where
    rest : ℕ
    rest = a / 2 % c * 2 + a % 2

    whole : a ≡ 2 * c * (a / 2 / c) + rest
    whole = omega (arith, ap (λ (t : ℕ). t * 2) (div-add-mod (a / 2) c))

    small : rest < 2 * c
    small = omega (arith, mod-lt (a / 2) h)

pub bit_and-mask : (a k : ℕ) → bit_and a (2 ^ k - 1) ≡ a % 2 ^ k
bit_and-mask a zero = omega (arith, bit_and-zero_below a a (omega arith))
bit_and-mask a (suc k) = omega (
  arith,
  double,
  one-le-pow k 2 (omega arith),
  bit_and-halves a (2 ^ suc k - 1),
  ap (bit_and (a / 2)) half,
  bit_and-mask (a / 2) k,
  mod-double a (2 ^ k) (one-le-pow k 2 (omega arith)),
  ap (λ (t : ℕ). a % t) double,
)
  where
    double : 2 ^ suc k ≡ 2 * 2 ^ k
    double = rw pow-suc (omega arith)

    half : (2 ^ suc k - 1) / 2 ≡ 2 ^ k - 1
    half = omega (arith, double, one-le-pow k 2 (omega arith))
