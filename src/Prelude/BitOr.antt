-- ===== src/Prelude/BitOr.antt =====
-- The law of `x | y` for the lowest digit.
use Prim.Native.Nat.{
  ℕ, zero, suc, ◌+◌, ◌-◌, ◌*◌, ◌/◌, ◌%◌, ◌≤◌, max, bit_or, digits, bit_or-bitwise,
}
use Prim.Native.Nat.add
use mathlib.Core.Path.{◌≡◌, refl, ap}
use native.Mathlib.Omega.{arith}

or_digits-zero : (d b : ℕ) → digits (λ b. b) max d 0 b ≡ b
or_digits-zero zero b = refl
or_digits-zero (suc d) b = refl

or_spare_fuel : (n d a b : ℕ) → a ≤ n → digits (λ b. b) max (n + d) a b ≡ digits (λ b. b) max n a b
or_spare_fuel zero d zero b h = or_digits-zero (0 + d) b
or_spare_fuel zero d (suc a) b h = absurd (omega arith)
or_spare_fuel (suc n) d zero b h = or_digits-zero (suc n + d) b
or_spare_fuel (suc n) d (suc a) b h =
    rw add.suc (omega (arith, or_spare_fuel n d (suc a / 2) (b / 2) (omega arith)))

zero-bit_or : (b : ℕ) → bit_or 0 b ≡ b
zero-bit_or b = bit_or-bitwise 0 b

pub bit_or-halves : (a b : ℕ) → bit_or a b ≡ bit_or (a / 2) (b / 2) * 2 + max (a % 2) (b % 2)
bit_or-halves zero b = omega (arith, zero-bit_or b, zero-bit_or (b / 2))
bit_or-halves (suc a) b = omega (
  arith,
  bit_or-bitwise (suc a) b,
  bit_or-bitwise (suc a / 2) (b / 2),
  or_spare_fuel (suc a / 2) (a - suc a / 2) (suc a / 2) (b / 2) (omega arith),
  ap (λ (n : ℕ). digits (λ b. b) max n (suc a / 2) (b / 2)) {x = suc a / 2 + (a - suc a / 2)}
      {y = a} (omega arith),
)
