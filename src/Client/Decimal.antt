-- ===== src/Client/Decimal.antt =====
-- `std::to_string` tells 64-bit numbers apart.
use native.Mathlib.Decide.{dec_lt}
use native.Mathlib.Nat.{pow-suc}
use postfga.Prelude.{
  ℕ, zero, suc, ◌+◌, ◌-◌, ◌*◌, ◌/◌, ◌%◌, ◌^◌, ◌<◌, ◌≡◌, refl, ap, sym, ◌∙◌, List, [], ◌∷◌, ◌++◌,
  arith,
}
use postfga.Client.{decimal, to_string}

-- The number that is written.
value : ℕ → List ℕ → ℕ
value acc [] = acc
value acc (c ∷ cs) = value (acc * 10 + (c - 48)) cs

value-append : (acc : ℕ) (xs ys : List ℕ) → value acc (xs ++ ys) ≡ value (value acc xs) ys
unfolding value
value-append acc [] ys = refl
value-append acc (x ∷ xs) ys = value-append (acc * 10 + (x - 48)) xs ys

value-decimal : (f n : ℕ) → n < 10 ^ f → value 0 (decimal f n) ≡ n
unfolding value decimal
value-decimal zero n h = omega arith
value-decimal (suc f) n h =
    let small : n / 10 < 10 ^ f = omega (arith, h, pow-suc 10 f) in
    elim (dec_lt n 10) [
      | yes d ↦ ground (arith, d)
      | no d ↦ ground (
        arith,
        d,
        value-append 0 (decimal f (n / 10)) ((48 + n % 10) ∷ []),
        value-decimal f (n / 10) small,
      )
    ]

pub to_string-injective : (m n : ℕ) → m < 2 ^ 64 → n < 2 ^ 64 → to_string m ≡ to_string n → m ≡ n
to_string-injective m n h k e =
    sym (value-decimal 20 m (omega arith)) ∙ ap (value 0) e ∙ value-decimal 20 n (omega arith)
