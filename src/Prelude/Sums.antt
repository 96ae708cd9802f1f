-- ===== src/Prelude/Sums.antt =====
-- Signed numbers, and sums over lists.
use Prim.Native.Nat.{ℕ, zero, suc, ◌+◌, ◌<◌}
use mathlib.Core.Path.{◌≡◌, refl}
use mathlib.Core.List.{List, [], ◌∷◌, ◌++◌}
use native.Mathlib.Omega.{arith}
use postfga.Prelude.Lists.{length, get_or, set, replicate}

pub data ℤ : Type 0 where
  pos : ℕ → ℤ
  negsuc : ℕ → ℤ

module _ {ℓ} {A : Type ℓ} where
  unfoldable pub sum : (A → ℕ) → List A → ℕ
  sum f [] = 0
  sum f (b ∷ bs) = f b + sum f bs

  pub sum-set :
      (f : A → ℕ) (bs : List A) (i : ℕ) (b d : A)
      → i < length bs
      → sum f (set bs i b) + f (get_or bs i d) ≡ sum f bs + f b
  unfolding sum
  sum-set f [] i b d h = absurd (omega (arith, h))
  sum-set f (x ∷ bs) zero b d h = omega arith
  sum-set f (x ∷ bs) (suc i) b d h = omega (arith, sum-set f bs i b d (omega (arith, h)))

  pub sum-append : (f : A → ℕ) (xs ys : List A) → sum f (xs ++ ys) ≡ sum f xs + sum f ys
  unfolding sum
  sum-append f [] ys = omega arith
  sum-append f (x ∷ xs) ys = omega (arith, sum-append f xs ys)

  pub sum-replicate : (f : A → ℕ) (n : ℕ) (d : A) → f d ≡ 0 → sum f (replicate n d) ≡ 0
  unfolding sum
  sum-replicate f zero d e = refl
  sum-replicate f (suc n) d e = omega (arith, e, sum-replicate f n d e)
