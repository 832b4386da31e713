-- ===== src/Common/Sums.antt =====
-- Sums over the elements of a list, each with a number of its own.
use Prim.Native.Nat.{ℕ, ◌+◌, ◌≤◌}
use mathlib.Core.Path.{◌≡◌, refl, ap, ◌∙◌}
use mathlib.Core.List.{List, [], ◌∷◌, ◌++◌}
use native.Mathlib.Omega.{arith}
use privately_distributed_cl.Common.Lists.{All}

module _ {ℓ} {A : Type ℓ} where
  abbrev pub sum_by : (A → ℕ) → List A → ℕ
  sum_by f [] = 0
  sum_by f (x ∷ xs) = f x + sum_by f xs

  pub sum_by-append : (f : A → ℕ) (xs ys : List A) → sum_by f (xs ++ ys) ≡ sum_by f xs + sum_by f ys
  sum_by-append f [] ys = omega arith
  sum_by-append f (x ∷ xs) ys = omega (arith, sum_by-append f xs ys)

  sum_by-middle :
      (f : A → ℕ) (xs ys : List A) (x : A) → sum_by f (xs ++ (x ∷ ys)) ≡ f x + sum_by f (xs ++ ys)
  sum_by-middle f [] ys x = refl
  sum_by-middle f (y ∷ xs) ys x = omega (arith, sum_by-middle f xs ys x)

  -- One element of a list and the others.
  pub sum_by-split :
      (f : A → ℕ) (xs ys : List A) (x : A) {all : List A}
      → all ≡ xs ++ (x ∷ ys)
      → sum_by f all ≡ f x + sum_by f (xs ++ ys)
  sum_by-split f xs ys x e = ap (sum_by f) e ∙ sum_by-middle f xs ys x

  pub sum_by-le :
      (f g h : A → ℕ) (xs : List A)
      → ((x : A) → f x ≤ g x + h x)
      → sum_by f xs ≤ sum_by g xs + sum_by h xs
  sum_by-le f g h [] le = omega arith
  sum_by-le f g h (x ∷ xs) le = omega (arith, le x, sum_by-le f g h xs le)

  pub sum_by-none : (f : A → ℕ) (xs : List A) → All (λ x. f x ≡ 0) xs → sum_by f xs ≡ 0
  sum_by-none f [] none_there = refl
  sum_by-none f (x ∷ xs) none_there = omega (arith, none_there.0, sum_by-none f xs none_there.1)

  pub sum_by-zero : {f : A → ℕ} (xs : List A) → ((x : A) → f x ≡ 0) → sum_by f xs ≡ 0
  sum_by-zero [] zero_each = refl
  sum_by-zero (x ∷ xs) zero_each = omega (arith, zero_each x, sum_by-zero xs zero_each)
