-- ===== src/Common/Search.antt =====
-- To look for an element, or for a list that is not empty.
use Prim.Native.Nat.{ℕ, zero, suc, ◌<◌}
use mathlib.Core.Path.{◌≡◌, refl, ap}
use mathlib.Core.Logic.{◌⊎◌, ◌≢◌, inl, inr}
use mathlib.Core.List.{List, [], ◌∷◌, ◌++◌, map}
use native.Mathlib.Omega.{arith}
use privately_distributed_cl.Common.Lists.{All, length, get_or}
use privately_distributed_cl.Common.Sums.{sum_by}

-- A list among some lists that is not empty.
pub nonempty_in :
    {A : Type 0} (xss : List (List A))
    → All (λ xs. xs ≡ []) xss
      ⊎ ((us : List (List A)) × (vs : List (List A)) × (x : A) × (xs : List A) × (xss
            ≡ us ++ ((x ∷ xs) ∷ vs)))
nonempty_in [] = inl tt
nonempty_in ((x ∷ xs) ∷ xss) = inr ([], xss, x, xs, refl)
nonempty_in ([] ∷ xss) = elim (nonempty_in xss) [
  | inl nothing ↦ inl (refl, nothing)
  | inr (us, vs, x, xs, e) ↦ inr ([] ∷ us, vs, x, xs, ap (◌∷◌ []) e)
]

pub sum_by-nothing :
    {A : Type 0} (f : A → ℕ) (xss : List (List A))
    → All (λ xs. xs ≡ []) xss
    → sum_by (sum_by f) xss ≡ 0
sum_by-nothing f [] h = refl
sum_by-nothing f (xs ∷ xss) h = omega (arith, ap (sum_by f) h.0, sum_by-nothing f xss h.1)

pub cons_cases : {A : Type 0} (xs : List A) → (xs ≡ []) ⊎ ((x : A) × (ys : List A) × (xs ≡ x ∷ ys))
cons_cases [] = inl refl
cons_cases (x ∷ xs) = inr (x, xs, refl)

pub nil_cases : {A : Type 0} (xs : List A) → (xs ≡ []) ⊎ (xs ≢ [])
nil_cases [] = inl refl
nil_cases (x ∷ xs) = inr (λ e. cc)

-- The element at a place of a list that is mapped.
pub element_at :
    {A : Type 0} (f : A → ℕ) (xs : List A) (i : ℕ)
    → i < length (map f xs)
    → (ls : List A) × (rs : List A) × (x : A) × (xs ≡ ls ++ (x ∷ rs))
      × (f x ≡ get_or (map f xs) i 0)
element_at f [] i h = absurd (omega arith)
element_at f (x ∷ xs) zero h = ([], xs, x, refl, refl)
element_at f (x ∷ xs) (suc i) h =
    let (ls, rs, y, e, same) = element_at f xs i (omega arith) in
    (x ∷ ls, rs, y, ap (◌∷◌ x) e, same)
