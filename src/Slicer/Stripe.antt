-- ===== src/Slicer/Stripe.antt =====
-- The striping that the slicer means: fragment `f` of the whole device is on IoT `f % n`, in row
-- `f / n` of that IoT's storage.
use privately_distributed_cl.Common.{ℕ, ◌+◌, ◌*◌, ◌/◌, ◌%◌, ◌<◌, ◌≡◌, ap, arith}
use native.Mathlib.Decide.{dec_lt}
use native.Mathlib.Nat.{div-eq_of_lt-le, div-add-mod, mod-add-mod, mod-lt}

-- Quotient and remainder from any division with a small remainder.
pub div_of_parts : (n q r a : ℕ) → r < n → a ≡ n * q + r → (a / n ≡ q) × (a % n ≡ r)
div_of_parts n q r a h e = (quotient, omega (arith, ap (λ t. n * t) quotient, div-add-mod a n))
  where
    quotient : a / n ≡ q
    quotient = div-eq_of_lt-le {k = q} n {m = a} (omega arith) (omega arith)

pub next_device : (n f : ℕ) → (f % n + 1) % n ≡ (f + 1) % n
next_device n f = mod-add-mod f n 1

pub next_row_wrap : (n f : ℕ) → 0 < n → (f + 1) % n ≡ 0 → (f + 1) / n ≡ f / n + 1
next_row_wrap n f h e = elim (dec_lt (f % n + 1) n) [
  | yes p ↦ absurd (
      omega
        (arith, (div_of_parts n (f / n) (f % n + 1) (f + 1) p (omega (arith, div-add-mod f n))).1))
  | no p ↦
      (div_of_parts n (f / n + 1) 0 (f + 1) h (omega (arith, div-add-mod f n, mod-lt f {m = n}))).0
]

pub next_row_same : (n f : ℕ) → 0 < n → ¬ ((f + 1) % n ≡ 0) → (f + 1) / n ≡ f / n
next_row_same n f h e = elim (dec_lt (f % n + 1) n) [
  | yes p ↦ (div_of_parts n (f / n) (f % n + 1) (f + 1) p (omega (arith, div-add-mod f n))).0
  | no p ↦ absurd (
      e
        (div_of_parts n (f / n + 1) 0 (f + 1) h
          (omega (arith, div-add-mod f n, mod-lt f {m = n}))).1)
]

-- A row and a device give the fragment back.
pub fragment_unique : (n f g : ℕ) → 0 < n → f % n ≡ g % n → f / n ≡ g / n → f ≡ g
fragment_unique n f g h p q = grind arith

pub row_bound : (n f rows : ℕ) → 0 < n → f < n * rows → f / n < rows
row_bound n f rows h lt = grind arith
