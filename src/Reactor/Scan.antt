-- ===== src/Reactor/Scan.antt =====
-- The scan for the next ready descriptor.
use privately_distributed_cl.Common.{
  ℕ, zero, suc, ◌+◌, ◌-◌, ◌≤◌, ◌<◌, ◌≡◌, refl, Bool, true, some, List, ◌∷◌, arith, Bool-cases, inl,
  inr,
}
use privately_distributed_cl.Reactor.{up_from, first_from}

pub up_from-congr :
    (p q : ℕ → Bool) (count start : ℕ)
    → ((x : ℕ) → x < start + count → p x ≡ q x)
    → up_from p count start ≡ up_from q count start
unfolding up_from
up_from-congr p q zero start same = refl
up_from-congr p q (suc count) start same =
    rw (same start (omega arith), up_from-congr p q count (suc start) λ x lt. same x (omega arith))
      refl

-- The first number of the list is found, and the others are the list from behind it.
pub up_from-cons :
    (p : ℕ → Bool) (count start fd : ℕ) (rest : List ℕ)
    → up_from p count start ≡ fd ∷ rest
    → (first_from p count start ≡ some fd)
      × (start ≤ fd)
      × (fd < start + count)
      × (p fd ≡ true)
      × (up_from p (start + count - (fd + 1)) (fd + 1) ≡ rest)
unfolding up_from first_from
up_from-cons p zero start fd rest e = cc
up_from-cons p (suc count) start fd rest e = elim (Bool-cases (p start)) [
  | inl h ↦
      let q : start ∷ up_from p count (suc start) ≡ fd ∷ rest = ground (arith, e) in
      let here : start ≡ fd = cc in
      let left : start + suc count - (fd + 1) ≡ count = omega arith in
      let next : fd + 1 ≡ suc start = omega arith in
      (ground arith, omega arith, omega arith, rw (← here) h, rw (left, next) cc)
  | inr h ↦
      let q : up_from p count (suc start) ≡ fd ∷ rest = ground (arith, e) in
      let (found, le, lt, holds, others) = up_from-cons p count (suc start) fd rest q in
      let left : start + suc count - (fd + 1) ≡ suc start + count - (fd + 1) = omega arith in
      (ground arith, omega arith, omega arith, holds, rw left others)
]
