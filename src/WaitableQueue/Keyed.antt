-- ===== src/WaitableQueue/Keyed.antt =====
-- A concrete priority queue: a list whose best element, by a number that each has, is found by a scan.
use privately_distributed_cl.Common.{
  ℕ, ◌≤◌, ◌≡◌, refl, sym, ap, ◌∙◌, Bool, true, false, Option, none, some, List, [], ◌∷◌,
  if◌then◌else◌, arith, inl, inr, ltb, Bool-cases, ltb→lt,
}
use privately_distributed_cl.WaitableQueue.{count_if}
use privately_distributed_cl.WaitableQueue.FrontablePq.{PriorityQueue}

module _ {A : Type 0} (key : A → ℕ) where
  abbrev pub less : A → A → Bool
  less a b = ltb (key a) (key b)

  -- The best of `x` and some others, and the rest.
  unfoldable pub best : A → List A → A × List A
  best x [] = (x, [])
  best x (y ∷ ys) =
      let over = best y ys in
      let under = best x ys in if less x y then (over.0, x ∷ over.1) else (under.0, y ∷ under.1)

  best_lem :
      (x : A) (ys : List A)
      → (key x ≤ key (best x ys).0)
        × (count_if (less (best x ys).0) (best x ys).1 ≡ 0)
        × ((p : A → Bool) → count_if p ((best x ys).0 ∷ (best x ys).1) ≡ count_if p (x ∷ ys))
  unfolding best count_if
  best_lem x [] = (omega arith, refl, λ p. refl)
  best_lem x (y ∷ ys) = elim (Bool-cases (less x y)) [
    | inl e ↦
        let (ge, none_better, same) = best_lem y ys in
        let lt = ltb→lt (key x) (key y) e in
        rw e
          (omega (arith, ge, lt), ground (arith, ge, lt, none_better), λ p. ground (arith, same p))
    | inr e ↦
        let (ge, none_better, same) = best_lem x ys in
        rw e (ge, ground (arith, ge, e, none_better), λ p. ground (arith, same p))
  ]

  unfoldable pub nil : List A → Bool
  nil [] = true
  nil (x ∷ xs) = false

  unfoldable pub top : List A → Option A
  unfolding best
  top [] = none
  top (x ∷ xs) = some (best x xs).0

  unfoldable pub pop : List A → List A
  unfolding best
  pop [] = []
  pop (x ∷ xs) = (best x xs).1

  pub nil_lem : (h : List A) → nil h ≡ true → h ≡ []
  unfolding nil
  nil_lem [] e = refl
  nil_lem (x ∷ xs) e = absurd cc

  pub top_some :
      (h : List A)
      → nil h ≡ false
      → (a : A) × (top h ≡ some a) × ((p : A → Bool) → count_if p h ≡ count_if p (a ∷ pop h))
  unfolding nil top pop
  top_some [] e = absurd cc
  top_some (x ∷ xs) e = ((best x xs).0, refl, λ p. sym ((best_lem x xs).2 p))

  pub top_best :
      (h : List A) {a : A} → nil h ≡ false → top h ≡ some a → count_if (less a) (pop h) ≡ 0
  unfolding nil top pop
  top_best [] e t = absurd cc
  top_best (x ∷ xs) {a} e t =
      let same : (best x xs).0 ≡ a = cc in
      ap (λ b. count_if (less b) (best x xs).1) (sym same) ∙ (best_lem x xs).1

  abbrev pub keyed_pq : PriorityQueue less
  keyed_pq = record {
    Heap = List A;
    empty = nil;
    push = λ a h. a ∷ h;
    pop = pop;
    top = top;
    elements = λ h. h;
    empty_nil = nil_lem;
    push_adds = λ a h p. refl;
    top_some = top_some;
    top_best = top_best;
  }
