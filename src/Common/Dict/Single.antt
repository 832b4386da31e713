-- ===== src/Common/Dict/Single.antt =====
-- Maps that have at most one entry for a key, and how many entries of a map have a value.
use Prim.Native.Nat.{ℕ, suc, ◌+◌}
use mathlib.Core.Path.{◌≡◌, refl, subst}
use mathlib.Core.Logic.{inl, inr}
use mathlib.Core.Option.{Option, none, some}
use mathlib.Core.List.{[], ◌∷◌}
use native.Mathlib.Omega.{arith}
use privately_distributed_cl.Common.Sums.{sum_by}
use privately_distributed_cl.Common.Tests.{◌==◌, if◌then◌else◌, Bool-cases}
use privately_distributed_cl.Common.Dict.{
  Dict, Key, same_self, find, assign, erase, find-erase, find-erase_self,
}

-- How many entries have a value.
unfoldable pub holding : {K : Type 0} → ℕ → Dict K ℕ → ℕ
holding h [] = 0
holding h ((k, v) ∷ rest) = let n = holding h rest in if v == h then suc n else n

-- One if a key has the value, and 0 otherwise.
abbrev pub has : ℕ → Option ℕ → ℕ
has h none = 0
has h (some v) = if v == h then 1 else 0

module _ {K V : Type 0} ⦃key : Key K⦄ where
  abbrev pub IsSingle : Dict K V → Type 0
  IsSingle [] = Unit {0}
  IsSingle ((k, v) ∷ rest) = find k rest ≡ none × IsSingle rest

  pub erase_missing : (k : K) (d : Dict K V) → find k d ≡ none → erase k d ≡ d
  unfolding find erase
  erase_missing k [] e = refl
  erase_missing k ((j, v) ∷ d) e = ground (arith, erase_missing k d, e)

  pub erase-IsSingle : (k : K) (d : Dict K V) → IsSingle d → IsSingle (erase k d)
  unfolding erase
  erase-IsSingle k [] v = tt
  erase-IsSingle k ((j, h) ∷ d) v = elim (Bool-cases (key.same j k)) [
    | inl e ↦ rw (e, erase) (erase-IsSingle k d v.1)
    | inr e ↦ rw (e, erase) (ground (arith, find-erase k j d, v.0), erase-IsSingle k d v.1)
  ]

  pub assign-IsSingle : (k : K) (v : V) (d : Dict K V) → IsSingle d → IsSingle (assign k v d)
  unfolding assign
  assign-IsSingle k v d single = (find-erase_self k d, erase-IsSingle k d single)

  pub assign_lem : (k : K) (v : V) (d : Dict K V) → assign k v d ≡ (k, v) ∷ erase k d
  unfolding assign
  assign_lem k v d = refl

  -- The entry of a key and the others, each with a number.
  pub sum_by-erase :
      (f : K × V → ℕ) (k : K) (d : Dict K V) {v : V}
      → IsSingle d
      → find k d ≡ some v
      → sum_by f d ≡ f (k, v) + sum_by f (erase k d)
  unfolding find erase
  sum_by-erase f k [] single e = cc
  sum_by-erase f k ((j, w) ∷ d) {v} single e = elim (Bool-cases (key.same j k)) [
    | inl same ↦
        let p : j ≡ k = (key.same_iff j k).0 same in
        let missing : find k d ≡ none = subst (λ i. find i d ≡ none) p single.0 in
        let q : w ≡ v = ground (arith, same, e) in
        rw (same, find, erase) (ground (arith, erase_missing k d missing, p, q))
    | inr other ↦
        let there : find k d ≡ some v = ground (arith, other, e) in
        rw (other, find, erase) (omega (arith, sum_by-erase f k d single.1 there))
  ]

  -- If each entry that a key leads to counts nothing, all do.
  pub sum_by-zero :
      (f : K × V → ℕ) (d : Dict K V)
      → IsSingle d
      → ((k : K) (v : V) → find k d ≡ some v → f (k, v) ≡ 0)
      → sum_by f d ≡ 0
  unfolding find
  sum_by-zero f [] single h = refl
  sum_by-zero f ((j, w) ∷ d) single h =
      let first : f (j, w) ≡ 0 = h j w (ground (arith, same_self j)) in
      omega (
        arith,
        first,
        sum_by-zero f d single.1 λ k v e. elim (Bool-cases (key.same j k)) [
          | inl same ↦
              let p : j ≡ k = (key.same_iff j k).0 same in
              let missing : find k d ≡ none = subst (λ i. find i d ≡ none) p single.0 in cc
          | inr other ↦ h k v (ground (arith, other, e))
        ],
      )

module _ {K : Type 0} ⦃key : Key K⦄ where
  -- To erase a key takes its entry.
  pub holding-erase :
      (h : ℕ) (k : K) (d : Dict K ℕ)
      → IsSingle d
      → holding h d ≡ has h (find k d) + holding h (erase k d)
  unfolding holding erase find
  holding-erase h k [] v = refl
  holding-erase h k ((j, w) ∷ d) v = elim (Bool-cases (key.same j k)) [
    | inl e ↦
        let p : j ≡ k = (key.same_iff j k).0 e in
        let missing : find k d ≡ none = subst (λ i. find i d ≡ none) p v.0 in
        rw (e, find, erase) (ground (arith, erase_missing k d missing))
    | inr e ↦ rw (e, find, erase) (ground (arith, holding-erase h k d v.1))
  ]

  -- To assign takes the entry that was there, and adds one.
  pub holding-assign :
      (h : ℕ) (k : K) (v : ℕ) (d : Dict K ℕ)
      → IsSingle d
      → holding h (assign k v d) + has h (find k d) ≡ (if v == h then 1 else 0) + holding h d
  unfolding holding assign
  holding-assign h k v d single = ground (arith, holding-erase h k d single)
