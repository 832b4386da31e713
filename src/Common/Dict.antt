-- ===== src/Common/Dict.antt =====
-- `std::unordered_map` as an association list, over keys that can be compared.
pub mod Single
use Prim.Native.Nat.{ℕ}
use mathlib.Core.Path.{◌≡◌, refl}
use mathlib.Core.Logic.{◌↔◌, inl, inr}
use mathlib.Core.Bool.{Bool, true}
use mathlib.Core.Option.{Option, none, some}
use mathlib.Core.List.{List, [], ◌∷◌}
use native.Mathlib.Omega.{arith}
use privately_distributed_cl.Common.Tests.{◌==◌, ==_iff, if◌then◌else◌, Bool-cases}

-- `operator==` of a key type.
pub record Key {ℓ} (K : Type ℓ) : Type ℓ where
  pub same : K → K → Bool
  pub same_iff : (a b : K) → (same a b ≡ true) ↔ (a ≡ b)

instance abbrev pub nat_key : Key ℕ
nat_key = record { same = ◌==◌; same_iff = ==_iff }

abbrev pub Dict {ℓ κ} : Type ℓ → Type κ → Type (ℓ ⊔ κ)
Dict K V = List (K × V)

module _ {ℓ} {K : Type ℓ} ⦃key : Key K⦄ where
  pub same_self : (k : K) → key.same k k ≡ true
  same_self k = (key.same_iff k k).1 refl

  same_left : (j k i : K) → key.same j k ≡ true → key.same j i ≡ key.same k i
  same_left j k i h = let e : j ≡ k = (key.same_iff j k).0 h in rw e

  same_right : (j k i : K) → key.same k i ≡ true → key.same j k ≡ key.same j i
  same_right j k i h = let e : k ≡ i = (key.same_iff k i).0 h in rw e

module _ {ℓ κ} {K : Type ℓ} {V : Type κ} ⦃key : Key K⦄ where
  -- `find(k)`; `none` is `end()`.
  pub find : K → Dict K V → Option V
  find k [] = none
  find k ((j, v) ∷ d) = if key.same j k then some v else find k d

  -- `erase(k)`.
  pub erase : K → Dict K V → Dict K V
  erase k [] = []
  erase k ((j, v) ∷ d) = let rest = erase k d in if key.same j k then rest else (j, v) ∷ rest

  -- `d[k] = v`.
  pub assign : K → V → Dict K V → Dict K V
  unfolding erase
  assign k v d = (k, v) ∷ erase k d

  -- `insert({k, v})`, which keeps an entry that is there.
  pub emplace : K → V → Dict K V → Dict K V
  unfolding find
  emplace k v d = elim (find k d) [ none ↦ (k, v) ∷ d | some _ ↦ d ]

  pub find_missing : (k : K) → let nil : Dict K V = [] in find k nil ≡ none
  unfolding find
  find_missing k = refl

  pub find-erase :
      (k i : K) (d : Dict K V) → find i (erase k d) ≡ (if key.same k i then none else find i d)
  unfolding find erase
  find-erase k i [] = ground arith
  find-erase k i ((j, v) ∷ d) = ground (arith, find-erase k i d, same_left j k i, same_right j k i)

  -- After `d[k] = v` the key has the value, and every other key what it had.
  pub find-assign :
      (k i : K) (v : V) (d : Dict K V)
      → find i (assign k v d) ≡ (if key.same k i then some v else find i d)
  unfolding find assign
  find-assign k i v d = ground (arith, find-erase k i d)

  -- `insert` gives a missing key the value and changes no other.
  pub find-emplace :
      (k i : K) (v : V) (d : Dict K V)
      → find i (emplace k v d)
        ≡ (if key.same k i then elim (find k d) [ none ↦ some v | some w ↦ some w ] else find i d)
  unfolding find emplace
  find-emplace k i v d = elim (Bool-cases (key.same k i)) [
    | inl e ↦ let p : k ≡ i = (key.same_iff k i).0 e in ground (arith, p)
    | inr e ↦ ground arith
  ]

  pub find-assign_self : (k : K) (v : V) (d : Dict K V) → find k (assign k v d) ≡ some v
  find-assign_self k v d = rw (find-assign k k v d, same_self k)

  pub find-erase_self : (k : K) (d : Dict K V) → find k (erase k d) ≡ none
  find-erase_self k d = rw (find-erase k k d, same_self k)
