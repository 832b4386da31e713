-- ===== src/Common/Reorder.antt =====
-- The same elements in another order: each one of the second list is taken from what is left of the first.
use mathlib.Core.Path.{◌≡◌, refl, ap, sym, subst}
use mathlib.Core.List.{List, [], ◌∷◌, ◌++◌, map}
use native.Mathlib.Omega.{arith}
use privately_distributed_cl.Common.Lists.{All, length, length-append}

pub data Reorder {A : Type 0} : List A → List A → Type 0 where
  none_left : Reorder [] []
  taken_next :
      (xs ys : List A) (a : A) {rest : List A}
      → Reorder (xs ++ ys) rest
      → Reorder (xs ++ (a ∷ ys)) (a ∷ rest)

pub All-append :
    {A : Type 0} (P : A → Type 0) (xs ys : List A) → All P (xs ++ ys) → All P xs × All P ys
All-append P [] ys v = (tt, v)
All-append P (x ∷ xs) ys v = let (l, r) = All-append P xs ys v.1 in ((v.0, l), r)

pub append-All :
    {A : Type 0} (P : A → Type 0) (xs ys : List A) → All P xs → All P ys → All P (xs ++ ys)
append-All P [] ys v w = w
append-All P (x ∷ xs) ys v w = (v.0, append-All P xs ys v.1 w)

-- One element of a list and the others.
pub All-out :
    {A : Type 0} (P : A → Type 0) (xs ys : List A) (x : A) {all : List A}
    → all ≡ xs ++ (x ∷ ys)
    → All P all
    → P x × All P (xs ++ ys)
All-out P xs ys x e v =
    let (l, (h, r)) = All-append P xs (x ∷ ys) (subst (All P) e v) in (h, append-All P xs ys l r)

pub All-in :
    {A : Type 0} (P : A → Type 0) (xs ys : List A) (x : A)
    → P x
    → All P (xs ++ ys)
    → All P (xs ++ (x ∷ ys))
All-in P xs ys x h v = let (l, r) = All-append P xs ys v in append-All P xs (x ∷ ys) l (h, r)

pub Reorder-All :
    {A : Type 0} (P : A → Type 0) {xs ys : List A} → Reorder xs ys → All P xs → All P ys
Reorder-All P none_left v = tt
Reorder-All P (taken_next xs ys a r) v =
    let (l, (x, m)) = All-append P xs (a ∷ ys) v in (x, Reorder-All P r (append-All P xs ys l m))

pub length-Reorder : {A : Type 0} {xs ys : List A} → Reorder xs ys → length ys ≡ length xs
length-Reorder none_left = refl
length-Reorder (taken_next xs ys a r) =
    omega (arith, length-Reorder r, length-append xs ys, length-append xs (a ∷ ys))

map-append : {A B : Type 0} (f : A → B) (xs ys : List A) → map f (xs ++ ys) ≡ map f xs ++ map f ys
map-append f [] ys = refl
map-append f (x ∷ xs) ys = ap (◌∷◌ (f x)) (map-append f xs ys)

pub map-Reorder :
    {A B : Type 0} (f : A → B) {xs ys : List A} → Reorder xs ys → Reorder (map f xs) (map f ys)
map-Reorder f none_left = none_left
map-Reorder f (taken_next xs ys a {rest} r) =
    let smaller : Reorder (map f xs ++ map f ys) (map f rest) =
      subst (λ l. Reorder l (map f rest)) (map-append f xs ys) (map-Reorder f r) in
    subst (λ l. Reorder l (f a ∷ map f rest)) (sym (map-append f xs (a ∷ ys)))
      (taken_next (map f xs) (map f ys) (f a) smaller)
