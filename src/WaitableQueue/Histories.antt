-- ===== src/WaitableQueue/Histories.antt =====
-- Calls of many threads on one queue, in the order in which they take the lock.
use privately_distributed_cl.Common.{
  ◌+◌, ◌≡◌, ◌⊎◌, refl, ap, ◌∙◌, Bool, none, some, List, [], ◌∷◌, ◌++◌, arith, Bool-cases, inl, inr,
}
use privately_distributed_cl.WaitableQueue.{Container, ContainerLaws, count_if, push, pop}

pub data Event (A : Type 0) : Type 0 where
  pushed : A → Event A
  popped : A → Event A

-- What went in, and what came out.
unfoldable pub pushes : {A : Type 0} → List (Event A) → List A
pushes [] = []
pushes (pushed a ∷ es) = a ∷ pushes es
pushes (popped a ∷ es) = pushes es

unfoldable pub pops : {A : Type 0} → List (Event A) → List A
pops [] = []
pops (pushed a ∷ es) = pops es
pops (popped a ∷ es) = a ∷ pops es

pub count_if-append :
    {A : Type 0} (p : A → Bool) (xs ys : List A)
    → count_if p (xs ++ ys) ≡ count_if p xs + count_if p ys
unfolding count_if
count_if-append p [] ys = omega arith
count_if-append p (x ∷ xs) ys = ground (arith, count_if-append p xs ys)

module _ {A : Type 0} (c : Container A) where
  -- The events of a run from one state to another.
  pub data History : c.State → List (Event A) → c.State → Type 0 where
    done : (s : c.State) → History s [] s
    push_step :
        (a : A) (s : c.State) {es : List (Event A)} {s' : c.State}
        → History (push c a s) es s'
        → History s (pushed a ∷ es) s'
    pop_step :
        (a : A) (s s1 : c.State) {es : List (Event A)} {s' : c.State}
        → pop c s ≡ some (a, s1)
        → History s1 es s'
        → History s (popped a ∷ es) s'

module _ {A : Type 0} (c : Container A) (laws : ContainerLaws c) where
  open laws use {contents}

  -- A `Pop` that takes an element takes it out of the contents; it waits only on an empty container.
  pub pop-cases :
      (s : c.State)
      → ((pop c s ≡ none) × (contents s ≡ []))
        ⊎ ((a : A) × (c.front s ≡ some a)
            × (pop c s ≡ some (a, c.pop s))
            × ((p : A → Bool) → count_if p (contents s) ≡ count_if p (a ∷ contents (c.pop s))))
  unfolding pop
  pop-cases s = elim (Bool-cases (c.empty s)) [
    | inl e ↦ inl (rw (e, pop) refl, laws.empty_nil s e)
    | inr e ↦
        let (a, first, counted) = laws.front_some s e in
        inr (a, first, rw (e, first, pop) refl, counted)
  ]

  pub pop-some :
      (s : c.State) {a : A} {s1 : c.State}
      → pop c s ≡ some (a, s1)
      → (p : A → Bool) → count_if p (contents s) ≡ count_if p (a ∷ contents s1)
  pop-some s {a} {s1} e p = elim (pop-cases s) [
    | inl (none_is, _) ↦ absurd cc
    | inr (b, _, some_is, counted) ↦
        let first : b ≡ a = cc in
        let left : c.pop s ≡ s1 = cc in
        counted p
        ∙ ap (λ x. count_if p (x ∷ contents (c.pop s))) first
        ∙ ap (λ t. count_if p (a ∷ contents t)) left
  ]

  -- Whatever the threads do, no element is lost and none comes twice: those that were there and
  -- those that went in are those that came out and those that are left.
  pub History-conserves :
      (p : A → Bool) {s : c.State} {es : List (Event A)} {s' : c.State}
      → History c s es s'
      → count_if p (contents s) + count_if p (pushes es)
        ≡ count_if p (pops es) + count_if p (contents s')
  unfolding count_if pushes pops push
  History-conserves p (done s) = omega arith
  History-conserves p (push_step a s {es} {s'} h) =
      let ih = History-conserves p h in
      let added = laws.push_adds a s p in ground (arith, ih, added)
  History-conserves p (pop_step a s s1 {es} {s'} e h) =
      let ih = History-conserves p h in let out = pop-some s e p in ground (arith, ih, out)
