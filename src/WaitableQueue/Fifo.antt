-- ===== src/WaitableQueue/Fifo.antt =====
-- `std::queue`, the container that `WaitableQueue` takes when no other is given.
use privately_distributed_cl.Common.{
  ◌≡◌, sym, ap, ◌∙◌, Bool, true, false, Option, none, some, List, [], ◌∷◌, ◌++◌,
}
use mathlib.Core.List.{append-nil, append_assoc}
use privately_distributed_cl.WaitableQueue.{Container, push, pop}
use privately_distributed_cl.WaitableQueue.Histories.{
  History, Event, pushes, pops, done, push_step, pop_step,
}

unfoldable pub nil : {A : Type 0} → List A → Bool
nil [] = true
nil (x ∷ xs) = false

unfoldable pub tail : {A : Type 0} → List A → List A
tail [] = []
tail (x ∷ xs) = xs

unfoldable pub head : {A : Type 0} → List A → Option A
head [] = none
head (x ∷ xs) = some x

abbrev pub std_queue : {A : Type 0} → Container A
std_queue {A} = record {
  State = List A;
  empty = nil;
  push = λ a s. s ++ (a ∷ []);
  pop = tail;
  front = head;
}

module _ {A : Type 0} where
  -- First in, first out: whatever the threads do, the elements come out in the order in which they
  -- went in, behind those that were there.
  pub History-in_order :
      {s : List A} {es : List (Event A)} {s' : List A}
      → (h : History (std_queue {A = A}) s es s') → s ++ pushes es ≡ pops es ++ s'
  unfolding pushes pops push pop nil head tail
  History-in_order (done s) = append-nil s
  History-in_order (push_step a s {es} {s'} h) =
      sym (append_assoc s (a ∷ []) (pushes es)) ∙ History-in_order h
  History-in_order (pop_step a [] s1 e h) = absurd cc
  History-in_order (pop_step a (x ∷ s) s1 {es} {s'} e h) =
      let first : x ≡ a = cc in
      let left : s ≡ s1 = cc in rw (first, left) (ap (◌∷◌ a) (History-in_order h))
