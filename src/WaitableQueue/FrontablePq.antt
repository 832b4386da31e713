-- ===== src/WaitableQueue/FrontablePq.antt =====
-- framework/waitable_queue/pq_to_q.hpp: `FrontablePQ`, a `std::priority_queue` with the names of a
-- queue. The priority queue is the standard library's: a multiset whose `top` is not less than any
-- other element; which of several such ones it is, is left open.
use privately_distributed_cl.Common.{
  ◌≡◌, ap, ◌∙◌, Bool, true, false, Option, some, List, [], ◌∷◌, arith, inl, inr, Bool-cases,
}
use privately_distributed_cl.WaitableQueue.{Container, ContainerLaws, count_if, pop}
use privately_distributed_cl.WaitableQueue.Histories.{
  History, Event, pushes, pops, done, push_step, pop_step, History-conserves,
}

-- `std::priority_queue` with the comparison `less`.
pub record PriorityQueue {A : Type 0} (less : A → A → Bool) : Type 1 where
  pub Heap : Type 0
  pub empty : Heap → Bool
  pub push : A → Heap → Heap
  pub pop : Heap → Heap
  pub top : Heap → Option A
  pub elements : Heap → List A
  pub empty_nil : (h : Heap) → empty h ≡ true → elements h ≡ []
  pub push_adds :
      (a : A) (h : Heap) (p : A → Bool)
      → count_if p (elements (push a h)) ≡ count_if p (a ∷ elements h)
  pub top_some :
      (h : Heap)
      → empty h ≡ false
      → (a : A) × (top h ≡ some a)
        × ((p : A → Bool) → count_if p (elements h) ≡ count_if p (a ∷ elements (pop h)))
  pub top_best :
      (h : Heap) {a : A}
      → empty h ≡ false
      → top h ≡ some a
      → count_if (less a) (elements (pop h)) ≡ 0

module _ {A : Type 0} {less : A → A → Bool} (queue : PriorityQueue less) where
  abbrev pub push : A → queue.Heap → queue.Heap
  push value q = queue.push value q

  abbrev pub pop_top : queue.Heap → queue.Heap
  pop_top q = queue.pop q

  abbrev pub front : queue.Heap → Option A
  front q = queue.top q

  abbrev pub empty : queue.Heap → Bool
  empty q = queue.empty q

  abbrev pub frontable_pq : Container A
  frontable_pq = record {
    State = queue.Heap;
    empty = empty;
    push = push;
    pop = pop_top;
    front = front;
  }

  abbrev pub frontable_pq_laws : ContainerLaws frontable_pq
  frontable_pq_laws = record {
    contents = queue.elements;
    empty_nil = queue.empty_nil;
    push_adds = queue.push_adds;
    front_some = queue.top_some;
  }

  -- Each element before those that are not better.
  pub Descending : List A → Type 0
  Descending [] = Unit
  Descending (a ∷ rest) = (count_if (less a) rest ≡ 0) × Descending rest

  -- An element that `Pop` takes is not less than any that it leaves.
  pub pop_best :
      (s : queue.Heap) {a : A} {s1 : queue.Heap}
      → pop frontable_pq s ≡ some (a, s1)
      → count_if (less a) (queue.elements s1) ≡ 0
  unfolding pop
  pop_best s {a} {s1} e = elim (Bool-cases (queue.empty s)) [
    | inl nil ↦ absurd (ground (arith, e, nil))
    | inr some_there ↦
        let (b, first, _) = queue.top_some s some_there in
        let pair : A × queue.Heap = (b, queue.pop s) in
        let taken : some pair ≡ some (a, s1) = rw (some_there, first, pop) at e in
        let same : b ≡ a = cc in
        let left : queue.pop s ≡ s1 = cc in
        rw left at (queue.top_best s some_there (first ∙ ap some same))
  ]

  -- While nothing goes in, elements come out best first, whichever threads take them.
  pub History-descends :
      {s : queue.Heap} {es : List (Event A)} {s' : queue.Heap}
      → History frontable_pq s es s'
      → pushes es ≡ []
      → Descending (pops es)
  unfolding count_if pushes pops Descending
  History-descends (done s) none_in = tt
  History-descends (push_step a s h) none_in = absurd cc
  History-descends (pop_step a s s1 {es} {s'} e h) none_in =
      let all = History-conserves frontable_pq frontable_pq_laws (less a) h in
      let none_better = pop_best s e in
      let none_new : count_if (less a) (pushes es) ≡ 0 = ap (count_if (less a)) none_in in
      (omega (arith, all, none_better, none_new), History-descends h none_in)
