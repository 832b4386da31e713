-- ===== src/WaitableQueue.antt =====
-- framework/waitable_queue/waitable_queue.hpp: `WaitableQueue` over its parameter `CONTAINER`. The mutex
-- makes each call one step, apart from the waits: a `Pop` that finds nothing lets other threads run.
pub mod Histories
pub mod Fifo
pub mod FrontablePq
pub mod Keyed
pub mod Timeouts
use privately_distributed_cl.Common.{
  ℕ, zero, suc, ◌+◌, ◌≡◌, Bool, true, false, Option, none, some, List, [], ◌∷◌, if◌then◌else◌,
}

-- What the class uses of a container. `front` is asked of a container that is not empty only.
pub record Container (A : Type 0) : Type 1 where
  pub State : Type 0
  pub empty : State → Bool
  pub push : A → State → State
  pub pop : State → State
  pub front : State → Option A

-- How many elements pass a test. Two lists with the same numbers for every test are the same
-- multiset.
unfoldable pub count_if : {A : Type 0} → (A → Bool) → List A → ℕ
count_if p [] = 0
count_if p (x ∷ xs) = let n = count_if p xs in if p x then suc n else n

-- A container holds a multiset, and `front` and `pop` pick the same element of it.
pub record ContainerLaws {A : Type 0} (c : Container A) : Type 0 where
  pub contents : c.State → List A
  pub empty_nil : (s : c.State) → c.empty s ≡ true → contents s ≡ []
  pub push_adds :
      (a : A) (s : c.State) (p : A → Bool)
      → count_if p (contents (c.push a s)) ≡ count_if p (a ∷ contents s)
  pub front_some :
      (s : c.State)
      → c.empty s ≡ false
      → (a : A) × (c.front s ≡ some a)
        × ((p : A → Bool) → count_if p (contents s) ≡ count_if p (a ∷ contents (c.pop s)))

-- How a `wait_for` ends.
pub data CvStatus : Type 0 where
  timeout no_timeout : CvStatus

-- How a `Pop` with a timeout ends: with `false`, with an element, or not yet.
pub data Timed (A S : Type 0) : Type 0 where
  timed_out : S → Timed A S
  taken : A → S → Timed A S
  waiting : S → Timed A S

module _ {A : Type 0} (c : Container A) where
  unfoldable pub push : A → c.State → c.State
  push data_ s = c.push data_ s

  unfoldable pub is_empty : c.State → Bool
  is_empty s = c.empty s

  -- `Pop` once it has the lock: `none` if it has to wait.
  unfoldable pub pop : c.State → Option (A × c.State)
  pop s = elim (c.empty s) [
    | true ↦ none
    | false ↦ elim (c.front s) [ none ↦ none | some a ↦ some (a, c.pop s) ]
  ]

  -- `Pop` with a timeout, with the ends of its waits: how each ends, and the container as other
  -- threads have left it. A wait that times out ends the call, whatever the container holds by then.
  pub pop_within : List (CvStatus × c.State) → c.State → Timed A c.State
  pop_within [] s = elim (pop s) [ none ↦ waiting s | some (a, s') ↦ taken a s' ]
  pop_within ((status, s1) ∷ wakes) s =
      let rest = pop_within wakes s1 in
      elim (pop s) [
        | some (a, s') ↦ taken a s'
        | none ↦ elim status [ timeout ↦ timed_out s1 | no_timeout ↦ rest ]
      ]
