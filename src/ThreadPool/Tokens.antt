-- ===== src/ThreadPool/Tokens.antt =====
-- Numbers of entries in the queue and of threads at one thing.
use privately_distributed_cl.Common.{
  ℕ, zero, suc, ◌+◌, ◌≤◌, ◌<◌, ◌≡◌, refl, Bool, true, false, some, List, [], ◌∷◌, ◌++◌,
  if◌then◌else◌, leb, arith,
}
use privately_distributed_cl.WaitableQueue.{count_if, pop}
use privately_distributed_cl.WaitableQueue.FrontablePq.{
  PriorityQueue, frontable_pq, frontable_pq_laws, pop_best,
}
use privately_distributed_cl.WaitableQueue.Histories.{pop-some, count_if-append}
use privately_distributed_cl.ThreadPool.{
  Task, user, pause_task1, pause_task2, suicide_task, Entry, check_priority, Status, idle, running,
  paused1, paused2, exited, super_high, push_times,
}

pub count_if_mono :
    {A : Type 0} (p q : A → Bool) (xs : List A)
    → ((x : A) → p x ≡ true → q x ≡ true)
    → count_if p xs ≤ count_if q xs
unfolding count_if
count_if_mono p q [] le = omega arith
count_if_mono p q (x ∷ xs) le = ground (arith, count_if_mono p q xs le, le x)

-- How one element among others counts.
pub count_if-middle :
    {A : Type 0} (p : A → Bool) (xs ys : List A) (x : A)
    → count_if p (xs ++ (x ∷ ys)) ≡ (if p x then 1 else 0) + (count_if p xs + count_if p ys)
unfolding count_if
count_if-middle p xs ys x = ground (arith, count_if-append p xs (x ∷ ys))

module _ {T : Type 0} where
  unfoldable pub is_token : Entry T → Bool
  is_token (user t, priority) = false
  is_token (pause_task1, priority) = leb super_high priority
  is_token (pause_task2, priority) = false
  is_token (suicide_task, priority) = false

  -- A task of the user that would go before a pause.
  unfoldable pub is_overranked : Entry T → Bool
  is_overranked (user t, priority) = leb super_high priority
  is_overranked (pause_task1, priority) = false
  is_overranked (pause_task2, priority) = false
  is_overranked (suicide_task, priority) = false

  unfoldable pub is_live : ℕ × Status T → Bool
  is_live (id, idle) = true
  is_live (id, running t) = true
  is_live (id, paused1) = true
  is_live (id, paused2) = true
  is_live (id, exited) = false

  unfoldable pub is_paused : ℕ × Status T → Bool
  is_paused (id, idle) = false
  is_paused (id, running t) = false
  is_paused (id, paused1) = true
  is_paused (id, paused2) = false
  is_paused (id, exited) = false

  pub paused-is_live : (x : ℕ × Status T) → is_paused x ≡ true → is_live x ≡ true
  unfolding is_paused is_live
  paused-is_live (id, idle) e = refl
  paused-is_live (id, running t) e = refl
  paused-is_live (id, paused1) e = refl
  paused-is_live (id, paused2) e = refl
  paused-is_live (id, exited) e = e

  token-outranks :
      (task : Task T) (priority : ℕ) (x : Entry T)
      → priority < super_high
      → is_token x ≡ true
      → check_priority T (task, priority) x ≡ true
  unfolding is_token
  token-outranks task priority (user t, high) lt e = absurd cc
  token-outranks task priority (pause_task1, high) lt e = ground (arith, lt, e)
  token-outranks task priority (pause_task2, high) lt e = absurd cc
  token-outranks task priority (suicide_task, high) lt e = absurd cc

module _ {T : Type 0} (queue : PriorityQueue (check_priority T)) where
  pub count_if-push_times :
      (p : Entry T → Bool) (n : ℕ) (e : Entry T) (q : queue.Heap)
      → count_if p (queue.elements (push_times queue n e q))
        ≡ (if p e then n else 0) + count_if p (queue.elements q)
  unfolding push_times count_if
  count_if-push_times p zero e q = ground arith
  count_if-push_times p (suc n) e q =
      ground (arith, count_if-push_times p n e (queue.push e q), queue.push_adds e q p)

  -- While there is a token in the queue, and no task of the user goes before it, a task of the
  -- user is not what a thread takes.
  pub user-waits :
      (q q' : queue.Heap) (t : T) (priority : ℕ)
      → pop (frontable_pq queue) q ≡ some ((user t, priority), q')
      → count_if is_overranked (queue.elements q) ≡ 0
      → count_if is_token (queue.elements q) ≡ 0
  unfolding count_if is_token is_overranked
  user-waits q q' t priority e ranked =
      let counts = pop-some (frontable_pq queue) (frontable_pq_laws queue) q e in
      let mine : count_if is_token (queue.elements q) ≡ count_if is_token (queue.elements q') =
        counts is_token in
      let over : count_if is_overranked (queue.elements q) ≡ (
          if leb super_high priority
          then suc (count_if is_overranked (queue.elements q'))
          else count_if is_overranked (queue.elements q')) =
        counts is_overranked in
      let none_better = pop_best queue q e in
      let low : priority < super_high = ground (arith, over, ranked) in
      let fewer =
        count_if_mono is_token (check_priority T (user t, priority)) (queue.elements q')
          λ x h. token-outranks (user t) priority x low h in
      omega (arith, mine, none_better, fewer)
