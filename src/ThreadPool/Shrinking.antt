-- ===== src/ThreadPool/Shrinking.antt =====
-- The suicide tasks of a pool that is made smaller, and the ids that they leave.
use privately_distributed_cl.Common.{
  ℕ, ◌+◌, ◌-◌, ◌≤◌, ◌≡◌, refl, ◌∙◌, Bool, true, false, some, List, [], ◌∷◌, if◌then◌else◌, ltb,
  arith, Bool-cases, inl, inr, length, length-append,
}
use privately_distributed_cl.WaitableQueue.{count_if, pop}
use privately_distributed_cl.WaitableQueue.FrontablePq.{
  PriorityQueue, frontable_pq, frontable_pq_laws,
}
use privately_distributed_cl.WaitableQueue.Histories.{pop-some}
use privately_distributed_cl.ThreadPool.{
  Task, user, pause_task1, pause_task2, suicide_task, Entry, check_priority, super_high,
  super_duper_high, push_times, ThreadPool, add_task, set_num_of_threads, decrease_num_of_threads,
  leaves, Event, Step, takes, finishes, throws, resumes1, resumes2, adds, Steps, done, step,
}
use privately_distributed_cl.ThreadPool.Tokens.{count_if-push_times}

module _ {T : Type 0} where
  unfoldable pub is_suicide : Entry T → Bool
  is_suicide (user t, priority) = false
  is_suicide (pause_task1, priority) = false
  is_suicide (pause_task2, priority) = false
  is_suicide (suicide_task, priority) = true

module _ {T : Type 0} (queue : PriorityQueue (check_priority T)) where
  -- The suicides that are still to be taken, and the ids of those that were.
  abbrev pub leaving : ThreadPool queue → ℕ
  leaving p = count_if is_suicide (queue.elements p.thread_queue) + length p.zombie_queue

  taken-suicides :
      (p : ThreadPool queue) (q : queue.Heap) (task : Task T) (priority : ℕ)
      → pop (frontable_pq queue) p.thread_queue ≡ some ((task, priority), q)
      → count_if is_suicide (queue.elements p.thread_queue)
        ≡ (if is_suicide (task, priority) then 1 else 0) + count_if is_suicide (queue.elements q)
  unfolding count_if
  taken-suicides p q task priority taken =
      let counts : count_if is_suicide (queue.elements p.thread_queue)
          ≡ count_if is_suicide ((task, priority) ∷ queue.elements q) =
        pop-some (frontable_pq queue) (frontable_pq_laws queue) p.thread_queue taken is_suicide in
      ground (arith, counts)

  taken-leaving :
      (p : ThreadPool queue) (q : queue.Heap) (id : ℕ) (task : Task T) (priority : ℕ)
      → pop (frontable_pq queue) p.thread_queue ≡ some ((task, priority), q)
      → count_if is_suicide (queue.elements q) + length (leaves task id p.zombie_queue) ≡ leaving p
  unfolding is_suicide
  taken-leaving p q id (user t) priority taken =
      omega (arith, taken-suicides p q (user t) priority taken)
  taken-leaving p q id pause_task1 priority taken =
      omega (arith, taken-suicides p q pause_task1 priority taken)
  taken-leaving p q id pause_task2 priority taken =
      omega (arith, taken-suicides p q pause_task2 priority taken)
  taken-leaving p q id suicide_task priority taken = omega (
    arith,
    taken-suicides p q suicide_task priority taken,
    length-append p.zombie_queue (id ∷ []),
  )

  Step-leaving :
      {p p' : ThreadPool queue} {e : Event queue} → Step queue p e p' → leaving p' ≡ leaving p
  unfolding count_if is_suicide add_task
  Step-leaving (takes p xs ys id task priority q at taken) =
      taken-leaving p q id task priority taken
  Step-leaving (finishes p xs ys id t at) = refl
  Step-leaving (throws p xs ys id t at) = refl
  Step-leaving (resumes1 p xs ys id at on) = refl
  Step-leaving (resumes2 p xs ys id at on) = refl
  Step-leaving (adds p t priority low) =
      omega (arith, queue.push_adds (user t, priority) p.thread_queue is_suicide)

  Steps-leaving :
      {p p' : ThreadPool queue} {es : List (Event queue)}
      → Steps queue p es p'
      → leaving p' ≡ leaving p
  Steps-leaving (done p) = refl
  Steps-leaving (step p s rest) = Steps-leaving rest ∙ Step-leaving s

  set_num_of_threads-leaving :
      (num : ℕ) (p : ThreadPool queue)
      → num ≤ p.num_of_threads
      → leaving (set_num_of_threads queue num p) ≡ p.num_of_threads - num + leaving p
  unfolding set_num_of_threads decrease_num_of_threads is_suicide
  set_num_of_threads-leaving num p le =
      let lower : ltb p.num_of_threads num ≡ false = ground arith in
      let kill = p.num_of_threads - num in
      let q = push_times queue kill (suicide_task, super_duper_high) p.thread_queue in
      let killed =
        count_if-push_times queue is_suicide kill (suicide_task, super_duper_high) p.thread_queue in
      let pauses1 = count_if-push_times queue is_suicide (num - kill) (pause_task1, super_high) q in
      let pauses2 = count_if-push_times queue is_suicide (num - kill) (pause_task2, super_high) q in
      elim (Bool-cases p.is_running1) [
        | inr off ↦ rw (lower, off) (omega (arith, killed, pauses2))
        | inl on ↦ elim (Bool-cases p.is_running2) [
          | inr off ↦ rw (lower, on, off) (omega (arith, killed, pauses1))
          | inl also ↦ rw (lower, on, also) (omega (arith, killed))
        ]
      ]

  -- Let the number of threads be lowered while there is neither a suicide task in the queue nor an id in
  -- the queue of those that ended. Whatever the threads do then, before an id is taken for a join, the
  -- suicide tasks in the queue and the ids together are as many as there were threads too many; so there
  -- are never more ids than that.
  pub shrinking_joins :
      (num : ℕ) (p : ThreadPool queue) {es : List (Event queue)} {p' : ThreadPool queue}
      → num ≤ p.num_of_threads
      → leaving p ≡ 0
      → Steps queue (set_num_of_threads queue num p) es p'
      → (leaving p' ≡ p.num_of_threads - num) × (length p'.zombie_queue ≤ p.num_of_threads - num)
  shrinking_joins num p le settled steps =
      let kept = Steps-leaving steps in
      let start = set_num_of_threads-leaving num p le in
      (omega (arith, kept, start, settled), omega (arith, kept, start, settled))
