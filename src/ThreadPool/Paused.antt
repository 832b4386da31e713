-- ===== src/ThreadPool/Paused.antt =====
-- A pool in which every thread that has not ended waits, or has a pause task to take.
use privately_distributed_cl.Common.{
  ℕ, ◌+◌, ◌≤◌, ◌≡◌, refl, Bool, false, some, List, ◌∷◌, ◌++◌, if◌then◌else◌, arith, All,
}
use privately_distributed_cl.Common.Dict.{Dict}
use privately_distributed_cl.WaitableQueue.{count_if, pop}
use privately_distributed_cl.WaitableQueue.FrontablePq.{
  PriorityQueue, frontable_pq, frontable_pq_laws,
}
use privately_distributed_cl.WaitableQueue.Histories.{pop-some}
use privately_distributed_cl.ThreadPool.{
  Task, user, pause_task1, pause_task2, suicide_task, check_priority, Status, idle, running,
  paused1, paused2, exited, ThreadPool, add_task, Event, quiet, Step, takes, finishes, throws,
  resumes1, resumes2, adds, Steps, done, step,
}
use privately_distributed_cl.ThreadPool.Tokens.{
  is_token, is_overranked, is_live, is_paused, paused-is_live, count_if-middle, count_if_mono,
  user-waits,
}

module _ {T : Type 0} (queue : PriorityQueue (check_priority T)) where
  abbrev tokens : queue.Heap → ℕ
  tokens q = count_if is_token (queue.elements q)

  -- The threads that have not ended are in the first pause task, or there is a token for them; and no
  -- task of the user goes before a token.
  pub record IsPaused (p : ThreadPool queue) : Type 0 where
    pub off : p.is_running1 ≡ false
    pub enough :
        count_if is_live p.threads
        ≤ count_if is_token (queue.elements p.thread_queue) + count_if is_paused p.threads
    pub ranked : count_if is_overranked (queue.elements p.thread_queue) ≡ 0

  -- A thread that goes from one thing to another.
  moved :
      (p : ℕ × Status T → Bool) (xs ys : Dict ℕ (Status T)) (threads : Dict ℕ (Status T))
      (x : ℕ × Status T) (y : ℕ × Status T)
      → threads ≡ xs ++ (x ∷ ys)
      → (if p x then 1 else 0) + count_if p (xs ++ (y ∷ ys))
        ≡ (if p y then 1 else 0) + count_if p threads
  moved p xs ys threads x y e =
      rw (e, count_if-middle p xs ys x, count_if-middle p xs ys y) (omega arith)

  -- One thread goes from `x` to `y`, and the queue from one to another.
  thread_moves :
      (p : ThreadPool queue) (q : queue.Heap) (zombies : List ℕ) (xs ys : Dict ℕ (Status T))
      (x y : ℕ × Status T)
      → IsPaused p
      → p.threads ≡ xs ++ (x ∷ ys)
      → count_if is_overranked (queue.elements q) ≡ 0
      → (if is_live y then 1 else 0)
          + count_if is_token (queue.elements p.thread_queue)
          + (if is_paused x then 1 else 0)
        ≤ (if is_live x then 1 else 0)
          + count_if is_token (queue.elements q)
          + (if is_paused y then 1 else 0)
      → IsPaused (record p { thread_queue = q; zombie_queue = zombies; threads = xs ++ (y ∷ ys) })
  thread_moves p q zombies xs ys x y v at ranked le = record {
    off = v.off;
    enough = omega (
      arith,
      v.enough,
      le,
      moved is_live xs ys p.threads x y at,
      moved is_paused xs ys p.threads x y at,
    );
    ranked = ranked;
  }

  -- What a queue has before and after a thread takes from it.
  taken_counts :
      (p : ThreadPool queue) (q : queue.Heap) (task : Task T) (priority : ℕ)
      → IsPaused p
      → pop (frontable_pq queue) p.thread_queue ≡ some ((task, priority), q)
      → (count_if is_token (queue.elements p.thread_queue)
          ≡ (if is_token (task, priority) then 1 else 0) + count_if is_token (queue.elements q))
        × (count_if is_overranked (queue.elements q) ≡ 0)
  unfolding count_if
  taken_counts p q task priority v taken =
      let counts = pop-some (frontable_pq queue) (frontable_pq_laws queue) p.thread_queue taken in
      let mine : count_if is_token (queue.elements p.thread_queue)
          ≡ count_if is_token ((task, priority) ∷ queue.elements q) =
        counts is_token in
      let over : count_if is_overranked (queue.elements p.thread_queue)
          ≡ count_if is_overranked ((task, priority) ∷ queue.elements q) =
        counts is_overranked in
      (ground (arith, mine), ground (arith, over, v.ranked))

  -- A thread that is idle in a paused pool does not find a task of the user.
  idle-waits :
      (p : ThreadPool queue) (q : queue.Heap) (xs ys : Dict ℕ (Status T)) (id : ℕ) (t : T)
      (priority : ℕ)
      → IsPaused p
      → p.threads ≡ xs ++ ((id, idle) ∷ ys)
      → pop (frontable_pq queue) p.thread_queue ≡ some ((user t, priority), q)
      → ⊥
  unfolding is_live is_paused
  idle-waits p q xs ys id t priority v at taken =
      let none_there = user-waits queue p.thread_queue q t priority taken v.ranked in
      let live : count_if is_live p.threads ≡ 1 + (count_if is_live xs + count_if is_live ys) =
        rw at (count_if-middle is_live xs ys (id, idle)) in
      let paused : count_if is_paused p.threads
          ≡ 0 + (count_if is_paused xs + count_if is_paused ys) =
        rw at (count_if-middle is_paused xs ys (id, idle)) in
      omega (
        arith,
        v.enough,
        none_there,
        live,
        paused,
        count_if_mono is_paused is_live xs paused-is_live,
        count_if_mono is_paused is_live ys paused-is_live,
      )

  -- A step of a paused pool shows nothing, and leaves it paused.
  Step-IsPaused :
      {p p' : ThreadPool queue} {e : Event queue}
      → Step queue p e p'
      → IsPaused p
      → (e ≡ quiet) × IsPaused p'
  unfolding is_live is_paused is_token is_overranked count_if add_task
  Step-IsPaused (takes p xs ys id (user t) priority q at taken) v =
      absurd (idle-waits p q xs ys id t priority v at taken)
  Step-IsPaused (takes p xs ys id pause_task1 priority q at taken) v =
      let (tokens_are, ranked) = taken_counts p q pause_task1 priority v taken in
      (
        refl,
        thread_moves p q _ xs ys (id, idle) (id, paused1) v at ranked (ground (arith, tokens_are)),
      )
  Step-IsPaused (takes p xs ys id pause_task2 priority q at taken) v =
      let (tokens_are, ranked) = taken_counts p q pause_task2 priority v taken in
      (
        refl,
        thread_moves p q _ xs ys (id, idle) (id, paused2) v at ranked (ground (arith, tokens_are)),
      )
  Step-IsPaused (takes p xs ys id suicide_task priority q at taken) v =
      let (tokens_are, ranked) = taken_counts p q suicide_task priority v taken in
      (
        refl,
        thread_moves p q _ xs ys (id, idle) (id, exited) v at ranked (ground (arith, tokens_are)),
      )
  Step-IsPaused (finishes p xs ys id t at) v = (
    refl,
    thread_moves p p.thread_queue _ xs ys (id, running t) (id, idle) v at v.ranked (omega arith),
  )
  Step-IsPaused (throws p xs ys id t at) v = (
    refl,
    thread_moves p p.thread_queue _ xs ys (id, running t) (id, exited) v at v.ranked (omega arith),
  )
  Step-IsPaused (resumes1 p xs ys id at on) v = absurd (ground (arith, on, v.off))
  Step-IsPaused (resumes2 p xs ys id at on) v = (
    refl,
    thread_moves p p.thread_queue _ xs ys (id, paused2) (id, idle) v at v.ranked (omega arith),
  )
  Step-IsPaused (adds p t priority low) v =
      let more = queue.push_adds (user t, priority) p.thread_queue in
      let tokens_are : count_if is_token
            (queue.elements (queue.push (user t, priority) p.thread_queue))
          ≡ count_if is_token (queue.elements p.thread_queue) =
        more is_token in
      let over = more is_overranked in
      (
        refl,
        record {
          off = v.off;
          enough = rw tokens_are v.enough;
          ranked = ground (arith, over, v.ranked, low);
        },
      )

  -- No step from a pool with `IsPaused` starts a task of its user, and each leaves it so.
  pub Steps-IsPaused :
      {p p' : ThreadPool queue} {es : List (Event queue)}
      → Steps queue p es p'
      → IsPaused p
      → All (λ e. e ≡ quiet) es × IsPaused p'
  Steps-IsPaused (done p) v = (tt, v)
  Steps-IsPaused (step p s rest) v =
      let (still, v1) = Step-IsPaused s v in
      let (others, v2) = Steps-IsPaused rest v1 in ((still, others), v2)
