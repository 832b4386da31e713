-- ===== src/ThreadPool/Calls.antt =====
-- Which calls of the owner leave the pool paused.
use privately_distributed_cl.Common.{
  ℕ, zero, suc, ◌+◌, ◌-◌, ◌≤◌, ◌<◌, ◌≡◌, refl, ap, ◌∙◌, false, List, [], ◌∷◌, if◌then◌else◌, ltb,
  lt→ltb, arith, All,
}
use privately_distributed_cl.WaitableQueue.{count_if}
use privately_distributed_cl.WaitableQueue.FrontablePq.{PriorityQueue}
use privately_distributed_cl.ThreadPool.{
  pause_task1, check_priority, idle, super_high, push_times, ThreadPool, create_some,
  create_threads, thread_pool, pause, increase_num_of_threads, set_num_of_threads, Event, quiet,
  Steps,
}
use privately_distributed_cl.ThreadPool.Tokens.{
  is_token, is_overranked, is_live, is_paused, count_if-push_times,
}
use privately_distributed_cl.ThreadPool.Paused.{IsPaused, Steps-IsPaused}

module _ {T : Type 0} (queue : PriorityQueue (check_priority T)) where
  -- New threads are idle, and nothing else changes.
  create_some_lem :
      (n : ℕ) (p : ThreadPool queue)
      → (count_if is_live (create_some queue n p).threads ≡ n + count_if is_live p.threads)
        × (count_if is_paused (create_some queue n p).threads ≡ count_if is_paused p.threads)
        × ((create_some queue n p).thread_queue ≡ p.thread_queue)
        × ((create_some queue n p).is_running1 ≡ p.is_running1)
  unfolding create_some count_if is_live is_paused
  create_some_lem zero p = (omega arith, refl, refl, refl)
  create_some_lem (suc n) p =
      let (live, paused, same, off) =
        create_some_lem n
          (record p { threads = (p.next_id, idle) ∷ p.threads; next_id = suc p.next_id }) in
      (omega (arith, live), paused, same, off)

  -- `n` tokens and `n` new threads.
  more_threads :
      (n : ℕ) (p : ThreadPool queue)
      → p.is_running1 ≡ false
      → count_if is_live p.threads + n
        ≤ count_if is_token (queue.elements p.thread_queue) + count_if is_paused p.threads
      → count_if is_overranked (queue.elements p.thread_queue) ≡ 0
      → IsPaused queue (create_some queue n p)
  more_threads n p off enough ranked =
      let (live, paused, same, still) = create_some_lem n p in
      let tokens_are = ap (λ q. count_if is_token (queue.elements q)) same in
      record {
        off = still ∙ off;
        enough = omega (arith, live, paused, tokens_are, enough);
        ranked = ap (λ q. count_if is_overranked (queue.elements q)) same ∙ ranked;
      }

  pause_queue :
      (p : ThreadPool queue) (n : ℕ)
      → (count_if is_token
            (queue.elements (push_times queue n (pause_task1, super_high) p.thread_queue))
          ≡ n + count_if is_token (queue.elements p.thread_queue))
        × (count_if is_overranked
              (queue.elements (push_times queue n (pause_task1, super_high) p.thread_queue))
            ≡ count_if is_overranked (queue.elements p.thread_queue))
  unfolding is_token is_overranked
  pause_queue p n = (
    count_if-push_times queue is_token n (pause_task1, super_high) p.thread_queue,
    count_if-push_times queue is_overranked n (pause_task1, super_high) p.thread_queue
        ∙ omega arith,
  )

  -- `Pause`, on a pool that is not being resized and that has no more threads than it counts.
  pub pause-IsPaused :
      (p : ThreadPool queue)
      → p.num_of_threads ≡ p.target_num_of_threads
      → count_if is_live p.threads ≤ p.num_of_threads
      → count_if is_overranked (queue.elements p.thread_queue) ≡ 0
      → IsPaused queue (pause queue p)
  unfolding pause
  pause-IsPaused p settled few ranked =
      let all : (if ltb p.num_of_threads p.target_num_of_threads then p.num_of_threads else 0) ≡ 0 =
        ground (arith, settled) in
      let (tokens_are, over) = pause_queue p (
        p.target_num_of_threads
        - (if ltb p.num_of_threads p.target_num_of_threads then p.num_of_threads else 0)) in
      record {
        off = refl;
        enough = omega (arith, tokens_are, few, settled, all);
        ranked = over ∙ ranked;
      }

  -- The constructor makes a paused pool.
  pub thread_pool-IsPaused :
      (empty : queue.Heap) (num : ℕ)
      → queue.elements empty ≡ []
      → IsPaused queue (thread_pool queue empty num)
  unfolding thread_pool create_threads pause count_if
  thread_pool-IsPaused empty num nothing =
      let p : ThreadPool queue = record {
        num_of_threads = num;
        target_num_of_threads = num;
        is_running1 = false;
        is_running2 = false;
        thread_queue = empty;
        zombie_queue = [];
        threads = [];
        next_id = 0;
      } in
      let all : (if ltb num num then num else 0) ≡ 0 = ground arith in
      let (tokens_are, over) = pause_queue p (num - (if ltb num num then num else 0)) in
      let no_token : count_if is_token (queue.elements empty) ≡ 0 =
        ap (count_if is_token) nothing in
      let no_user : count_if is_overranked (queue.elements empty) ≡ 0 =
        ap (count_if is_overranked) nothing in
      more_threads (num - 0) (pause queue p) refl (omega (arith, tokens_are, no_token, all))
        (over ∙ no_user)

  -- Raising the number of threads of a paused pool leaves it paused.
  pub set_num_of_threads-IsPaused :
      (num : ℕ) (p : ThreadPool queue)
      → p.num_of_threads < num
      → IsPaused queue p
      → IsPaused queue (set_num_of_threads queue num p)
  unfolding set_num_of_threads increase_num_of_threads create_threads pause
  set_num_of_threads-IsPaused num p lt v =
      rw (lt→ltb p.num_of_threads num lt, v.off, set_num_of_threads)
        (let (tokens_are, over) = pause_queue p (num - p.num_of_threads) in
          more_threads (num - p.num_of_threads) _ refl (omega (arith, v.enough, tokens_are))
            (over ∙ v.ranked))

  -- A new pool starts no task of its user before it is set running.
  pub thread_pool_waits :
      (empty : queue.Heap) (num : ℕ) {es : List (Event queue)} {p : ThreadPool queue}
      → queue.elements empty ≡ []
      → Steps queue (thread_pool queue empty num) es p
      → All (λ e. e ≡ quiet) es
  thread_pool_waits empty num nothing steps =
      (Steps-IsPaused queue steps (thread_pool-IsPaused empty num nothing)).0

  -- Let Pause be called on a pool that is not being resized, so that its two numbers of threads are
  -- equal, that has at most that many threads which have not ended, and in whose queue no task of the
  -- user has a priority above those of the user. As long as the owner calls nothing but AddTask, with a
  -- priority of the user, no task of the user is started, whatever the threads do.
  pub pause_waits :
      (p : ThreadPool queue) {es : List (Event queue)} {p' : ThreadPool queue}
      → p.num_of_threads ≡ p.target_num_of_threads
      → count_if is_live p.threads ≤ p.num_of_threads
      → count_if is_overranked (queue.elements p.thread_queue) ≡ 0
      → Steps queue (pause queue p) es p'
      → All (λ e. e ≡ quiet) es
  pause_waits p settled few ranked steps =
      (Steps-IsPaused queue steps (pause-IsPaused p settled few ranked)).0
