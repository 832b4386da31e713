-- ===== src/Examples/Pools.antt =====
-- A pool of two threads.
use privately_distributed_cl.Common.{
  ℕ, ◌+◌, ◌-◌, ◌≤◌, ◌⊎◌, true, ◌≡◌, refl, [], ◌∷◌, ◌++◌, All, arith, length,
}
use privately_distributed_cl.WaitableQueue.{count_if, pop}
use privately_distributed_cl.WaitableQueue.FrontablePq.{PriorityQueue}
use privately_distributed_cl.WaitableQueue.Keyed.{keyed_pq, best}
use privately_distributed_cl.WaitableQueue.Keyed
use privately_distributed_cl.ThreadPool.{
  user, pause_task1, check_priority, idle, paused1, highest, ThreadPool, thread_pool,
  create_threads, create_some, pause, push_times, add_task, set_num_of_threads, Event, quiet, takes,
  resumes1, adds, Steps, done, step,
}
use privately_distributed_cl.ThreadPool.Tokens.{is_live, is_overranked}
use privately_distributed_cl.ThreadPool.Calls.{thread_pool_waits, pause_waits}
use privately_distributed_cl.ThreadPool.Progress.{
  Works, works, rests, left_to_do, IsAtRest, CanWork, Works-end,
}
use privately_distributed_cl.ThreadPool.Shrinking.{shrinking_joins, leaving, is_suicide}

abbrev queue : PriorityQueue (check_priority ℕ)
queue = keyed_pq λ e. e.1

abbrev new_pool : ThreadPool queue
new_pool = thread_pool queue [] 2

abbrev with_task : ThreadPool queue
with_task = add_task queue 7 highest new_pool

-- The first thread takes a token, though a task of the user is there.
abbrev one_paused : ThreadPool queue
one_paused = record with_task {
  thread_queue = (user 7, 4) ∷ (pause_task1, 5) ∷ [];
  threads = [] ++ ((1, paused1) ∷ (0, idle) ∷ []);
}

first-Steps : Steps queue new_pool (quiet ∷ quiet ∷ []) one_paused
unfolding pop Keyed.nil Keyed.top Keyed.pop best thread_pool create_threads create_some pause
    push_times add_task
first-Steps = step new_pool (adds new_pool 7 highest (omega arith)) (
    step with_task
      (takes with_task [] ((0, idle) ∷ []) 1 pause_task1 5 ((user 7, 4) ∷ (pause_task1, 5) ∷ [])
        refl refl)
      (done one_paused))

thread_pool_waits_example : All (λ (e : Event queue). e ≡ quiet) (quiet ∷ quiet ∷ [])
thread_pool_waits_example = thread_pool_waits queue [] 2 refl first-Steps

-- Set running, a thread takes the token of the pause, and goes on at once.
abbrev started : ThreadPool queue
started = record with_task { is_running1 = true; is_running2 = true }

abbrev stopped : ThreadPool queue
stopped = record started {
  thread_queue = (user 7, 4) ∷ (pause_task1, 5) ∷ [];
  threads = [] ++ ((1, paused1) ∷ (0, idle) ∷ []);
}

abbrev resumed : ThreadPool queue
resumed = record stopped { threads = [] ++ ((1, idle) ∷ (0, idle) ∷ []) }

pause_waits_example : All (λ (e : Event queue). e ≡ quiet) (quiet ∷ [])
unfolding thread_pool create_threads create_some push_times count_if is_live is_overranked add_task
    pause
pause_waits_example =
    pause_waits queue started refl (omega arith) refl
      (step (pause queue started) (adds (pause queue started) 8 highest (omega arith)) (done _))

started-Works : Works queue 2 started resumed
unfolding pop Keyed.nil Keyed.top Keyed.pop best thread_pool create_threads create_some pause
    push_times add_task
started-Works =
    works started
      (takes started [] ((0, idle) ∷ []) 1 pause_task1 5 ((user 7, 4) ∷ (pause_task1, 5) ∷ []) refl
        refl)
      tt (works stopped (resumes1 stopped [] ((0, idle) ∷ []) 1 refl refl) tt (rests resumed))

Works-end_example :
    2 + left_to_do queue resumed ≤ left_to_do queue started
    × (IsAtRest queue resumed ⊎ CanWork queue resumed)
Works-end_example = Works-end queue started-Works refl refl

shrinking_joins_example :
    (leaving queue (set_num_of_threads queue 1 new_pool) ≡ 2 - 1)
    × (length (set_num_of_threads queue 1 new_pool).zombie_queue ≤ 2 - 1)
unfolding thread_pool create_threads create_some pause push_times count_if is_suicide
shrinking_joins_example = shrinking_joins queue 1 new_pool (omega arith) refl (done _)
