-- ===== src/ThreadPool.antt =====
-- framework/thread_pool/thread_pool.hpp and .cpp: `ThreadPool`. The calls of its owner are functions on
-- the pool; what the threads do is the relation `Step`. Each call takes the locks that it needs, so
-- it is one step, but for the joins at the end of `DecreaseNumOfTheads`, which wait for the threads.
pub mod Progress
pub mod Paused
pub mod Tokens
pub mod Calls
pub mod Shrinking
use privately_distributed_cl.Common.{
  ℕ, zero, suc, ◌+◌, ◌-◌, ◌<◌, ◌≡◌, Bool, true, false, not, Option, none, some, List, [], ◌∷◌, ◌++◌,
  ltb, if◌then◌else◌,
}
use privately_distributed_cl.Common.Dict.{Dict, nat_key, erase}
use privately_distributed_cl.WaitableQueue.{pop}
use privately_distributed_cl.WaitableQueue.FrontablePq.{PriorityQueue, frontable_pq}

-- `Priority` and `InternalPriority` are one range of numbers.
abbrev pub highest : ℕ
highest = 4

abbrev pub super_high : ℕ
super_high = 5

abbrev pub super_duper_high : ℕ
super_duper_high = 6

module _ (T : Type 0) where
  -- A task of the pool's user, or one of the three that the pool makes.
  pub data Task : Type 0 where
    user : T → Task
    pause_task1 pause_task2 suicide_task : Task

  -- `value_type`.
  abbrev pub Entry : Type 0
  Entry = Task × ℕ

  abbrev pub check_priority : Entry → Entry → Bool
  check_priority lhs rhs = ltb lhs.1 rhs.1

  -- What a thread is at: its next `Pop`, a task, a wait in one of the pause tasks; or it has ended.
  pub data Status : Type 0 where
    idle : Status
    running : T → Status
    paused1 paused2 exited : Status

-- A thread that takes a task gets to this.
abbrev pub begin : {T : Type 0} → Task T → Status T
begin (user t) = running t
begin pause_task1 = paused1
begin pause_task2 = paused2
begin suicide_task = exited

-- `SuicideTask` leaves the thread's id.
abbrev pub leaves : {T : Type 0} → Task T → ℕ → List ℕ → List ℕ
leaves (user t) id zombies = zombies
leaves pause_task1 id zombies = zombies
leaves pause_task2 id zombies = zombies
leaves suicide_task id zombies = zombies ++ (id ∷ [])

module _ {T : Type 0} (queue : PriorityQueue (check_priority T)) where
  -- The threads are those of `m_thread_map`, each with what it is at; the next one gets `next_id`.
  pub record ThreadPool : Type 0 where
    pub num_of_threads : ℕ
    pub target_num_of_threads : ℕ
    pub is_running1 : Bool
    pub is_running2 : Bool
    pub thread_queue : queue.Heap
    pub zombie_queue : List ℕ
    pub threads : Dict ℕ (Status T)
    pub next_id : ℕ

  -- The loops that push a task some times.
  unfoldable pub push_times : ℕ → Entry T → queue.Heap → queue.Heap
  push_times zero e q = q
  push_times (suc n) e q = push_times n e (queue.push e q)

  unfoldable pub run : ThreadPool → ThreadPool
  run p = record p { is_running1 = true; is_running2 = true }

  unfoldable pub pause : ThreadPool → ThreadPool
  pause p =
      let i = if ltb p.num_of_threads p.target_num_of_threads then p.num_of_threads else 0 in
      record p {
        is_running1 = false;
        thread_queue =
            push_times (p.target_num_of_threads - i) (pause_task1, super_high) p.thread_queue;
      }

  unfoldable pub add_task : T → ℕ → ThreadPool → ThreadPool
  add_task t priority p = record p { thread_queue = queue.push (user t, priority) p.thread_queue }

  -- The loop of `CreateThreads`, with the threads that are left to make.
  unfoldable pub create_some : ℕ → ThreadPool → ThreadPool
  create_some zero p = p
  create_some (suc n) p =
      create_some n (record p { threads = (p.next_id, idle) ∷ p.threads; next_id = suc p.next_id })

  unfoldable pub create_threads : ℕ → ℕ → ThreadPool → ThreadPool
  create_threads curr target p = create_some (target - curr) p

  -- The constructor, with the empty queue.
  unfoldable pub thread_pool : queue.Heap → ℕ → ThreadPool
  thread_pool empty num =
      let p : ThreadPool = record {
        num_of_threads = num;
        target_num_of_threads = num;
        is_running1 = false;
        is_running2 = false;
        thread_queue = empty;
        zombie_queue = [];
        threads = [];
        next_id = 0;
      } in
      create_threads 0 num (pause p)

  -- `IncreaseNumOfTheads`.
  pub increase_num_of_threads : ThreadPool → ThreadPool
  increase_num_of_threads p =
      let p' = if p.is_running1 then p else pause p in
      create_threads p'.num_of_threads p'.target_num_of_threads p'

  -- `DecreaseNumOfTheads` up to the joins.
  pub decrease_num_of_threads : ThreadPool → ThreadPool
  decrease_num_of_threads p =
      let thread_to_kill = p.num_of_threads - p.target_num_of_threads in
      let q = push_times thread_to_kill (suicide_task, super_duper_high) p.thread_queue in
      let pauses = p.target_num_of_threads - thread_to_kill in
      if not p.is_running1
      then record p {
        is_running1 = true;
        is_running2 = false;
        thread_queue = push_times pauses (pause_task2, super_high) q;
      }
      else if not p.is_running2
      then record p {
        is_running1 = false;
        is_running2 = true;
        thread_queue = push_times pauses (pause_task1, super_high) q;
      }
      else record p { thread_queue = q }

  -- One round of the joins: `none` while there is no zombie.
  unfoldable pub join_one : ThreadPool → Option ThreadPool
  join_one p = elim p.zombie_queue [
    | [] ↦ none
    | id ∷ rest ↦ some (record p { zombie_queue = rest; threads = erase id p.threads })
  ]

  -- `SetNumOfThreads` up to the joins, if there are any, and its last line.
  pub set_num_of_threads : ℕ → ThreadPool → ThreadPool
  set_num_of_threads num p0 =
      let p = record p0 { target_num_of_threads = num } in
      if ltb p.num_of_threads p.target_num_of_threads
      then increase_num_of_threads p
      else decrease_num_of_threads p

  unfoldable pub num_of_threads_set : ThreadPool → ThreadPool
  num_of_threads_set p = record p { num_of_threads = p.target_num_of_threads }

  -- What a step shows: the start of a task of the user, or nothing.
  pub data Event : Type 0 where
    starts : T → Event
    quiet : Event

  abbrev pub shown : Task T → Event
  shown (user t) = starts t
  shown pause_task1 = quiet
  shown pause_task2 = quiet
  shown suicide_task = quiet

  -- What the threads do, between which the user may add tasks.
  pub data Step : ThreadPool → Event → ThreadPool → Type 0 where
    takes :
        (p : ThreadPool) (xs ys : Dict ℕ (Status T)) (id : ℕ) (task : Task T) (priority : ℕ)
        (q : queue.Heap)
        → p.threads ≡ xs ++ ((id, idle) ∷ ys)
        → pop (frontable_pq queue) p.thread_queue ≡ some ((task, priority), q)
        → Step p (shown task) (record p {
          thread_queue = q;
          zombie_queue = leaves task id p.zombie_queue;
          threads = xs ++ ((id, begin task) ∷ ys);
        })
    finishes :
        (p : ThreadPool) (xs ys : Dict ℕ (Status T)) (id : ℕ) (t : T)
        → p.threads ≡ xs ++ ((id, running t) ∷ ys)
        → Step p quiet (record p { threads = xs ++ ((id, idle) ∷ ys) })
    -- A task that throws ends its thread, which leaves no id.
    throws :
        (p : ThreadPool) (xs ys : Dict ℕ (Status T)) (id : ℕ) (t : T)
        → p.threads ≡ xs ++ ((id, running t) ∷ ys)
        → Step p quiet (record p { threads = xs ++ ((id, exited) ∷ ys) })
    resumes1 :
        (p : ThreadPool) (xs ys : Dict ℕ (Status T)) (id : ℕ)
        → p.threads ≡ xs ++ ((id, paused1) ∷ ys)
        → p.is_running1 ≡ true
        → Step p quiet (record p { threads = xs ++ ((id, idle) ∷ ys) })
    resumes2 :
        (p : ThreadPool) (xs ys : Dict ℕ (Status T)) (id : ℕ)
        → p.threads ≡ xs ++ ((id, paused2) ∷ ys)
        → p.is_running2 ≡ true
        → Step p quiet (record p { threads = xs ++ ((id, idle) ∷ ys) })
    adds :
        (p : ThreadPool) (t : T) (priority : ℕ)
        → priority < super_high
        → Step p quiet (add_task t priority p)

  pub data Steps : ThreadPool → List Event → ThreadPool → Type 0 where
    done : (p : ThreadPool) → Steps p [] p
    step :
        (p : ThreadPool) {e : Event} {p1 : ThreadPool} {es : List Event} {p2 : ThreadPool}
        → Step p e p1
        → Steps p1 es p2
        → Steps p (e ∷ es) p2
