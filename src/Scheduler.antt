-- ===== src/Scheduler.antt =====
-- framework/scheduler/scheduler.cpp: `Scheduler`, which runs a task once after a time, on a timer of the
-- system. The results of `timer_create` and `timer_settime` are parameters. Times are not negative.
pub mod Times
use privately_distributed_cl.Common.{
  ℕ, ◌-◌, ◌*◌, ◌/◌, zero, suc, ◌==◌, ◌&&◌, Bool, Option, none, some, List, [], ◌∷◌, ◌++◌,
  if◌then◌else◌, Outcome, ok, fault, runtime_error,
}

-- `its.it_value`.
pub record Timespec : Type 0 where
  pub tv_sec : ℕ
  pub tv_nsec : ℕ

abbrev pub nano : ℕ
nano = 1000000000

-- The time in whole seconds, and what is left of it.
pub it_value : ℕ → Timespec
it_value time_nano =
    let tv_sec = time_nano / nano in record { tv_sec = tv_sec; tv_nsec = time_nano - tv_sec * nano }

-- A timer that is set, with the task that `sival_ptr` points to.
pub record Timer (Task : Type 0) : Type 0 where
  pub id : ℕ
  pub value : Timespec
  pub task : Task

-- `m_timer_ids`, and the timers of the system that are set.
pub record Scheduler (Task : Type 0) : Type 0 where
  pub timer_ids : List ℕ
  pub armed : List (Timer Task)

-- `timer_settime`, which sets a timer unless the value is zero.
pub arm : {Task : Type 0} → Timer Task → List (Timer Task) → List (Timer Task)
arm timer armed =
    if timer.value.tv_sec == 0 && timer.value.tv_nsec == 0 then armed else armed ++ (timer ∷ [])

-- What the system gives: the id of a new timer, by those that there are, and whether it can be set.
pub record Timers : Type 0 where
  pub timer_create : List ℕ → Option ℕ
  pub timer_settime : ℕ → Timespec → Bool

unfoldable pub schedule :
    {Task : Type 0} → Timers → Task → ℕ → Scheduler Task → Outcome (Scheduler Task)
schedule timers task time_nano s = elim (timers.timer_create s.timer_ids) [
  | none ↦ fault runtime_error
  | some timerid ↦
      let value = it_value time_nano in
      if timers.timer_settime timerid value
      then ok (record {
        timer_ids = s.timer_ids ++ (timerid ∷ []);
        armed = arm (record { id = timerid; value = value; task = task }) s.armed;
      })
      else fault runtime_error
]

-- The timer at a place runs out: its task, which `TimerCallback` calls, and the scheduler without it.
pub runs_out : {A : Type 0} → ℕ → List A → Option (A × List A)
runs_out n [] = none
runs_out zero (x ∷ xs) = some (x, xs)
runs_out (suc n) (x ∷ xs) = elim (runs_out n xs) [ none ↦ none | some (y, ys) ↦ some (y, x ∷ ys) ]

-- `timer_delete` of each timer of the destructor.
unfoldable pub delete_timer : {Task : Type 0} → ℕ → List (Timer Task) → List (Timer Task)
delete_timer id [] = []
delete_timer id (t ∷ ts) = let rest = delete_timer id ts in if t.id == id then rest else t ∷ rest

unfoldable pub destroy : {Task : Type 0} → List ℕ → List (Timer Task) → List (Timer Task)
destroy [] armed = armed
destroy (id ∷ ids) armed = destroy ids (delete_timer id armed)
