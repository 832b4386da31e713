-- ===== src/Asyncinjection.antt =====
-- framework/async_injection/async_injection.cpp: `Asyncinjection`, an object that calls a function again and
-- again, at an interval, until it says true, and deletes itself then. The objects are in one store by
-- their addresses; a timer of the scheduler holds the address of the object whose task it runs.
pub mod Progress
use privately_distributed_cl.Common.{
  ℕ, suc, Bool, true, false, Option, none, some, ◌==◌, if◌then◌else◌, Outcome, ok, fault, ◌>>=◌,
  null_dereference,
}
use privately_distributed_cl.Callable.{CallableFunction, callable_function, call}
use privately_distributed_cl.Scheduler.{Timers, Scheduler, schedule, runs_out}

module _ (Sys : Type 0) where
  -- `m_toExecute` and `m_interval`. `m_task` is made of the object's address (`task` below).
  pub record Asyncinjection : Type 0 where
    pub to_execute : Sys → Bool × Sys
    pub interval : ℕ

  pub record World : Type 0 where
    pub sys : Sys
    pub scheduler : Scheduler ℕ
    pub objects : ℕ → Option Asyncinjection
    pub next : ℕ

pub put : {Sys : Type 0} → ℕ → Option (Asyncinjection Sys) → World Sys → World Sys
put obj value w = record w { objects = λ x. if obj == x then value else w.objects x }

module _ {Sys : Type 0} (timers : Timers) where
  -- `Execute` once the function has been called: the object is deleted, or its task scheduled.
  pub go_on : ℕ → ℕ → Bool → World Sys → Outcome (World Sys)
  go_on obj interval true w = ok (put obj none w)
  go_on obj interval false w =
      schedule timers obj interval w.scheduler >>= λ s. ok (record w { scheduler = s })

  -- `Execute`. An object that is gone is a fault.
  pub execute : ℕ → World Sys → Outcome (World Sys)
  execute obj w = elim (w.objects obj) [
    | none ↦ fault null_dereference
    | some o ↦
        let (done, sys) = o.to_execute w.sys in go_on obj o.interval done (record w { sys = sys })
  ]

  -- `m_task`.
  pub task : ℕ → CallableFunction (World Sys)
  task obj = callable_function execute obj

  -- `CreateInstance`, with the constructor.
  pub create_instance : (Sys → Bool × Sys) → ℕ → World Sys → Outcome (World Sys)
  create_instance functor interval w =
      let o : Asyncinjection Sys = record { to_execute = functor; interval = interval } in
      execute w.next (put w.next (some o) (record w { next = suc w.next }))

  -- The timer at a place runs out, and `TimerCallback` calls its task.
  pub timer_callback : ℕ → World Sys → Outcome (World Sys)
  timer_callback n w = elim (runs_out n w.scheduler.armed) [
    | none ↦ ok w
    | some (timer, rest) ↦
        call (task timer.task) (record w { scheduler = record w.scheduler { armed = rest } })
  ]
