-- ===== src/Framework.antt =====
-- framework/framework/framework.hpp and .cpp: `Framework`, a reactor whose handlers put tasks into a thread
-- pool, and the load of the commands before it runs.
pub mod Serving
pub mod Commands
use privately_distributed_cl.Common.{ℕ, List, [], ◌∷◌, Outcome, ok, ◌>>=◌}
use privately_distributed_cl.WaitableQueue.FrontablePq.{PriorityQueue}
use privately_distributed_cl.ThreadPool.{check_priority, highest, ThreadPool}
use privately_distributed_cl.ThreadPool as Pool
use privately_distributed_cl.Reactor.{
  IMonitor, Reactor, register_read_event_handler, deregister_event_handler,
}
use privately_distributed_cl.Reactor as Loop

-- `Sys` is the rest of the world, and `invoke` calls a function that makes a task.
module _ {Sys T H : Type 0} (queue : PriorityQueue (check_priority T))
    (invoke : H → Sys → T × Sys) where
  abbrev pub World : Type 0
  World = Sys × ThreadPool queue

  -- `AddTask`, the handler that the reactor calls.
  unfoldable pub add_task : H → World → Outcome World
  add_task handler w =
      let (task, sys) = invoke handler w.0 in ok (sys, Pool.add_task queue task highest w.1)

  module _ (imonitor : IMonitor World) where
    -- The loop of the constructor.
    pub framework : List (ℕ × H) → Reactor imonitor add_task → Reactor imonitor add_task
    framework [] r = r
    framework ((fd, handler) ∷ rest) r =
        framework rest (register_read_event_handler imonitor add_task fd handler r)

    unfoldable pub add : ℕ × H → Reactor imonitor add_task → Reactor imonitor add_task
    add to_monitor r = register_read_event_handler imonitor add_task to_monitor.0 to_monitor.1 r

    unfoldable pub remove : ℕ → Reactor imonitor add_task → Reactor imonitor add_task
    remove fd r = deregister_event_handler imonitor add_task fd r

    -- `Run`, with the result of `MonitorAndLoadCommandFactory` (Commands), whose commands nothing uses, for
    -- some rounds of the reactor.
    unfoldable pub run :
        {L : Type 0}
        → Outcome L
        → ℕ
        → Reactor imonitor add_task
        → World
        → Outcome (Reactor imonitor add_task × World)
    run loaded rounds r w =
        loaded >>= λ _. Loop.run imonitor add_task rounds r (w.0, Pool.run queue w.1)
