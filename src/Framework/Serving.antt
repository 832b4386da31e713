-- ===== src/Framework/Serving.antt =====
-- What a framework does with the descriptors that it was made with.
use privately_distributed_cl.Common.{ℕ, ◌<◌, ◌≡◌, List, [], ◌∷◌, All, ok}
use privately_distributed_cl.WaitableQueue.FrontablePq.{PriorityQueue}
use privately_distributed_cl.ThreadPool.{check_priority, ThreadPool}
use privately_distributed_cl.ThreadPool as Pool
use privately_distributed_cl.Reactor.{IMonitor, MonitorLaws, Reactor}
use privately_distributed_cl.Reactor.Dispatch.{IsRegistered, run_lem, ready_rounds}
use privately_distributed_cl.Reactor.Registered.{register, changes, change, changes-IsRegistered}
use privately_distributed_cl.Framework.{World, add_task, framework, run}

module _ {Sys T H : Type 0} (queue : PriorityQueue (check_priority T)) (invoke : H → Sys → T × Sys)
    (imonitor : IMonitor (World queue invoke)) (laws : MonitorLaws imonitor) where
  pub framework-IsRegistered :
      (causes : List (ℕ × H)) (r : Reactor imonitor (add_task queue invoke))
      → All (λ c. c.0 < laws.limit) causes
      → IsRegistered imonitor laws (add_task queue invoke) r
      → IsRegistered imonitor laws
          (add_task queue invoke)
          (framework queue invoke imonitor causes r)
  unfolding framework
  framework-IsRegistered [] r small v = v
  framework-IsRegistered ((fd, handler) ∷ rest) r small v = framework-IsRegistered rest _ small.1 (
      unfold changes change in
      changes-IsRegistered imonitor laws (add_task queue invoke) (register fd handler ∷ []) r
        (small.0, tt) v)

  -- A framework that is made with some descriptors below the limit of the monitor, on a reactor that has
  -- a handler for what it watches, and whose commands are loaded without an exception, sets the pool running and then, round by round, puts the task of
  -- each descriptor that is watched and readable into the pool, in ascending order, and always finds
  -- its handler.
  pub framework_serves :
      {L : Type 0} (l : L) (causes : List (ℕ × H)) (r : Reactor imonitor (add_task queue invoke))
      (rounds : ℕ) (sys : Sys) (pool : ThreadPool queue)
      → All (λ c. c.0 < laws.limit) causes
      → IsRegistered imonitor laws (add_task queue invoke) r
      → run queue invoke imonitor
          (ok l)
          rounds
          (framework queue invoke imonitor causes r)
          (sys, pool)
        ≡ ready_rounds imonitor laws
            (add_task queue invoke)
            rounds
            (framework queue invoke imonitor causes r)
            (sys, Pool.run queue pool)
  unfolding run
  framework_serves l causes r rounds sys pool small v =
      run_lem imonitor laws (add_task queue invoke) rounds
        (framework queue invoke imonitor causes r) (sys, Pool.run queue pool)
        (framework-IsRegistered causes r small v)
