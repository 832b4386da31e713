-- ===== src/System/Safety.antt =====
-- Faults of the daemon and of the servers in the states of a system.
use privately_distributed_cl.Common.{ℕ, ◌≡◌, List, Option, ok}
use privately_distributed_cl.Common.Memory.{Memory}
use privately_distributed_cl.Atlas.{HeaderLayout}
use privately_distributed_cl.Nbd.{Request}
use privately_distributed_cl.Sender.{Send}
use privately_distributed_cl.CommunicationManager.{splicer_raid, request_sender}
use privately_distributed_cl.Daemon.{Task, run_task}
use privately_distributed_cl.Daemon.Device.{DaemonState}
use privately_distributed_cl.System.{Network, State}

module _ (net : Network) (layout : HeaderLayout) where
  -- A task that a thread can run to its end.
  abbrev pub Succeeds : State net layout → Task → Type 0
  Succeeds s task =
      (out : DaemonState × List Send × Option (ℕ × Request) × Memory) × (run_task splicer_raid
          (request_sender layout) task s.manager s.mem
        ≡ ok out)
