-- ===== src/Daemon/Callbacks.antt =====
-- The callbacks of the reactor for the sockets of the IoTs, and the tasks that they make, run by the pool.
use privately_distributed_cl.Common.{
  ℕ, ◌≡◌, ◌≢◌, List, [], ◌∷◌, ◌++◌, Outcome, ok, ◌>>=◌, ◌==◌, if◌then◌else◌, All,
}
use privately_distributed_cl.Common.Memory.{Memory, read_bytes}
use privately_distributed_cl.Common.Reorder.{Reorder, none_left, taken_next}
use privately_distributed_cl.Atlas.{HeaderLayout}
use privately_distributed_cl.Nbd.{Request}
use privately_distributed_cl.Slicer.{DeviceRequest}
use privately_distributed_cl.Socket.{Stream}
use privately_distributed_cl.Splicer.{Reply, gone_with}
use privately_distributed_cl.CommunicationManager.{Manager, Raid, Communication}
use privately_distributed_cl.Daemon.{Task, reply_wrapper, manage_replies, run_task}

unfoldable pub set_conn : {A : Type 0} → ℕ → A → (ℕ → A) → ℕ → A
set_conn fd c conns x = if fd == x then c else conns x

module _ (stream : Stream) (layout : HeaderLayout) (header : List ℕ) (fresh : ℕ → List ℕ) where
  -- The callbacks for some sockets, one after the other: the tasks, and the sockets then.
  unfoldable pub callbacks : List ℕ → (ℕ → stream.Conn) → List Task × (ℕ → stream.Conn)
  callbacks [] conns = ([], conns)
  callbacks (fd ∷ fds) conns =
      let (task, c) = manage_replies stream layout header fresh (conns fd) in
      let (tasks, conns') = callbacks fds (set_conn fd c conns) in (task ∷ tasks, conns')

module _ {R C Message : Type 0} (raid : Raid R Message)
    (communication : Communication C Message) where
  -- Tasks one after the other, with the requests that they complete.
  unfoldable pub run_tasks :
      List Task → Manager R C → Memory → Outcome (Manager R C × List (ℕ × Request) × Memory)
  run_tasks [] m mem = ok (m, [], mem)
  run_tasks (t ∷ ts) m mem = do
    (m', _, done, mem') ← run_task raid communication t m mem
    (m'', rest, mem'') ← run_tasks ts m' mem'
    ok (m'', gone_with done rest, mem'')

-- Which answer each callback finds, if the IoTs answer the requests for them in order: the sockets of the
-- callbacks, the requests whose answers are to come, and those requests as they are answered.
pub data Answered : List ℕ → List DeviceRequest → List DeviceRequest → Type 0 where
  all_done : Answered [] [] []
  next_of :
      (fd : ℕ) (xs ys : List DeviceRequest) (d : DeviceRequest) {fds : List ℕ}
      {ds : List DeviceRequest}
      → All (λ x. x.device_fd ≢ fd) xs
      → d.device_fd ≡ fd
      → Answered fds (xs ++ ys) ds
      → Answered (fd ∷ fds) (xs ++ (d ∷ ys)) (d ∷ ds)

pub Answered-Reorder :
    {fds : List ℕ} {left ds : List DeviceRequest} → Answered fds left ds → Reorder left ds
Answered-Reorder all_done = none_left
Answered-Reorder (next_of fd xs ys d first mine rest) = taken_next xs ys d (Answered-Reorder rest)

-- The answer of an IoT to a read, as a task has it.
abbrev pub answer_of : (ℕ → Memory) → DeviceRequest → Reply
answer_of storages d = record {
  atlas = d.request;
  buffer = read_bytes (storages d.device_fd) d.request.iot_offset d.request.data_len;
}

abbrev pub task_of : Reply → Task
task_of r = reply_wrapper r.atlas r.buffer
