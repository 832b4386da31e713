-- ===== src/System.antt =====
-- The whole system while it runs: the reactor of concrete/daemon/daemon_main.cpp calls the callbacks, the
-- threads of the pool run the tasks, and the servers of concrete/atlas/iotserver_simple.cpp work, in any
-- order and for any number of requests at a time. A step is what a thread does up to the next point at
-- which another may come between: the locks of `Splicer` and of `Sender` make their parts one step each.
pub mod Messages
pub mod Wires
pub mod Loads
pub mod Invariant
pub mod Sending
pub mod Answering
pub mod Runs
pub mod Start
pub mod Safety
pub mod Ranges
pub mod Strays
pub mod Copies
pub mod Misses
pub mod Untouched
pub mod Carries
pub mod Carried
pub mod Brings
pub mod Placing
pub mod Reads
pub mod Passage
pub mod Idle
pub mod Delivery
pub mod Faithful
pub mod Accounts
pub mod Progress
use privately_distributed_cl.Common.{
  ℕ, zero, suc, ◌^◌, ◌<◌, ◌≡◌, ◌≢◌, ◌⊎◌, true, List, [], ◌∷◌, ◌++◌, Option, none, some, ok, drop,
  length, map,
}
use privately_distributed_cl.Common.Memory.{Memory}
use privately_distributed_cl.Common.Words.{uint32}
use privately_distributed_cl.Common.Dict.{find, nat_key}
use privately_distributed_cl.Atlas.{AtlasHeader, HeaderLayout, header_size}
use privately_distributed_cl.Nbd.{Request, code, read, write}
use privately_distributed_cl.Slicer.{DeviceRequest}
use privately_distributed_cl.Socket.{Stream}
use privately_distributed_cl.Splicer.{Splicer, RaidedMessage, new_splicer, gone_with}
use privately_distributed_cl.Splicer
use privately_distributed_cl.Sender.{RequestSender, sender}
use privately_distributed_cl.Sender.Streams.{bytes_to}
use privately_distributed_cl.IotServer.{Server, serve_one, start as start_server}
use privately_distributed_cl.CommunicationManager.{Manager, splicer_raid, request_sender}
use privately_distributed_cl.Daemon.{
  Task, request_wrapper, reply_wrapper, manage_requests, manage_replies, run_task,
}
use privately_distributed_cl.Daemon.Device.{DaemonState}

-- What the system relies on of its connections: what is sent comes, behind what is on the way.
pub record Network : Type 1 where
  pub stream : Stream
  pub deliver : stream.Conn → List ℕ → stream.Conn
  pub to_come-deliver :
      (c : stream.Conn) (bytes : List ℕ)
      → stream.to_come (deliver c bytes) ≡ stream.to_come c ++ bytes

-- A read or a write.
abbrev pub IsTransfer : Request → Type 0
IsTransfer q = (q.type ≡ code read) ⊎ (q.type ≡ code write)

module _ (net : Network) (layout : HeaderLayout) where
  -- One IoT: the daemon's socket for it, its server, and the daemon's end of the connection.
  pub record Link : Type 0 where
    pub fd : ℕ
    pub server : Server net.stream layout
    pub conn : net.stream.Conn

  -- `sending` has the fragments that the threads in `RequestSender::Send` have still to send, and `done`
  -- the requests that were answered to the kernel, the last one first.
  pub record State : Type 0 where
    pub manager : DaemonState
    pub mem : Memory
    pub links : List Link
    pub tasks : List Task
    pub sending : List (List DeviceRequest)
    pub done : List (ℕ × Request)

  -- An IoT at the start: the daemon's socket for it, and the two ends of its connection.
  pub record Iot : Type 0 where
    pub fd : ℕ
    pub server_end : net.stream.Conn
    pub daemon_end : net.stream.Conn

  abbrev pub link_of : Iot → Link
  link_of i = record {
    fd = i.fd;
    server = start_server net.stream layout i.server_end;
    conn = i.daemon_end;
  }

  -- The system when `main` calls `Run`, and the servers have accepted.
  unfoldable pub start : List Iot → RequestSender → Memory → ℕ → State
  start iots sender mem counter = record {
    manager = record {
      raid = new_splicer (map (λ (i : Iot). i.fd) iots) counter;
      communication = sender;
    };
    mem = mem;
    links = map link_of iots;
    tasks = [];
    sending = [];
    done = [];
  }

  -- Bytes on their way to the server of an IoT.
  unfoldable pub receive : List ℕ → Link → Link
  receive bytes l = record l { server = record l.server { conn = net.deliver l.server.conn bytes } }

  -- A server after a round of its loop, which may have sent an answer.
  unfoldable pub answer : Server net.stream layout → Link → Link
  answer server l = record l {
    server = server;
    conn = net.deliver l.conn (drop (length l.server.sent) server.sent);
  }

  -- The kernel asks for a read or a write, whose data is anywhere in memory, and `ManageRequests` makes
  -- the task of it. The other case of `ManageRequests`, a null pointer, whose task faults (Daemon.run_task), is not one of a
  -- `Run`, and neither is a request of another kind.
  pub data Arrival (s : State) : Request → State → Type 0 where
    arrives :
        (q : Request) (mem' : Memory)
        → IsTransfer q
        → q.len < 2 ^ 32
        → Arrival s q (record s { tasks = manage_requests (some q) ∷ s.tasks; mem = mem' })

  pub data Step (s : State) : State → Type 0 where
    -- A thread takes the task of a request and runs `Splicer::Request`, with a uid that no request waits
    -- under.
    starts :
        (xs ys : List Task) (q : Request) {raid' : Splicer} {message : RaidedMessage}
        → s.tasks ≡ xs ++ (request_wrapper q ∷ ys)
        → find (uint32 s.manager.raid.request_counter) s.manager.raid.slicer_map ≡ none
        → Splicer.request q s.manager.raid ≡ ok (raid', message)
        → Step s (record s {
          manager = record s.manager { raid = raid' };
          tasks = xs ++ ys;
          sending = Splicer.get_vector message ∷ s.sending;
        })
    -- The next round of the loop of `RequestSender::Send`: a `Sender` sends one fragment.
    sends :
        (us vs : List (List DeviceRequest)) (d : DeviceRequest) (ds : List DeviceRequest)
        (ls rs : List Link) (l : Link)
        → s.sending ≡ us ++ ((d ∷ ds) ∷ vs)
        → s.links ≡ ls ++ (l ∷ rs)
        → l.fd ≡ d.device_fd
        → Step s (record s {
          manager = record s.manager {
            communication = record s.manager.communication {
              counter = (sender layout s.mem d s.manager.communication.counter).0;
            };
          };
          sending = us ++ (ds ∷ vs);
          links =
              ls
              ++ (receive
                    (bytes_to l.fd (sender layout s.mem d s.manager.communication.counter).1)
                    l
                  ∷ rs);
        })
    -- A server to which something comes does one round of its loop.
    serves :
        (ls rs : List Link) (l : Link) {server : Server net.stream layout}
        → s.links ≡ ls ++ (l ∷ rs)
        → net.stream.to_come l.server.conn ≢ []
        → serve_one net.stream layout l.server ≡ (true, server)
        → Step s (record s { links = ls ++ (answer server l ∷ rs) })
    -- The reactor finds the socket of an IoT readable and calls `ManageReplies`; `header` and `fresh` are
    -- what is in the memory of the stack and of `new`.
    collects :
        (ls rs : List Link) (l : Link) (header : List ℕ) (fresh : ℕ → List ℕ)
        → s.links ≡ ls ++ (l ∷ rs)
        → net.stream.to_come l.conn ≢ []
        → length header ≡ header_size
        → ((n : ℕ) → length (fresh n) ≡ n)
        → Step s (record s {
          tasks = (manage_replies net.stream layout header fresh l.conn).0 ∷ s.tasks;
          links =
              ls
              ++ (record l { conn = (manage_replies net.stream layout header fresh l.conn).1 }
                  ∷ rs);
        })
    -- A thread takes the task of an answer and runs it.
    replies :
        (xs ys : List Task) (atlas : AtlasHeader) (buffer : List ℕ) {manager' : DaemonState}
        {gone : Option (ℕ × Request)} {mem' : Memory}
        → s.tasks ≡ xs ++ (reply_wrapper atlas buffer ∷ ys)
        → run_task splicer_raid (request_sender layout) (reply_wrapper atlas buffer) s.manager s.mem
          ≡ ok (manager', [], gone, mem')
        → Step s (record s {
          manager = manager';
          mem = mem';
          tasks = xs ++ ys;
          done = gone_with gone s.done;
        })

  -- A run: how many steps it has, and which requests arrived, the last one first.
  pub data Run (s : State) : ℕ → List Request → State → Type 0 where
    at_start : Run s zero [] s
    one_arrives :
        {n : ℕ} {qs : List Request} {q : Request} {t u : State}
        → Run s n qs t
        → Arrival t q u
        → Run s n (q ∷ qs) u
    one_step :
        {n : ℕ} {qs : List Request} {t u : State} → Run s n qs t → Step t u → Run s (suc n) qs u
