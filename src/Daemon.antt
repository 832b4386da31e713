-- ===== src/Daemon.antt =====
-- concrete/daemon/daemon_main.cpp: the callbacks of the reactor, the tasks that they make, and the
-- connections that `main` opens.
pub mod RoundTrip
pub mod DeviceRead
pub mod Answers
pub mod Arrivals
pub mod Callbacks
pub mod Bounds
pub mod Replies
pub mod Device
use privately_distributed_cl.Common.{
  ℕ, zero, suc, ◌+◌, ◌*◌, Bool, true, false, List, [], ◌∷◌, ◌++◌, Option, none, some, Outcome, ok,
  fault, exit_failure, null_dereference, ◌>>=◌, drop, length, ◌==◌, if◌then◌else◌,
}
use privately_distributed_cl.Common.Memory.{Memory}
use privately_distributed_cl.Atlas.{AtlasHeader, HeaderLayout, header_size}
use privately_distributed_cl.Nbd.{Request, code, read}
use privately_distributed_cl.Socket.{Stream, read_all}
use privately_distributed_cl.Splicer.{Splicer, RaidedMessage}
use privately_distributed_cl.Sender.{RequestSender, Send}
use privately_distributed_cl.CommunicationManager.{Manager, Raid, Communication}
use privately_distributed_cl.CommunicationManager as Manage

abbrev pub mb : ℕ
mb = 1024 * 1024

-- `SIZE`, the size of the whole device.
abbrev pub size : ℕ
size = 512 * mb

-- The task that a callback makes: the function to run, with its copied arguments. `null_request` is
-- `requestWrapperFunction` with a null pointer.
pub data Task : Type 0 where
  request_wrapper : Request → Task
  null_request : Task
  reply_wrapper : AtlasHeader → List ℕ → Task

-- `ManageRequests`, with the request that `GetRequest` gave, `none` for a null pointer.
unfoldable pub manage_requests : Option Request → Task
manage_requests (some q) = request_wrapper q
manage_requests none = null_request

-- A buffer of `new` or of the stack after a read into it: what was read, then what was there.
abbrev pub over : List ℕ → List ℕ → List ℕ
over bytes buffer = bytes ++ drop (length bytes) buffer

module _ (stream : Stream) (layout : HeaderLayout) where
  -- `ManageReplies`. The results of `ReadAll` are not looked at, so what the two buffers hold before
  -- is part of the result if a read fails: `header` is the stack's, and `fresh n` what `new char[n]`
  -- gives.
  pub manage_replies : List ℕ → (ℕ → List ℕ) → stream.Conn → Task × stream.Conn
  manage_replies header fresh c =
      let head = read_all stream c header_size in
      let atlas = layout.decode (over head.bytes header) in
      let body = read_all stream head.conn atlas.data_len in
      if atlas.type == code read
      then (reply_wrapper atlas (over body.bytes (fresh atlas.data_len)), body.conn)
      else (reply_wrapper atlas (fresh atlas.data_len), head.conn)

module _ {R C Message : Type 0} (raid : Raid R Message)
    (communication : Communication C Message) where
  -- `requestWrapperFunction` and `replyWrapperFunction`, run by a thread of the pool.
  pub run_task :
      Task
      → Manager R C
      → Memory
      → Outcome (Manager R C × List Send × Option (ℕ × Request) × Memory)
  run_task (request_wrapper q) m mem = do
    (m', sends) ← Manage.request raid communication mem q m
    ok (m', sends, none, mem)
  run_task null_request m mem = fault null_dereference
  run_task (reply_wrapper atlas buffer) m mem = do
    (m', done, mem') ← Manage.reply raid communication atlas buffer m mem
    ok (m', [], done, mem')

-- `IoTManager::IoTManager`: `socket` and `connect` are the system's. The first gives a socket, the
-- second whether it is connected to a port of 127.0.0.1; `none` and `false` are -1.
unfoldable pub iot_manager : Option ℕ → (ℕ → ℕ → Bool) → ℕ → Outcome ℕ
iot_manager client_sock connect port_num = elim client_sock [
  | none ↦ fault exit_failure
  | some fd ↦ if connect fd port_num then ok fd else fault exit_failure
]

-- What the reactor is to call for a socket.
pub data Callback : Type 0 where
  manage_replies_callback : ℕ → Callback
  manage_requests_callback : Callback

-- The loop of `main` over the IoTs: the sockets, and the callbacks for them. `socket i` is the
-- result of the `i`-th call of `socket`.
unfoldable pub connect_iots :
    (ℕ → Option ℕ) → (ℕ → ℕ → Bool) → ℕ → ℕ → ℕ → Outcome (List ℕ × List (ℕ × Callback))
connect_iots socket connect zero i port_num = ok ([], [])
connect_iots socket connect (suc rounds) i port_num = do
  iot_socket ← iot_manager (socket i) connect port_num
  (fds, to_monitor) ← connect_iots socket connect rounds (i + 1) (port_num + 1)
  ok (iot_socket ∷ fds, (iot_socket, manage_replies_callback iot_socket) ∷ to_monitor)

abbrev pub num_of_iots : ℕ
num_of_iots = 1

-- `main` up to the framework: the vector of the IoTs' sockets, and what the framework monitors.
unfoldable pub main : (ℕ → Option ℕ) → (ℕ → ℕ → Bool) → ℕ → Outcome (List ℕ × List (ℕ × Callback))
main socket connect nbd_fd = do
  (fds, to_monitor) ← connect_iots socket connect num_of_iots 0 29000
  ok (fds, to_monitor ++ ((nbd_fd, manage_requests_callback) ∷ []))
