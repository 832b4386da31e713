-- ===== src/Daemon/Device.antt =====
-- The whole path of a request: the daemon's task, the sockets, the servers of the IoTs.
use privately_distributed_cl.Common.{
  ℕ, ◌+◌, ◌-◌, ◌*◌, ◌/◌, ◌%◌, ◌^◌, ◌≤◌, ◌<◌, ◌≡◌, ◌⊎◌, inl, inr, refl, ap, ◌∙◌, arith, List, length,
  length-tabulate, leb, ltb, ◌&&◌, if◌then◌else◌, All, All-tabulate, none, ok,
}
use privately_distributed_cl.Common.Memory.{Memory}
use privately_distributed_cl.Common.Words.{uint32, size_of_int32, size_of_int32_nonneg}
use privately_distributed_cl.Atlas.{HeaderLayout}
use privately_distributed_cl.Nbd.{Request, code, read, write}
use privately_distributed_cl.Slicer.{Slicer, fragment_size}
use privately_distributed_cl.Slicer.ClosedForm.{striped, striped_requests, sliced, slice-ok}
use privately_distributed_cl.Slicer.Placement.{Fits, IsDistinct}
use privately_distributed_cl.Socket.{Stream}
use privately_distributed_cl.Sender.{RequestSender, Send}
use privately_distributed_cl.Sender
use privately_distributed_cl.Sender.Streams.{bytes_to, send_streams}
use privately_distributed_cl.Splicer.{Splicer}
pub use privately_distributed_cl.Splicer.Registry.{unsliced}
use privately_distributed_cl.Splicer.Requests.{requested, request_lem}
use privately_distributed_cl.Disk.{IsProper, disk, iot_of, offset_of}
use privately_distributed_cl.Disk.Write.{write_lem}
use privately_distributed_cl.IotServer.{Server, serve}
use privately_distributed_cl.IotServer.Exchange.{serve_lem}
use privately_distributed_cl.CommunicationManager.{Manager, splicer_raid, request_sender}
use privately_distributed_cl.CommunicationManager
use privately_distributed_cl.Daemon.{request_wrapper, run_task}

-- Every fragment of a read or a write is a proper message.
pub fragment-IsProper :
    (s : Slicer) (first i : ℕ)
    → (s.full_request.type ≡ code read) ⊎ (s.full_request.type ≡ code write)
    → uint32 s.request_uid ≡ s.request_uid
    → IsProper (striped s first i)
fragment-IsProper s first i kind uid = record {
  words = record {
    request_uid = omega (arith, uid);
    fragment_idx = omega arith;
    alarm_uid = omega arith;
    iot_offset = omega arith;
    type = omega (arith, kind);
    data_len = omega arith;
  };
  kind = kind;
}

pub striped-IsProper :
    (counter : ℕ) (s : Slicer)
    → (s.full_request.type ≡ code read) ⊎ (s.full_request.type ≡ code write)
    → All IsProper (striped_requests counter s)
striped-IsProper counter s kind =
    All-tabulate IsProper (size_of_int32 s.full_request.len / fragment_size) 0 _ λ k.
      fragment-IsProper (sliced counter s) (s.full_request.from / fragment_size) k kind
        (omega arith)

pub length-striped :
    (counter : ℕ) (s : Slicer)
    → length (striped_requests counter s) ≡ size_of_int32 s.full_request.len / fragment_size
length-striped counter s = length-tabulate (size_of_int32 s.full_request.len / fragment_size) 0 _

abbrev pub DaemonState : Type 0
DaemonState = Manager Splicer RequestSender

module _ (layout : HeaderLayout) where
  -- What the task of a request sends, and the state after it.
  abbrev pub sends_for : Request → DaemonState → Memory → RequestSender × List Send
  sends_for q m mem =
      Sender.send layout mem
        (striped_requests m.raid.request_counter (unsliced q m.raid.fds_vector)) m.communication

  abbrev pub state_for : Request → DaemonState → Memory → DaemonState
  state_for q m mem = record { raid = requested q m.raid; communication = (sends_for q m mem).0 }

  pub request_task_runs :
      (q : Request) (m : DaemonState) (mem : Memory)
      → length m.raid.fds_vector < 2 ^ 64
      → 0 < length m.raid.fds_vector
      → run_task splicer_raid (request_sender layout) (request_wrapper q) m mem
        ≡ ok (state_for q m mem, (sends_for q m mem).1, none, mem)
  unfolding run_task CommunicationManager.request
  request_task_runs q m mem few pos = elim (request_lem q m.raid few) [
    | inl (_, r) ↦ ground (arith, r)
    | inr (empty, r) ↦ absurd (omega arith)
  ]

  -- A write that the kernel asks for, of less than 2 ^ 31 bytes, aligned, within the rows of the IoTs and
  -- over distinct sockets, is written to the whole device. The task runs without a fault;
  -- and once the server of each IoT has worked off what the task sent on its socket, the storage of
  -- the IoTs holds the request's buffer at `from`, as far as the fragments reach, and is otherwise
  -- as before.
  pub device_write :
      (stream : Stream) (q : Request) (m : DaemonState) (mem : Memory) (rows rounds p : ℕ)
      (servers : ℕ → Server stream layout)
      → 0 < length m.raid.fds_vector
      → Fits (unsliced q m.raid.fds_vector) rows
      → IsDistinct m.raid.fds_vector
      → q.type ≡ code write
      → q.from % fragment_size ≡ 0
      → q.len < 2 ^ 31
      → ((fd : ℕ) → stream.to_come (servers fd).conn ≡ bytes_to fd (sends_for q m mem).1)
      → q.len / fragment_size ≤ rounds
      → p < length m.raid.fds_vector * rows * fragment_size
      → (run_task splicer_raid (request_sender layout) (request_wrapper q) m mem
          ≡ ok (state_for q m mem, (sends_for q m mem).1, none, mem))
        × (disk m.raid.fds_vector (λ fd. (serve stream layout rounds (servers fd)).storage) p ≡ (
            if leb q.from p && ltb p (q.from + q.len / fragment_size * fragment_size)
            then mem (q.m_data + (p - q.from))
            else disk m.raid.fds_vector (λ fd. (servers fd).storage) p))
  device_write stream q m mem rows rounds p servers pos fits distinct w aligned nonneg wired enough
        small =
      let fds = m.raid.fds_vector in
      let s = unsliced q fds in
      let counter = m.raid.request_counter in
      let fd = iot_of fds p in
      let ds = striped_requests counter s in
      let arrives = wired fd ∙ send_streams layout mem fd ds m.communication in
      let (stored, _) =
        serve_lem stream layout mem fd ds rounds (servers fd) (striped-IsProper counter s (inr w))
          (omega (arith, length-striped counter s, size_of_int32_nonneg q.len nonneg)) arrives in
      (
        request_task_runs q m mem fits.few pos,
        ap (λ (st : Memory). st (offset_of fds p)) stored
            ∙ write_lem counter s rows mem (λ f. (servers f).storage) p fits distinct w aligned
                (slice-ok counter s pos fits.few) small
            ∙ rw (size_of_int32_nonneg q.len nonneg) refl,
      )
