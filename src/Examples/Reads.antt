-- ===== src/Examples/Reads.antt =====
-- A read of two fragments from two IoTs, whose answers come in the other order, on the whole path.
use privately_distributed_cl.Common.{
  ℕ, zero, suc, ◌+◌, ◌≡◌, refl, ap, List, [], ◌∷◌, none, ok, arith, length, map,
}
use privately_distributed_cl.Common.Memory.{Memory, read_bytes}
use privately_distributed_cl.Common.Reorder.{Reorder, none_left, taken_next}
use privately_distributed_cl.Atlas.LittleEndian.{little_endian}
use privately_distributed_cl.Nbd.{Request}
use privately_distributed_cl.Slicer.{DeviceRequest}
use privately_distributed_cl.Slicer.ClosedForm.{striped_requests, striped, sliced}
use privately_distributed_cl.Socket.Segments.{segments, Segments}
use privately_distributed_cl.Sender.Streams.{bytes_to}
use privately_distributed_cl.Splicer.Counting.{completed}
use privately_distributed_cl.Disk.{disk}
use privately_distributed_cl.IotServer.{Server, serve}
use privately_distributed_cl.CommunicationManager.{splicer_raid, request_sender}
use privately_distributed_cl.Daemon.{run_task, request_wrapper}
use privately_distributed_cl.Daemon.Callbacks.{
  callbacks, run_tasks, Answered, all_done, next_of, answer_of, task_of,
}
use privately_distributed_cl.Daemon.Device.{DaemonState, sends_for, state_for, unsliced}
use privately_distributed_cl.Daemon.DeviceRead.{device_read}
use privately_distributed_cl.Examples.{read_request, two_fds, host}
use privately_distributed_cl.Examples.Devices.{segment, join-segment, zeros, daemon}

abbrev stored : ℕ → Memory
stored fd a = fd + a

abbrev server_at : ℕ → Server segments little_endian
server_at fd = record {
  storage = stored fd;
  conn = segment (bytes_to fd (sends_for little_endian read_request daemon host).1);
  sent = [];
  counter = 0;
}

abbrev conn_of : ℕ → Segments
conn_of fd = segment (serve segments little_endian 2 (server_at fd)).sent

-- The fragments: number 0 is on socket 6, number 1 on socket 5.
abbrev pub fragment : ℕ → DeviceRequest
fragment i = striped (sliced 7 (unsliced read_request two_fds)) 1 i

pub arrivals :
    Answered
      (5 ∷ 6 ∷ [])
      (striped_requests 7 (unsliced read_request two_fds))
      (fragment 1 ∷ fragment 0 ∷ [])
arrivals =
    next_of 5 (fragment 0 ∷ []) [] (fragment 1) ((λ e. omega (arith, e)), tt) refl
      (next_of 6 [] [] (fragment 0) tt refl all_done)

pub other_way : Reorder (fragment 1 ∷ fragment 0 ∷ []) (fragment 0 ∷ fragment 1 ∷ [])
other_way = taken_next (fragment 1 ∷ []) [] (fragment 0) (taken_next [] [] (fragment 1) none_left)

pub length-zeros : (n : ℕ) → length (zeros n) ≡ n
length-zeros zero = refl
length-zeros (suc n) = ap suc (length-zeros n)

device_read_example :
    (run_task splicer_raid (request_sender little_endian) (request_wrapper read_request) daemon host
      ≡ ok (
        state_for little_endian read_request daemon host,
        (sends_for little_endian read_request daemon host).1,
        none,
        host,
      ))
    × ((callbacks segments little_endian (zeros 24) zeros (5 ∷ 6 ∷ []) conn_of).0
        ≡ map task_of (map (answer_of stored) (fragment 1 ∷ fragment 0 ∷ [])))
    × ((out : DaemonState × List (ℕ × Request) × Memory) × (run_tasks splicer_raid
            (request_sender little_endian)
            (map task_of (map (answer_of stored) (fragment 0 ∷ fragment 1 ∷ [])))
            (state_for little_endian read_request daemon host)
            host
          ≡ ok out)
        × (completed 7 out.1 ≡ read_request ∷ [])
        × (read_bytes out.2 100 2048 ≡ read_bytes (disk two_fds stored) 1024 2048))
device_read_example =
    device_read little_endian segments read_request daemon host host 4 2 server_at conn_of
      (zeros 24) zeros (omega arith) (omega arith) refl refl (omega arith) (omega arith)
      (λ fd. join-segment _) (λ fd. refl) (omega arith) (λ fd. join-segment _) (length-zeros 24)
      length-zeros arrivals other_way
