-- ===== src/Examples/RoundTrips.antt =====
-- The write of four fragments at 1024, read back in part: the first two.
use privately_distributed_cl.Common.{ℕ, ◌≡◌, refl, arith, List, [], ◌∷◌, ok, map}
use privately_distributed_cl.Common.Memory.{Memory, read_bytes}
use privately_distributed_cl.Atlas.LittleEndian.{little_endian}
use privately_distributed_cl.Nbd.{Request}
use privately_distributed_cl.Slicer.{slice}
use privately_distributed_cl.Slicer.ClosedForm.{striped, sliced, striped_requests, slice-ok}
use privately_distributed_cl.Socket.Segments.{segments, Segments}
use privately_distributed_cl.Sender.Streams.{bytes_to}
use privately_distributed_cl.Splicer.Counting.{completed}
use privately_distributed_cl.IotServer.{Server, serve}
use privately_distributed_cl.CommunicationManager.{splicer_raid, request_sender}
use privately_distributed_cl.Daemon.Callbacks.{callbacks, run_tasks, answer_of, task_of}
use privately_distributed_cl.Daemon.Device.{DaemonState, sends_for, state_for}
use privately_distributed_cl.Daemon.RoundTrip.{device_reads_back}
use privately_distributed_cl.Daemon.Bounds.{InBounds, slice-InBounds}
use privately_distributed_cl.Examples.{
  read_request, write_request, write_slicer, two_fds, two_fds-IsDistinct, host,
}
use privately_distributed_cl.Examples.Devices.{segment, join-segment, zeros, daemon, server_at}
use privately_distributed_cl.Examples.Reads.{fragment, arrivals, other_way, length-zeros}

written_slices :
    slice 7 write_slicer ≡ ok (8, sliced 7 write_slicer, striped_requests 7 write_slicer)
written_slices = slice-ok 7 write_slicer (omega arith) (omega arith)

slice-InBounds_example : InBounds write_slicer (striped (sliced 7 write_slicer) 1 2)
slice-InBounds_example =
    slice-InBounds 7 write_slicer (omega arith) written_slices (omega arith) 2 refl

abbrev left_by_write : ℕ → Memory
left_by_write fd = (serve segments little_endian 4 (server_at fd)).storage

abbrev reader_at : ℕ → Server segments little_endian
reader_at fd = record {
  storage = left_by_write fd;
  conn = segment (bytes_to fd (sends_for little_endian read_request daemon host).1);
  sent = [];
  counter = 0;
}

abbrev reader_conn : ℕ → Segments
reader_conn fd = segment (serve segments little_endian 2 (reader_at fd)).sent

device_reads_back_example :
    ((callbacks segments little_endian (zeros 24) zeros (5 ∷ 6 ∷ []) reader_conn).0
      ≡ map task_of (map (answer_of left_by_write) (fragment 1 ∷ fragment 0 ∷ [])))
    × ((out : DaemonState × List (ℕ × Request) × Memory) × (run_tasks splicer_raid
            (request_sender little_endian)
            (map task_of (map (answer_of left_by_write) (fragment 0 ∷ fragment 1 ∷ [])))
            (state_for little_endian read_request daemon host)
            host
          ≡ ok out)
        × (completed 7 out.1 ≡ read_request ∷ [])
        × (read_bytes out.2 100 2048 ≡ read_bytes host 100 2048))
device_reads_back_example =
    device_reads_back little_endian segments two_fds 4 two_fds-IsDistinct (omega arith)
      write_request daemon host 4 server_at refl (omega arith) refl refl (omega arith)
      (λ fd. join-segment _) (omega arith) read_request daemon host 2 reader_at reader_conn
      (zeros 24) zeros refl (λ fd. refl) refl refl (omega arith) (omega arith) (omega arith)
      (λ fd. join-segment _) (λ fd. refl) (omega arith) (λ fd. join-segment _) (length-zeros 24)
      length-zeros arrivals other_way
