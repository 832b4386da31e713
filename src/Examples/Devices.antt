-- ===== src/Examples/Devices.antt =====
-- The sockets and the servers at concrete inputs.
use privately_distributed_cl.Common.{
  ℕ, zero, suc, ◌%◌, ◌≡◌, inl, inr, refl, sym, List, [], ◌∷◌, ◌++◌, none, ok, arith, All, ◌∙◌, ap,
}
use mathlib.Core.List.{append-nil}
use privately_distributed_cl.Common.Memory.{read_bytes}
use privately_distributed_cl.Atlas.LittleEndian.{little_endian}
use privately_distributed_cl.Slicer.{DeviceRequest}
use privately_distributed_cl.Socket.{success, read_all, read_loop}
use privately_distributed_cl.Socket.Segments.{segments, Segments, join, recv_segment}
use privately_distributed_cl.Socket.ReadAll.{read_all_lem}
use privately_distributed_cl.Sender.{RequestSender, Send}
use privately_distributed_cl.Sender
use privately_distributed_cl.Sender.Streams.{bytes_to, messages_to, send_streams}
use privately_distributed_cl.Disk.{IsProper, disk, perform_all, replies, reply}
use privately_distributed_cl.IotServer.{Server, serve}
use privately_distributed_cl.IotServer.Exchange.{serve_lem}
use privately_distributed_cl.CommunicationManager.{splicer_raid, request_sender}
use privately_distributed_cl.Daemon.{run_task, request_wrapper, reply_wrapper, manage_replies}
use privately_distributed_cl.Daemon.Replies.{manage_replies_lem}
use privately_distributed_cl.Daemon.Device.{device_write, DaemonState, sends_for, state_for}
use privately_distributed_cl.Examples.{
  write_request, fresh_splicer, two_fds, two_fds-IsDistinct, host,
}

abbrev cut : Segments
cut = (1, 2 ∷ []) ∷ (3, []) ∷ (4, 5 ∷ []) ∷ []

-- Three segments, of which the last is not all taken.
read_all_test : (read_all segments cut 4).bytes ≡ 1 ∷ 2 ∷ 3 ∷ 4 ∷ []
unfolding read_all read_loop recv_segment
read_all_test = refl

read_all_lem_example :
    ((read_all segments cut 4).status ≡ success)
    × ((read_all segments cut 4).bytes ≡ 1 ∷ 2 ∷ 3 ∷ 4 ∷ [])
    × (join (read_all segments cut 4).conn ≡ 5 ∷ [])
unfolding join
read_all_lem_example = read_all_lem segments cut 4

abbrev writing : DeviceRequest
writing = record {
  request = record {
    request_uid = 7;
    fragment_idx = 0;
    alarm_uid = 0;
    iot_offset = 2048;
    type = 1;
    data_len = 3;
  };
  device_fd = 5;
  m_data = 100;
}

abbrev reading : DeviceRequest
reading = record writing { request = record writing.request { type = 0 } }

abbrev pub idle : RequestSender
idle = record { fds = []; counter = 0 }

send_streams_example :
    bytes_to 5 (Sender.send little_endian host (writing ∷ reading ∷ []) idle).1
    ≡ messages_to little_endian host 5 (writing ∷ reading ∷ [])
send_streams_example = send_streams little_endian host 5 (writing ∷ reading ∷ []) idle

-- Any bytes as one segment.
pub segment : List ℕ → Segments
segment [] = []
segment (b ∷ bs) = (b, bs) ∷ []

pub join-segment : (bs : List ℕ) → join (segment bs) ≡ bs
unfolding segment join
join-segment [] = refl
join-segment (b ∷ bs) = ap (◌∷◌ b) (append-nil bs)

abbrev pub server_on : List ℕ → Server segments little_endian
server_on bytes = record { storage = λ a. 0; conn = segment bytes; sent = []; counter = 0 }

abbrev messages : List ℕ
messages = messages_to little_endian host 5 (writing ∷ reading ∷ [])

both-IsProper : All IsProper (writing ∷ reading ∷ [])
both-IsProper = (
  record { words = omega arith; kind = inr refl },
  (record { words = omega arith; kind = inl refl }, tt),
)

serve_lem_example :
    ((serve segments little_endian 2 (server_on messages)).storage
      ≡ perform_all host 5 (writing ∷ reading ∷ []) (λ a. 0))
    × ((serve segments little_endian 2 (server_on messages)).sent
        ≡ [] ++ replies little_endian host 5 (writing ∷ reading ∷ []) (λ a. 0))
serve_lem_example =
    serve_lem segments little_endian host 5 (writing ∷ reading ∷ []) 2 (server_on messages)
      both-IsProper (omega arith) (join-segment messages)

abbrev pub daemon : DaemonState
daemon = record { raid = fresh_splicer; communication = idle }

abbrev pub server_at : ℕ → Server segments little_endian
server_at fd = server_on (bytes_to fd (sends_for little_endian write_request daemon host).1)

-- Byte 1500 of the device is byte 476 of the buffer at 100.
device_write_example :
    (run_task splicer_raid
        (request_sender little_endian)
        (request_wrapper write_request)
        daemon
        host
      ≡ ok (
        state_for little_endian write_request daemon host,
        (sends_for little_endian write_request daemon host).1,
        none,
        host,
      ))
    × (disk two_fds (λ fd. (serve segments little_endian 4 (server_at fd)).storage) 1500 ≡ 74)
device_write_example =
    device_write little_endian segments write_request daemon host 4 4 1500 server_at (omega arith)
      (omega arith) two_fds-IsDistinct refl refl (omega arith) (λ fd. join-segment _) (omega arith)
      (omega arith)

abbrev pub zeros : ℕ → List ℕ
zeros zero = []
zeros (suc n) = 0 ∷ zeros n

abbrev answer : List ℕ
answer = reply little_endian reading (λ a. a % 256)

manage_replies_lem_example :
    let (task, c) = manage_replies segments little_endian (zeros 24) zeros (segment answer) in
    (task ≡ reply_wrapper reading.request (read_bytes (λ a. a % 256) 2048 3)) × (join c ≡ [])
manage_replies_lem_example =
    manage_replies_lem segments little_endian (zeros 24) zeros (segment answer) reading
      (λ a. a % 256) [] both-IsProper.1.0 refl refl (join-segment answer ∙ sym (append-nil answer))
