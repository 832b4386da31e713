-- ===== src/Sender.antt =====
-- concrete/slicer/slicer.cpp, `Sender`, and `RequestSender` of
-- concrete/communication_manager/communication_manager.cpp. The result of a run is the list of its
-- calls of `send`, each with its socket and bytes; the code takes every call to send all of them.
-- `g_mutex` keeps the calls of one message together.
pub mod Streams
use privately_distributed_cl.Common.{ℕ, ◌+◌, List, [], ◌∷◌, ◌++◌, ◌==◌, if◌then◌else◌}
use privately_distributed_cl.Common.Memory.{Memory, read_bytes}
use privately_distributed_cl.Atlas.{HeaderLayout}
use privately_distributed_cl.Nbd.{code, read, write}
use privately_distributed_cl.Slicer.{DeviceRequest}

pub record Send : Type 0 where
  pub fd : ℕ
  pub bytes : List ℕ

-- `RequestSender`, whose vector no code of the program reads, and the static `g_counter`.
pub record RequestSender : Type 0 where
  pub fds : List ℕ
  pub counter : ℕ

pub set_fd_vector : List ℕ → RequestSender → RequestSender
set_fd_vector fds s = record s { fds = fds }

pub get_vector : RequestSender → List ℕ
get_vector s = s.fds

module _ (layout : HeaderLayout) (mem : Memory) where
  -- `Sender::Sender`: a read sends the header, a write the header and the data, and any other type
  -- nothing.
  pub sender : DeviceRequest → ℕ → ℕ × List Send
  sender d counter =
      let header : Send = record { fd = d.device_fd; bytes = layout.encode d.request } in
      let payload : Send = record {
        fd = d.device_fd;
        bytes = read_bytes mem d.m_data d.request.data_len;
      } in
      if d.request.type == code read
      then (counter + 1, header ∷ [])
      else if d.request.type == code write
      then (counter + 1, header ∷ payload ∷ [])
      else (counter, [])

  -- The loop of `RequestSender::Send` over the message's vector.
  pub send_loop : List DeviceRequest → ℕ → ℕ × List Send
  send_loop [] counter = (counter, [])
  send_loop (d ∷ ds) counter =
      let (counter', sends) = sender d counter in
      let (counter'', rest) = send_loop ds counter' in (counter'', sends ++ rest)

  -- `RequestSender::Send`.
  pub send : List DeviceRequest → RequestSender → RequestSender × List Send
  send ds s =
      let (counter, sends) = send_loop ds s.counter in (record s { counter = counter }, sends)
