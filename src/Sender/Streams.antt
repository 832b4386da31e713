-- ===== src/Sender/Streams.antt =====
-- What `RequestSender::Send` puts on each socket.
use privately_distributed_cl.Common.{
  ℕ, ◌≡◌, refl, sym, ap, ap₂, ◌∙◌, arith, List, [], ◌∷◌, ◌++◌, ◌==◌, if◌then◌else◌,
}
use mathlib.Core.List.{append_assoc, append-nil}
use privately_distributed_cl.Common.Memory.{Memory, read_bytes}
use privately_distributed_cl.Atlas.{HeaderLayout}
use privately_distributed_cl.Nbd.{code, read, write}
use privately_distributed_cl.Slicer.{DeviceRequest}
use privately_distributed_cl.Sender.{Send, RequestSender, sender, send_loop, send}

-- The bytes that a run sends on one socket, in order.
pub bytes_to : ℕ → List Send → List ℕ
bytes_to fd [] = []
bytes_to fd (s ∷ ss) = (if s.fd == fd then s.bytes else []) ++ bytes_to fd ss

pub bytes_to-append :
    (fd : ℕ) (xs ys : List Send) → bytes_to fd (xs ++ ys) ≡ bytes_to fd xs ++ bytes_to fd ys
unfolding bytes_to
bytes_to-append fd [] ys = refl
bytes_to-append fd (x ∷ xs) ys =
    ap (λ t. (if x.fd == fd then x.bytes else []) ++ t) (bytes_to-append fd xs ys)
    ∙ sym (append_assoc (if x.fd == fd then x.bytes else []) (bytes_to fd xs) (bytes_to fd ys))

module _ (layout : HeaderLayout) (mem : Memory) where
  -- A message as the protocol has it.
  unfoldable pub message : DeviceRequest → List ℕ
  message d =
      if d.request.type == code read
      then layout.encode d.request
      else if d.request.type == code write
      then layout.encode d.request ++ read_bytes mem d.m_data d.request.data_len
      else []

  unfoldable pub messages_to : ℕ → List DeviceRequest → List ℕ
  messages_to fd [] = []
  messages_to fd (d ∷ ds) = (if d.device_fd == fd then message d else []) ++ messages_to fd ds

  pub sender-message :
      (fd : ℕ) (d : DeviceRequest) (counter : ℕ)
      → bytes_to fd (sender layout mem d counter).1 ≡ (if d.device_fd == fd then message d else [])
  unfolding bytes_to sender message
  sender-message fd d counter = ground (
    arith,
    append-nil (layout.encode d.request),
    append-nil (read_bytes mem d.m_data d.request.data_len),
  )

  send_loop-messages :
      (fd : ℕ) (ds : List DeviceRequest) (counter : ℕ)
      → bytes_to fd (send_loop layout mem ds counter).1 ≡ messages_to fd ds
  unfolding send_loop messages_to bytes_to
  send_loop-messages fd [] counter = refl
  send_loop-messages fd (d ∷ ds) counter =
      bytes_to-append fd (sender layout mem d counter).1
        (send_loop layout mem ds (sender layout mem d counter).0).1
      ∙ ap₂ ◌++◌ (sender-message fd d counter)
          (send_loop-messages fd ds (sender layout mem d counter).0)

  -- Each socket gets the messages of the requests for it, whole and in the order of the vector, and
  -- nothing else.
  pub send_streams :
      (fd : ℕ) (ds : List DeviceRequest) (s : RequestSender)
      → bytes_to fd (send layout mem ds s).1 ≡ messages_to fd ds
  unfolding send
  send_streams fd ds s = send_loop-messages fd ds s.counter
