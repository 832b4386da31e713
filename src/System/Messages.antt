-- ===== src/System/Messages.antt =====
-- Messages and answers one after the other on a connection.
use privately_distributed_cl.Common.{
  ℕ, ◌≡◌, ◌<◌, sym, ap, ◌∙◌, arith, List, [], ◌∷◌, ◌++◌, length, length-append,
}
use mathlib.Core.List.{append_assoc, append-nil}
use privately_distributed_cl.Common.Memory.{Memory, read_bytes}
use privately_distributed_cl.Atlas.{HeaderLayout}
use privately_distributed_cl.Slicer.{DeviceRequest}
use privately_distributed_cl.Sender.Streams.{message}
use privately_distributed_cl.Disk.{reply, IsProper}

-- A fragment with the memory that it was read from.
abbrev pub Sent : Type 0
Sent = Memory × DeviceRequest

module _ (layout : HeaderLayout) where
  unfoldable pub messages : List Sent → List ℕ
  messages [] = []
  messages ((m, d) ∷ rest) = message layout m d ++ messages rest

  unfoldable pub answers : List Sent → List ℕ
  answers [] = []
  answers ((st, d) ∷ rest) = reply layout d st ++ answers rest

  pub messages-append :
      (xs : List Sent) (m : Memory) (d : DeviceRequest)
      → messages (xs ++ ((m, d) ∷ [])) ≡ messages xs ++ message layout m d
  unfolding messages
  messages-append [] m d = append-nil (message layout m d)
  messages-append ((m', d') ∷ xs) m d =
      ap (λ t. message layout m' d' ++ t) (messages-append xs m d)
      ∙ sym (append_assoc (message layout m' d') (messages xs) (message layout m d))

  pub answers-append :
      (xs : List Sent) (st : Memory) (d : DeviceRequest)
      → answers (xs ++ ((st, d) ∷ [])) ≡ answers xs ++ reply layout d st
  unfolding answers
  answers-append [] st d = append-nil (reply layout d st)
  answers-append ((st', d') ∷ xs) st d =
      ap (λ t. reply layout d' st' ++ t) (answers-append xs st d)
      ∙ sym (append_assoc (reply layout d' st') (answers xs) (reply layout d st))

  pub message-pos : (m : Memory) (d : DeviceRequest) → IsProper d → 0 < length (message layout m d)
  unfolding message
  message-pos m d v = ground (
    arith,
    v.kind,
    layout.length-encode d.request,
    length-append (layout.encode d.request) (read_bytes m d.m_data d.request.data_len),
  )

  pub reply-pos : (st : Memory) (d : DeviceRequest) → IsProper d → 0 < length (reply layout d st)
  unfolding reply
  reply-pos st d v = ground (
    arith,
    v.kind,
    layout.length-encode d.request,
    length-append (layout.encode d.request) (read_bytes st d.request.iot_offset d.request.data_len),
  )
