-- ===== src/Daemon/Replies.antt =====
-- `ManageReplies` at the end of a socket on which an IoT answers.
use privately_distributed_cl.Common.{
  ℕ, zero, suc, eq→==, ne→==, ◌≢◌, inl, inr, ◌≡◌, refl, sym, ap, ◌∙◌, arith, List, [], ◌∷◌, ◌++◌,
  drop, length, ◌==◌, if◌then◌else◌, if_yes, if_no,
}
use native.Mathlib.Decide.{ℕ_discrete}
use mathlib.Core.List.{append_assoc, append-nil}
use privately_distributed_cl.Common.Memory.{Memory, read_bytes, length-read_bytes}
use privately_distributed_cl.Atlas.{AtlasHeader, HeaderLayout, IsWords, header_size}
use privately_distributed_cl.Nbd.{code, read}
use privately_distributed_cl.Slicer.{DeviceRequest}
use privately_distributed_cl.Socket.{Stream, read_all}
use privately_distributed_cl.Socket.ReadAll.{read_all-append}
use privately_distributed_cl.Disk.{reply, IsProper}
use privately_distributed_cl.Daemon.{Task, reply_wrapper, over, manage_replies}

drop_all : (xs : List ℕ) (n : ℕ) → length xs ≡ n → drop n xs ≡ []
drop_all [] zero e = refl
drop_all [] (suc n) e = refl
drop_all (x ∷ xs) zero e = absurd (omega arith)
drop_all (x ∷ xs) (suc n) e = drop_all xs n (omega arith)

over_whole : (bytes buffer : List ℕ) → length buffer ≡ length bytes → over bytes buffer ≡ bytes
over_whole bytes buffer e =
    ap (λ t. bytes ++ t) (drop_all buffer (length bytes) e) ∙ append-nil bytes

module _ (stream : Stream) (layout : HeaderLayout) (header : List ℕ) (fresh : ℕ → List ℕ) where
  open stream use {Conn, to_come}

  -- The header as `ManageReplies` finds it on its stack.
  abbrev atlas_of : Conn → AtlasHeader
  atlas_of c = layout.decode (over (read_all stream c header_size).bytes header)

  header_arrives :
      (c : Conn) (h : AtlasHeader) (more : List ℕ)
      → IsWords h
      → length header ≡ header_size
      → to_come c ≡ layout.encode h ++ more
      → (atlas_of c ≡ h) × (to_come (read_all stream c header_size).conn ≡ more)
  header_arrives c h more w whole e =
      let (_, bytes, left) =
        rw (layout.length-encode h) at (read_all-append stream c (layout.encode h) more e) in
      (
        ap (λ b. layout.decode (over b header)) bytes
            ∙ ap layout.decode
                (over_whole (layout.encode h) header (whole ∙ sym (layout.length-encode h)))
            ∙ layout.decode-encode h w,
        left,
      )

  task_for_read :
      (c : Conn) (h : AtlasHeader)
      → atlas_of c ≡ h
      → h.type ≡ code read
      → let body = read_all stream (read_all stream c header_size).conn h.data_len in
        manage_replies stream layout header fresh c
        ≡ (reply_wrapper h (over body.bytes (fresh h.data_len)), body.conn)
  unfolding manage_replies
  task_for_read c h e r = rw e (if_yes _ _ (eq→== _ _ r))

  task_for_other :
      (c : Conn) (h : AtlasHeader)
      → atlas_of c ≡ h
      → h.type ≢ code read
      → manage_replies stream layout header fresh c
        ≡ (reply_wrapper h (fresh h.data_len), (read_all stream c header_size).conn)
  unfolding manage_replies
  task_for_other c h e r = rw e (if_no _ _ (ne→== _ _ r))

  -- Whatever it finds, it makes the task of a reply.
  pub makes_reply :
      (c : Conn)
      → (atlas : AtlasHeader) × (buffer : List ℕ) × ((manage_replies stream layout header fresh c).0
          ≡ reply_wrapper atlas buffer)
  makes_reply c = elim (ℕ_discrete (atlas_of c).type (code read)) [
    | yes r ↦ (_, _, ap (λ (t : Task × Conn). t.0) (task_for_read c (atlas_of c) refl r))
    | no other ↦ (_, _, ap (λ (t : Task × Conn). t.0) (task_for_other c (atlas_of c) refl other))
  ]

  -- The answer of an IoT to a read or a write becomes a task with the header of the request. For a
  -- read the task has just the bytes of the IoT's storage; for a write, whatever `new` gave. What
  -- is behind the answer on the socket is left for the next callback.
  pub manage_replies_lem :
      (c : Conn) (d : DeviceRequest) (storage : Memory) (rest : List ℕ)
      → IsProper d
      → length header ≡ header_size
      → length (fresh d.request.data_len) ≡ d.request.data_len
      → to_come c ≡ reply layout d storage ++ rest
      → let (task, c') = manage_replies stream layout header fresh c in
        (task
          ≡ reply_wrapper d.request (
              if d.request.type == code read
              then read_bytes storage d.request.iot_offset d.request.data_len
              else fresh d.request.data_len))
        × (to_come c' ≡ rest)
  unfolding reply
  manage_replies_lem c d storage rest v whole ample e = elim v.kind [
    | inl r ↦
        let stored = read_bytes storage d.request.iot_offset d.request.data_len in
        let answer : reply layout d storage ≡ layout.encode d.request ++ stored = ground arith in
        let (here, more) =
          header_arrives c d.request (stored ++ rest) v.words whole
            (e ∙ ap (λ t. t ++ rest) answer ∙ append_assoc (layout.encode d.request) stored rest) in
        let (_, bytes, left) =
          rw (length-read_bytes storage d.request.iot_offset d.request.data_len) at
            (read_all-append stream (read_all stream c header_size).conn stored rest more) in
        rw (task_for_read c d.request here r) (
          ap (reply_wrapper d.request) (
              ap (λ b. over b (fresh d.request.data_len)) bytes
              ∙ over_whole stored (fresh d.request.data_len)
                  (ample ∙ sym (length-read_bytes storage d.request.iot_offset d.request.data_len))
              ∙ sym (if_yes _ _ (eq→== _ _ r))),
          left,
        )
    | inr r ↦
        let other : d.request.type ≢ code read = λ z. omega arith in
        let answer : reply layout d storage ≡ layout.encode d.request = ground arith in
        let (here, more) =
          header_arrives c d.request rest v.words whole (e ∙ ap (λ t. t ++ rest) answer) in
        rw (task_for_other c d.request here other)
          (ap (reply_wrapper d.request) (sym (if_no _ _ (ne→== _ _ other))), more)
  ]
