-- ===== src/IotServer/Exchange.antt =====
-- The server of an IoT at the other end of a stream that the daemon writes.
use privately_distributed_cl.Common.{
  ℕ, zero, suc, ◌≤◌, ◌≡◌, refl, sym, ap, ap₂, ◌∙◌, arith, true, false, List, [], ◌∷◌, ◌++◌, ◌==◌,
  length, All, Bool-cases, inl, inr,
}
use mathlib.Core.List.{append_assoc, append-nil}
use privately_distributed_cl.Common.Memory.{Memory, read_bytes, write_bytes, length-read_bytes}
use privately_distributed_cl.Atlas.{AtlasHeader, HeaderLayout, IsWords, header_size}
use privately_distributed_cl.Nbd.{code, read, write}
use privately_distributed_cl.Slicer.{DeviceRequest}
use privately_distributed_cl.Socket.{Stream, error, read_all}
use privately_distributed_cl.Socket.ReadAll.{read_all_lem, read_all-append, status_of}
use privately_distributed_cl.Sender.Streams.{message, messages_to}
use privately_distributed_cl.Disk.{perform, perform_all, reply, replies, IsProper}
use privately_distributed_cl.IotServer.{Server, serve_one, serve, handle}

module _ (stream : Stream) (layout : HeaderLayout) where
  open stream use {to_come}

  header_read :
      (s : Server stream layout) (h : AtlasHeader) (rest : List ℕ)
      → IsWords h
      → to_come s.conn ≡ layout.encode h ++ rest
      → (c : stream.Conn) × (to_come c ≡ rest)
        × (serve_one stream layout s ≡ (true, handle stream layout h (record s { conn = c })))
  unfolding serve_one
  header_read s h rest w e =
      let (good, bytes, left) =
        rw (layout.length-encode h) at (read_all-append stream s.conn (layout.encode h) rest e) in
      (_, left, rw (good, serve_one) (rw (bytes, layout.decode-encode h w)))

  header_missing :
      (s : Server stream layout)
      → to_come s.conn ≡ []
      → (c : stream.Conn) × (serve_one stream layout s ≡ (false, record s { conn = c }))
  unfolding serve_one
  header_missing s e =
      let (bad, _, _) = read_all_lem stream s.conn header_size in
      let failed : status_of header_size (to_come s.conn) ≡ error = ap (status_of header_size) e in
      ((read_all stream s.conn header_size).conn, rw (bad ∙ failed, serve_one))

  -- A server at the end of its stream stops, with its storage and what it sent as they were.
  serve-at_end :
      (rounds : ℕ) (s : Server stream layout)
      → to_come s.conn ≡ []
      → ((serve stream layout rounds s).storage ≡ s.storage)
        × ((serve stream layout rounds s).sent ≡ s.sent)
  unfolding serve
  serve-at_end zero s e = (refl, refl)
  serve-at_end (suc rounds) s e =
      let (c, stop) = header_missing s e in (ground (arith, stop), ground (arith, stop))

  serve-step :
      (rounds : ℕ) (s s' : Server stream layout)
      → serve_one stream layout s ≡ (true, s')
      → serve stream layout (suc rounds) s ≡ serve stream layout rounds s'
  unfolding serve
  serve-step rounds s s' e = ground (arith, e)

  handle-read :
      (h : AtlasHeader) (s : Server stream layout)
      → h.type ≡ code read
      → ((handle stream layout h s).conn ≡ s.conn)
        × ((handle stream layout h s).storage ≡ s.storage)
        × ((handle stream layout h s).sent
            ≡ s.sent ++ (layout.encode h ++ read_bytes s.storage h.iot_offset h.data_len))
  unfolding handle
  handle-read h s r = ground arith

  handle-write :
      (h : AtlasHeader) (s : Server stream layout) (payload rest : List ℕ)
      → h.type ≡ code write
      → length payload ≡ h.data_len
      → to_come s.conn ≡ payload ++ rest
      → (to_come (handle stream layout h s).conn ≡ rest)
        × ((handle stream layout h s).storage ≡ write_bytes s.storage h.iot_offset payload)
        × ((handle stream layout h s).sent ≡ s.sent ++ layout.encode h)
  unfolding handle
  handle-write h s payload rest r len e =
      let (good, bytes, past) = rw len at (read_all-append stream s.conn payload rest e) in
      (ground (arith, good, past), ground (arith, good, bytes), ground (arith, good))

  module _ (mem : Memory) where
    -- What one round makes of a message that is the next on the stream.
    abbrev pub Served : Server stream layout → DeviceRequest → List ℕ → Type 0
    Served s d rest =
        (s' : Server stream layout) × (serve_one stream layout s ≡ (true, s'))
        × (to_come s'.conn ≡ rest)
        × (s'.storage ≡ perform mem d s.storage)
        × (s'.sent ≡ s.sent ++ reply layout d s.storage)

    read-Served :
        (s : Server stream layout) (d : DeviceRequest) (rest : List ℕ)
        → IsWords d.request
        → d.request.type ≡ code read
        → to_come s.conn ≡ message layout mem d ++ rest
        → Served s d rest
    unfolding message perform reply
    read-Served s d rest w r e =
        let m : message layout mem d ≡ layout.encode d.request = ground arith in
        let (c, left, step) = header_read s d.request rest w (e ∙ ap (λ t. t ++ rest) m) in
        let (conn, storage, sent) = handle-read d.request (record s { conn = c }) r in
        (_, step, ap to_come conn ∙ left, storage ∙ ground arith, sent ∙ ground arith)

    write-Served :
        (s : Server stream layout) (d : DeviceRequest) (rest : List ℕ)
        → IsWords d.request
        → d.request.type ≡ code write
        → to_come s.conn ≡ message layout mem d ++ rest
        → Served s d rest
    unfolding message perform reply
    write-Served s d rest w r e =
        let payload = read_bytes mem d.m_data d.request.data_len in
        let m : message layout mem d ≡ layout.encode d.request ++ payload = ground arith in
        let (c, left, step) =
          header_read s d.request (payload ++ rest) w
            (e ∙ ap (λ t. t ++ rest) m ∙ append_assoc (layout.encode d.request) payload rest) in
        let (past, storage, sent) =
          handle-write d.request (record s { conn = c }) payload rest r
            (length-read_bytes mem d.m_data d.request.data_len) left in
        (_, step, past, storage ∙ ground arith, sent ∙ ground arith)

    pub message-Served :
        (s : Server stream layout) (d : DeviceRequest) (rest : List ℕ)
        → IsProper d
        → to_come s.conn ≡ message layout mem d ++ rest
        → Served s d rest
    message-Served s d rest v e = elim v.kind [
      | inl r ↦ read-Served s d rest v.words r e
      | inr r ↦ write-Served s d rest v.words r e
    ]

    -- The server at the other end of a socket on which the daemon sent some reads and writes, whose fields
    -- fit, performs those for it in order, and answers them in order, in at least as many rounds as
    -- there are requests.
    pub serve_lem :
        (fd : ℕ) (ds : List DeviceRequest) (rounds : ℕ) (s : Server stream layout)
        → All IsProper ds
        → length ds ≤ rounds
        → to_come s.conn ≡ messages_to layout mem fd ds
        → ((serve stream layout rounds s).storage ≡ perform_all mem fd ds s.storage)
          × ((serve stream layout rounds s).sent ≡ s.sent ++ replies layout mem fd ds s.storage)
    unfolding messages_to perform_all replies
    serve_lem fd [] rounds s v h e =
        let (storage, sent) = serve-at_end rounds s e in (storage, sent ∙ sym (append-nil s.sent))
    serve_lem fd (d ∷ ds) zero s v h e = absurd (omega arith)
    serve_lem fd (d ∷ ds) (suc rounds) s v h e = elim (Bool-cases (d.device_fd == fd)) [
      | inr other ↦ rw other (serve_lem fd ds (suc rounds) s v.1 (omega arith) (rw other at e))
      | inl mine ↦
          let (s', step, left, storage, sent) =
            message-Served s d (messages_to layout mem fd ds) v.0 (rw mine at e) in
          let (storage', sent') = serve_lem fd ds rounds s' v.1 (omega arith) left in
          let go = serve-step rounds s s' step in
          rw mine (
            ap (λ t. t.storage) go ∙ storage' ∙ ap (perform_all mem fd ds) storage,
            ap (λ t. t.sent) go
                ∙ sent'
                ∙ ap₂ (λ t u. t ++ replies layout mem fd ds u) sent storage
                ∙ append_assoc s.sent (reply layout d s.storage)
                    (replies layout mem fd ds (perform mem d s.storage)),
          )
    ]
