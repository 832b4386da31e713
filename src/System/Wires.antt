-- ===== src/System/Wires.antt =====
-- What is on the connections of a system: whole messages to the server, whole answers from it.
use privately_distributed_cl.Common.{
  ℕ, if◌then◌else◌, ◌==◌, ◌+◌, ◌≡◌, ◌≢◌, refl, sym, ap, ap₂, subst, ◌∙◌, arith, true, List, [], ◌∷◌,
  ◌++◌, if_yes, eq→==, drop, length, length-append, drop-append_left, All,
}
use privately_distributed_cl.Common.Memory.{Memory, read_bytes}
use privately_distributed_cl.Common.Sums.{sum_by, sum_by-append}
use privately_distributed_cl.Common.Reorder.{append-All}
use privately_distributed_cl.Atlas.{HeaderLayout, header_size}
use privately_distributed_cl.Nbd.{code, read}
use privately_distributed_cl.Slicer.{DeviceRequest}
use privately_distributed_cl.Sender.{sender}
use privately_distributed_cl.Sender.Streams.{bytes_to, message, sender-message}
use privately_distributed_cl.Disk.{perform, reply, IsProper}
use privately_distributed_cl.IotServer.{Server, serve_one}
use privately_distributed_cl.IotServer.Exchange.{message-Served}
use privately_distributed_cl.Daemon.{reply_wrapper, manage_replies}
use privately_distributed_cl.Daemon.Replies.{manage_replies_lem}
use privately_distributed_cl.System.{Network, Link, receive, answer}
pub use privately_distributed_cl.System.Messages.{Sent, message-pos, reply-pos}
unfoldable pub use privately_distributed_cl.System.Messages.{messages, answers}
use privately_distributed_cl.System.Messages.{messages-append, answers-append}

-- The buffer of the task of an answer.
abbrev pub buffer_for : (ℕ → List ℕ) → Memory → DeviceRequest → List ℕ
buffer_for fresh st d =
    if d.request.type == code read
    then read_bytes st d.request.iot_offset d.request.data_len
    else fresh d.request.data_len

-- A fragment on the connection of the socket that it is for.
abbrev pub IsProperSent : ℕ → Sent → Type 0
IsProperSent fd x = IsProper x.1 × x.1.device_fd ≡ fd

module _ (net : Network) (layout : HeaderLayout) where
  open net.stream use {Conn, to_come}

  pub record Wire (l : Link net layout) : Type 0 where
    pub out : List Sent
    pub back : List Sent
    pub out_there : to_come l.server.conn ≡ messages layout out
    pub back_there : to_come l.conn ≡ answers layout back
    pub out_IsProper : All (IsProperSent l.fd) out
    pub back_IsProper : All (IsProperSent l.fd) back

  -- The fragments on a wire, each with a number of its own.
  abbrev pub load : (Sent → ℕ) → (Sent → ℕ) → {l : Link net layout} → Wire l → ℕ
  load g h w = sum_by g w.out + sum_by h w.back

  no_messages :
      (fd : ℕ) (xs : List Sent) → messages layout xs ≡ [] → All (IsProperSent fd) xs → xs ≡ []
  unfolding messages
  no_messages fd [] e v = refl
  no_messages fd ((m, d) ∷ xs) e v = absurd (
      omega
        (arith, message-pos layout m d v.0.0, ap length e, length-append (message layout m d) _))

  no_answers :
      (fd : ℕ) (xs : List Sent) → answers layout xs ≡ [] → All (IsProperSent fd) xs → xs ≡ []
  unfolding answers
  no_answers fd [] e v = refl
  no_answers fd ((st, d) ∷ xs) e v =
      absurd (
        omega
          (arith, reply-pos layout st d v.0.0, ap length e, length-append (reply layout d st) _))

  -- On an empty connection there is no fragment.
  pub out_nil : {l : Link net layout} (w : Wire l) → to_come l.server.conn ≡ [] → w.out ≡ []
  out_nil w e = no_messages _ w.out (sym w.out_there ∙ e) w.out_IsProper

  pub back_nil : {l : Link net layout} (w : Wire l) → to_come l.conn ≡ [] → w.back ≡ []
  back_nil w e = no_answers _ w.back (sym w.back_there ∙ e) w.back_IsProper

  arrives_whole :
      (l : Link net layout) (mem : Memory) (d : DeviceRequest) (counter : ℕ) (out : List Sent)
      → to_come l.server.conn ≡ messages layout out
      → l.fd ≡ d.device_fd
      → to_come (receive net layout (bytes_to l.fd (sender layout mem d counter).1) l).server.conn
        ≡ messages layout (out ++ ((mem, d) ∷ []))
  unfolding receive
  arrives_whole l mem d counter out there mine =
      net.to_come-deliver l.server.conn (bytes_to l.fd (sender layout mem d counter).1)
      ∙ ap₂ ◌++◌ there (
          sender-message layout mem l.fd d counter
          ∙ if_yes (message layout mem d) [] (eq→== _ _ (sym mine)))
      ∙ sym (messages-append layout out mem d)

  -- A fragment that is sent to an IoT is the last one on its wire.
  pub receive-Wire :
      (l : Link net layout) (mem : Memory) (d : DeviceRequest) (counter : ℕ) (w : Wire l)
      → l.fd ≡ d.device_fd
      → IsProper d
      → (w' : Wire (receive net layout (bytes_to l.fd (sender layout mem d counter).1) l)) × ((g
            h : Sent → ℕ)
          → load g h w' ≡ load g h w + g (mem, d))
  unfolding receive
  receive-Wire l mem d counter w mine v = (
    record {
      out = w.out ++ ((mem, d) ∷ []);
      back = w.back;
      out_there = arrives_whole l mem d counter w.out w.out_there mine;
      back_there = w.back_there;
      out_IsProper =
          append-All (IsProperSent l.fd) w.out ((mem, d) ∷ []) w.out_IsProper ((v, sym mine), tt);
      back_IsProper = w.back_IsProper;
    },
    λ g h. omega (arith, sum_by-append g w.out ((mem, d) ∷ [])),
  )

  -- What is on the wire of a server after it took the first fragment and answered it, and its storage.
  abbrev pub Answered :
      (l : Link net layout) (out back : List Sent) → Server net.stream layout → Type 0
  Answered l out back server =
      (m : Memory) × (d : DeviceRequest) × (d.device_fd ≡ l.fd)
      × (server.storage ≡ perform m d l.server.storage)
      × ((w' : Wire (answer net layout server l)) × ((g h : Sent → ℕ)
            → load g h w' + g (m, d) ≡ sum_by g out + sum_by h back + h (l.server.storage, d)))

  abbrev pub Answers : (l : Link net layout) (out back : List Sent) → Type 0
  Answers l out back =
      (server : Server net.stream layout) × (serve_one net.stream layout l.server ≡ (true, server))
      × Answered l out back server

  serve_first :
      (l : Link net layout) (out back : List Sent)
      → to_come l.server.conn ≡ messages layout out
      → to_come l.conn ≡ answers layout back
      → All (IsProperSent l.fd) out
      → All (IsProperSent l.fd) back
      → to_come l.server.conn ≢ []
      → Answers l out back
  unfolding messages answer
  serve_first l [] back there back_there v w some_there = absurd (some_there there)
  serve_first l ((m, d) ∷ out) back there back_there v w some_there =
      let st = l.server.storage in
      let (server, step, left, stored, sent) =
        message-Served net.stream layout m l.server d (messages layout out) v.0.0 there in
      let new : drop (length l.server.sent) server.sent ≡ reply layout d st =
        ap (drop (length l.server.sent)) sent
        ∙ drop-append_left (length l.server.sent) l.server.sent (reply layout d st) refl in
      (
        server,
        step,
        (
          m,
          d,
          v.0.1,
          stored,
          (
            record {
              out = out;
              back = back ++ ((st, d) ∷ []);
              out_there = left;
              back_there =
                  net.to_come-deliver l.conn (drop (length l.server.sent) server.sent)
                  ∙ ap₂ ◌++◌ back_there new
                  ∙ sym (answers-append layout back st d);
              out_IsProper = v.1;
              back_IsProper = append-All (IsProperSent l.fd) back ((st, d) ∷ []) w (v.0, tt);
            },
            λ g h. omega (arith, sum_by-append h back ((st, d) ∷ [])),
          ),
        ),
      )

  pub serve-Wire :
      (l : Link net layout) (w : Wire l) → to_come l.server.conn ≢ [] → Answers l w.out w.back
  serve-Wire l w some_there =
      serve_first l w.out w.back w.out_there w.back_there w.out_IsProper w.back_IsProper some_there

  -- A server takes the first fragment on its wire, and the answer to it is the last one.
  pub served-Wire :
      (l : Link net layout) (w : Wire l) {server : Server net.stream layout}
      → to_come l.server.conn ≢ []
      → serve_one net.stream layout l.server ≡ (true, server)
      → Answered l w.out w.back server
  served-Wire l w {server} some_there step =
      let (server0, step0, answered) = serve-Wire l w some_there in
      let is : server0 ≡ server = cc in subst (Answered l w.out w.back) is answered

  -- `ManageReplies` takes the first answer on the wire of a socket.
  abbrev pub Takes :
      (l : Link net layout) (header : List ℕ) (fresh : ℕ → List ℕ) (out back : List Sent) → Type 0
  Takes l header fresh out back =
      (st : Memory) × (d : DeviceRequest) × (d.device_fd ≡ l.fd)
      × ((manage_replies net.stream layout header fresh l.conn).0
          ≡ reply_wrapper d.request (buffer_for fresh st d))
      × ((w' : Wire (record l { conn = (manage_replies net.stream layout header fresh l.conn).1 }))
          × ((g h : Sent → ℕ) → load g h w' + h (st, d) ≡ sum_by g out + sum_by h back))

  take_first :
      (l : Link net layout) (header : List ℕ) (fresh : ℕ → List ℕ) (out back : List Sent)
      → to_come l.server.conn ≡ messages layout out
      → to_come l.conn ≡ answers layout back
      → All (IsProperSent l.fd) out
      → All (IsProperSent l.fd) back
      → length header ≡ header_size
      → ((n : ℕ) → length (fresh n) ≡ n)
      → to_come l.conn ≢ []
      → Takes l header fresh out back
  unfolding answers
  take_first l header fresh out [] out_there there v w whole ample some_there =
      absurd (some_there there)
  take_first l header fresh out ((st, d) ∷ back) out_there there v w whole ample some_there =
      let (made, left) =
        manage_replies_lem net.stream layout header fresh l.conn d st (answers layout back) w.0.0
          whole (ample d.request.data_len) there in
      (
        st,
        d,
        w.0.1,
        made,
        (
          record {
            out = out;
            back = back;
            out_there = out_there;
            back_there = left;
            out_IsProper = v;
            back_IsProper = w.1;
          },
          λ g h. omega arith,
        ),
      )

  pub take-Wire :
      (l : Link net layout) (header : List ℕ) (fresh : ℕ → List ℕ) (w : Wire l)
      → length header ≡ header_size
      → ((n : ℕ) → length (fresh n) ≡ n)
      → to_come l.conn ≢ []
      → Takes l header fresh w.out w.back
  take-Wire l header fresh w whole ample some_there =
      take_first l header fresh w.out w.back w.out_there w.back_there w.out_IsProper w.back_IsProper
        whole ample some_there
