-- ===== src/Daemon/Arrivals.antt =====
-- The tasks that the callbacks make of the answers of all IoTs.
use privately_distributed_cl.Common.{
  ℕ, ◌≡◌, ◌≢◌, refl, sym, ap, ap₂, ◌∙◌, arith, List, [], ◌∷◌, ◌++◌, map, length, ◌==◌, eq→==, ne→==,
  if◌then◌else◌, if_yes, All, Bool-cases, inl, inr, ==_iff, subst,
}
use privately_distributed_cl.Common.Memory.{Memory, read_bytes}
use privately_distributed_cl.Common.Reorder.{All-append, append-All}
use privately_distributed_cl.Atlas.{HeaderLayout, header_size}
use privately_distributed_cl.Nbd.{code, read}
use privately_distributed_cl.Slicer.{DeviceRequest}
use privately_distributed_cl.Socket.{Stream}
use privately_distributed_cl.Disk.{perform, reply, replies, IsProper}
use privately_distributed_cl.Daemon.{reply_wrapper, manage_replies}
use privately_distributed_cl.Daemon.Replies.{manage_replies_lem}
use privately_distributed_cl.Daemon.Callbacks.{
  set_conn, callbacks, Answered, all_done, next_of, answer_of, task_of,
}

abbrev pub IsRead : DeviceRequest → Type 0
IsRead d = IsProper d × d.request.type ≡ code read

perform-read :
    (mem : Memory) (d : DeviceRequest) (storage : Memory)
    → d.request.type ≡ code read
    → perform mem d storage ≡ storage
unfolding perform
perform-read mem d storage e = ground arith

module _ (layout : HeaderLayout) (mem : Memory) where
  -- The answers on the socket of the next one: it, and then the others.
  replies-mine :
      (fd : ℕ) (xs ys : List DeviceRequest) (d : DeviceRequest) (storage : Memory)
      → All (λ x. x.device_fd ≢ fd) xs
      → d.device_fd ≡ fd
      → d.request.type ≡ code read
      → replies layout mem fd (xs ++ (d ∷ ys)) storage
        ≡ reply layout d storage ++ replies layout mem fd (xs ++ ys) storage
  unfolding replies
  replies-mine fd [] ys d storage first mine r =
      rw (eq→== d.device_fd fd mine, perform-read mem d storage r) refl
  replies-mine fd (x ∷ xs) ys d storage first mine r =
      rw (ne→== x.device_fd fd first.0) (replies-mine fd xs ys d storage first.1 mine r)

  -- The answers on another socket.
  replies-other :
      (fd : ℕ) (xs ys : List DeviceRequest) (d : DeviceRequest) (storage : Memory)
      → d.device_fd ≢ fd
      → replies layout mem fd (xs ++ (d ∷ ys)) storage ≡ replies layout mem fd (xs ++ ys) storage
  unfolding replies
  replies-other fd [] ys d storage other = rw (ne→== d.device_fd fd other) refl
  replies-other fd (x ∷ xs) ys d storage other =
      ap (λ t. (if x.device_fd == fd then reply layout x storage else []) ++ t)
        (replies-other fd xs ys d _ other)

module _ (stream : Stream) (layout : HeaderLayout) (header : List ℕ) (fresh : ℕ → List ℕ)
    (mem : Memory) (storages : ℕ → Memory) (whole : length header ≡ header_size)
    (ample : (n : ℕ) → length (fresh n) ≡ n) where
  open stream use {Conn, to_come}

  -- The sockets hold the answers to the requests that are left.
  abbrev pub Holds : (ℕ → Conn) → List DeviceRequest → Type 0
  Holds conns left = (fd : ℕ) → to_come (conns fd) ≡ replies layout mem fd left (storages fd)

  set_conn-Holds :
      (conns : ℕ → Conn) (c : Conn) (fd : ℕ) (xs ys : List DeviceRequest) (d : DeviceRequest)
      → Holds conns (xs ++ (d ∷ ys))
      → d.device_fd ≡ fd
      → to_come c ≡ replies layout mem fd (xs ++ ys) (storages fd)
      → Holds (set_conn fd c conns) (xs ++ ys)
  unfolding set_conn
  set_conn-Holds conns c fd xs ys d holds mine left x = elim (Bool-cases (fd == x)) [
    | inl e ↦ rw e (
        subst (λ k. to_come c ≡ replies layout mem k (xs ++ ys) (storages k)) ((==_iff fd x).0 e)
          left)
    | inr e ↦ rw e (
        holds x ∙ replies-other layout mem x xs ys d (storages x) (λ p. ground (arith, p, mine, e)))
  ]

  -- Each callback makes the task of the answer that it finds.
  pub callbacks_lem :
      {fds : List ℕ} {left ds : List DeviceRequest} (conns : ℕ → Conn)
      → Answered fds left ds
      → All IsRead left
      → Holds conns left
      → (callbacks stream layout header fresh fds conns).0
        ≡ map task_of (map (answer_of storages) ds)
  unfolding callbacks
  callbacks_lem conns all_done v holds = refl
  callbacks_lem conns (next_of fd xs ys d {fds} first mine rest) v holds =
      let (before, (dv, after)) = All-append IsRead xs (d ∷ ys) v in
      let (task_is, left) =
        manage_replies_lem stream layout header fresh (conns fd) d (storages fd)
          (replies layout mem fd (xs ++ ys) (storages fd)) dv.0 whole (ample d.request.data_len)
          (holds fd ∙ replies-mine layout mem fd xs ys d (storages fd) first mine dv.1) in
      let made : (manage_replies stream layout header fresh (conns fd)).0
          ≡ task_of (answer_of storages d) =
        task_is
        ∙ ap (reply_wrapper d.request) (
            if_yes _ _ (eq→== _ _ dv.1)
            ∙ ap (λ k. read_bytes (storages k) d.request.iot_offset d.request.data_len)
                (sym mine)) in
      ap₂ ◌∷◌ made (
        callbacks_lem (set_conn fd (manage_replies stream layout header fresh (conns fd)).1 conns)
          rest (append-All IsRead xs ys before after)
          (set_conn-Holds conns _ fd xs ys d holds mine left))
