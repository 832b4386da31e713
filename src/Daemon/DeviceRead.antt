-- ===== src/Daemon/DeviceRead.antt =====
-- The whole path of a read: the daemon's task, the sockets, the servers of the IoTs, the callbacks for
-- their answers, and the tasks of those.
use privately_distributed_cl.Common.{
  ℕ, ◌*◌, ◌/◌, ◌%◌, ◌^◌, ◌≤◌, ◌<◌, ◌≡◌, refl, ap, ◌∙◌, arith, List, [], ◌∷◌, ◌++◌, map, length,
  none, some, ok, All, All-tabulate, inl,
}
use privately_distributed_cl.Common.Memory.{Memory, read_bytes}
use privately_distributed_cl.Common.Words.{uint32, size_of_int32, size_of_int32_nonneg}
use privately_distributed_cl.Common.Reorder.{Reorder, Reorder-All, length-Reorder, map-Reorder}
use privately_distributed_cl.Common.Dict.{find, nat_key}
use privately_distributed_cl.Atlas.{HeaderLayout, header_size}
use privately_distributed_cl.Nbd.{Request, code, read}
use privately_distributed_cl.Slicer.{Slicer, DeviceRequest, fragment_size}
use privately_distributed_cl.Slicer.ClosedForm.{striped_requests, sliced}
use privately_distributed_cl.Slicer.Placement.{Fits}
use privately_distributed_cl.Splicer.{Splicer, Reply, gone_with, reply_all, reply_to}
use privately_distributed_cl.Splicer
use privately_distributed_cl.Splicer.Requests.{slicer_for}
use privately_distributed_cl.Splicer.Counting.{completed, reply_all_inv, reply_all_nil}
use privately_distributed_cl.Socket.{Stream}
use privately_distributed_cl.Sender.Streams.{bytes_to, send_streams}
use privately_distributed_cl.Disk.{disk, replies}
use privately_distributed_cl.Disk.Read.{read_lem}
use privately_distributed_cl.IotServer.{Server, serve}
use privately_distributed_cl.IotServer.Exchange.{serve_lem}
use privately_distributed_cl.CommunicationManager.{Manager, splicer_raid, request_sender}
use privately_distributed_cl.CommunicationManager
use privately_distributed_cl.Daemon.{run_task, request_wrapper}
use privately_distributed_cl.Daemon.Callbacks.{
  callbacks, run_tasks, Answered, Answered-Reorder, answer_of, task_of,
}
use privately_distributed_cl.Daemon.Arrivals.{IsRead, callbacks_lem}
use privately_distributed_cl.Daemon.Answers.{
  answered-Reorder, answers-IsFragment, answers-length, answers-answered,
}
use privately_distributed_cl.Daemon.Device.{
  unsliced, DaemonState, sends_for, state_for, fragment-IsProper, striped-IsProper,
  request_task_runs, length-striped,
}

-- The task of an answer does what `Reply` does with it.
pub run_task-reply :
    (layout : HeaderLayout) (r : Reply) (m : DaemonState) (mem : Memory) {slicer : Slicer}
    → find r.atlas.request_uid m.raid.slicer_map ≡ some slicer
    → let out = reply_to r.atlas r.buffer slicer m.raid mem in
      run_task splicer_raid (request_sender layout) (task_of r) m mem
      ≡ ok (record m { raid = out.0 }, [], out.1, out.2)
unfolding run_task CommunicationManager.reply Splicer.reply
run_task-reply layout r m mem found =
    rw (run_task, CommunicationManager.reply, Splicer.reply, found) refl

run_tasks-reply_all :
    (layout : HeaderLayout) (rs : List Reply) (m : DaemonState) (mem : Memory) {sp : Splicer}
    {done : List (ℕ × Request)} {mem' : Memory}
    → reply_all rs m.raid mem ≡ ok (sp, done, mem')
    → run_tasks splicer_raid (request_sender layout) (map task_of rs) m mem
      ≡ ok (record m { raid = sp }, done, mem')
unfolding run_tasks
run_tasks-reply_all layout [] m mem e =
    let (same, empty, kept) = reply_all_nil m.raid mem e in rw (same, empty, kept) refl
run_tasks-reply_all layout (r ∷ rs) m mem e =
    let (slicer, found, (rest, next, done_is)) = reply_all_inv r rs m.raid mem e in
    let out = reply_to r.atlas r.buffer slicer m.raid mem in
    let ih = run_tasks-reply_all layout rs (record m { raid = out.0 }) out.2 next in
    rw (run_task-reply layout r m mem found, done_is, ih) refl

striped-IsRead :
    (counter : ℕ) (s : Slicer)
    → s.full_request.type ≡ code read
    → All IsRead (striped_requests counter s)
striped-IsRead counter s r =
    All-tabulate IsRead (size_of_int32 s.full_request.len / fragment_size) 0 _ λ k. (
      fragment-IsProper (sliced counter s) (s.full_request.from / fragment_size) k (inl r)
          (omega arith),
      r,
    )

-- What the servers have sent once they have worked off the task of a read.
answers-Holds :
    (layout : HeaderLayout) (stream : Stream) (q : Request) (m : DaemonState) (mem : Memory)
    (rounds : ℕ) (servers : ℕ → Server stream layout) (fd : ℕ)
    → q.type ≡ code read
    → q.len < 2 ^ 31
    → stream.to_come (servers fd).conn ≡ bytes_to fd (sends_for layout q m mem).1
    → (servers fd).sent ≡ []
    → q.len / fragment_size ≤ rounds
    → (serve stream layout rounds (servers fd)).sent
      ≡ replies layout mem fd
          (striped_requests m.raid.request_counter (unsliced q m.raid.fds_vector))
          (servers fd).storage
answers-Holds layout stream q m mem rounds servers fd r nonneg wired silent enough =
    let counter = m.raid.request_counter in
    let s = unsliced q m.raid.fds_vector in
    let ds = striped_requests counter s in
    let arrives = wired ∙ send_streams layout mem fd ds m.communication in
    let (_, sent) =
      serve_lem stream layout mem fd ds rounds (servers fd) (striped-IsProper counter s (inl r))
        (omega (arith, length-striped counter s, size_of_int32_nonneg q.len nonneg, enough))
        arrives in
    sent ∙ ap (λ t. t ++ replies layout mem fd ds (servers fd).storage) silent

-- Let the kernel ask for a read of at least one fragment and less than 2 ^ 31 bytes, aligned and within
-- the rows of the IoTs. Its task runs without a fault, and the server of each IoT, which has sent nothing
-- before, works off what the task sent on its socket. The callbacks for the answers come in any order in
-- which each socket has as many as answers; each makes the task of one answer. When the pool runs these
-- tasks in any order they succeed, the request is done once, and its buffer has the bytes of the whole
-- device from `from` on, as far as the fragments reach.
pub device_read :
    (layout : HeaderLayout) (stream : Stream) (q : Request) (m : DaemonState) (mem reader : Memory)
    (rows rounds : ℕ) (servers : ℕ → Server stream layout) (conns : ℕ → stream.Conn)
    (header : List ℕ) (fresh : ℕ → List ℕ) {order : List ℕ} {ds ds' : List DeviceRequest}
    → 0 < length m.raid.fds_vector
    → Fits (unsliced q m.raid.fds_vector) rows
    → q.type ≡ code read
    → q.from % fragment_size ≡ 0
    → q.len < 2 ^ 31
    → fragment_size ≤ q.len
    → ((fd : ℕ) → stream.to_come (servers fd).conn ≡ bytes_to fd (sends_for layout q m mem).1)
    → ((fd : ℕ) → (servers fd).sent ≡ [])
    → q.len / fragment_size ≤ rounds
    → ((fd : ℕ) → stream.to_come (conns fd) ≡ (serve stream layout rounds (servers fd)).sent)
    → length header ≡ header_size
    → ((n : ℕ) → length (fresh n) ≡ n)
    → Answered order (striped_requests m.raid.request_counter (unsliced q m.raid.fds_vector)) ds
    → Reorder ds ds'
    → let st : ℕ → Memory = λ fd. (servers fd).storage in
      let covered = q.len / fragment_size * fragment_size in
      (run_task splicer_raid (request_sender layout) (request_wrapper q) m mem
        ≡ ok (state_for layout q m mem, (sends_for layout q m mem).1, none, mem))
      × ((callbacks stream layout header fresh order conns).0 ≡ map task_of (map (answer_of st) ds))
      × ((out : DaemonState × List (ℕ × Request) × Memory) × (run_tasks splicer_raid
              (request_sender layout)
              (map task_of (map (answer_of st) ds'))
              (state_for layout q m mem)
              reader
            ≡ ok out)
          × (completed (uint32 m.raid.request_counter) out.1 ≡ q ∷ [])
          × (read_bytes out.2 q.m_data covered
              ≡ read_bytes (disk m.raid.fds_vector st) q.from covered))
device_read layout stream q m mem reader rows rounds servers conns header fresh {order} {ds} {ds'}
      pos fits r aligned nonneg some_fragment wired silent enough back whole ample come again =
    let st : ℕ → Memory = λ fd. (servers fd).storage in
    let s = unsliced q m.raid.fds_vector in
    let order1 = map-Reorder (answer_of st) (Answered-Reorder come) in
    let order2 = map-Reorder (answer_of st) again in
    let all-IsFragment = Reorder-All _ order2 (answers-IsFragment q m.raid st nonneg order1) in
    let mine : Fits (slicer_for q m.raid) rows = record {
      few = fits.few;
      inside = fits.inside;
      addressable = fits.addressable;
    } in
    let (_, _, (out, ran, _, dones, bytes)) =
      read_lem q m.raid rows st (map (answer_of st) ds') mine pos aligned nonneg all-IsFragment
        reader some_fragment (length-Reorder order2 ∙ answers-length q m.raid st nonneg order1)
        (λ i lt. answered-Reorder i order2 ∙ answers-answered q m.raid st nonneg order1 i lt) in
    (
      request_task_runs layout q m mem fits.few pos,
      callbacks_lem stream layout header fresh mem st whole ample conns come
          (striped-IsRead m.raid.request_counter s r)
          (λ fd.
            back fd
            ∙ answers-Holds layout stream q m mem rounds servers fd r nonneg (wired fd) (silent fd)
                enough),
      (
        (record (state_for layout q m mem) { raid = out.0 }, out.1, out.2),
        run_tasks-reply_all layout (map (answer_of st) ds') (state_for layout q m mem) reader ran,
        dones,
        bytes,
      ),
    )
