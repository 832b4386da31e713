-- ===== src/Daemon/RoundTrip.antt =====
-- A write and a read of the kernel, on the whole path of both.
use privately_distributed_cl.Common.{
  ℕ, ◌+◌, ◌-◌, ◌*◌, ◌/◌, ◌%◌, ◌^◌, ◌≤◌, ◌<◌, ◌≡◌, ap, sym, ◌∙◌, arith, List, [], ◌∷◌, map, length,
  ok,
}
use privately_distributed_cl.Common.Memory.{Memory, read_bytes, read_bytes-congr}
use privately_distributed_cl.Common.Words.{uint32, size_of_int32, size_of_int32_nonneg}
use privately_distributed_cl.Common.Reorder.{Reorder}
use privately_distributed_cl.Atlas.{HeaderLayout, header_size}
use privately_distributed_cl.Nbd.{Request, code, read, write}
use privately_distributed_cl.Slicer.{DeviceRequest, fragment_size}
use privately_distributed_cl.Slicer.ClosedForm.{striped_requests}
use privately_distributed_cl.Slicer.Placement.{Fits, IsDistinct}
use privately_distributed_cl.Socket.{Stream}
use privately_distributed_cl.Sender.Streams.{bytes_to}
use privately_distributed_cl.Splicer.Counting.{completed}
use privately_distributed_cl.Disk.{disk, iot_of, offset_of}
use privately_distributed_cl.IotServer.{Server, serve}
use privately_distributed_cl.CommunicationManager.{splicer_raid, request_sender}
use privately_distributed_cl.Daemon.Callbacks.{callbacks, run_tasks, Answered, answer_of, task_of}
use privately_distributed_cl.Daemon.Device.{
  unsliced, DaemonState, sends_for, state_for, device_write,
}
use privately_distributed_cl.Daemon.DeviceRead.{device_read}

-- A part of an aligned request fits as the whole does.
part-Fits :
    (q w : Request) (fds : List ℕ) (rows : ℕ)
    → Fits (unsliced w fds) rows
    → w.from % fragment_size ≡ 0
    → q.from % fragment_size ≡ 0
    → w.len < 2 ^ 31
    → q.len < 2 ^ 31
    → w.from ≤ q.from
    → q.from + q.len / fragment_size * fragment_size
      ≤ w.from + w.len / fragment_size * fragment_size
    → Fits (unsliced q fds) rows
part-Fits q w fds rows fits w_aligned q_aligned w_short q_short since until =
    let same : size_of_int32 w.len / fragment_size ≡ w.len / fragment_size =
      ap (λ t. t / fragment_size) (size_of_int32_nonneg w.len w_short) in
    let mine : size_of_int32 q.len / fragment_size ≡ q.len / fragment_size =
      ap (λ t. t / fragment_size) (size_of_int32_nonneg q.len q_short) in
    let within : q.from / fragment_size + q.len / fragment_size
        ≤ w.from / fragment_size + w.len / fragment_size =
      omega (arith, until, w_aligned, q_aligned) in
    record {
      few = fits.few;
      inside = rw mine (omega (arith, within, fits.inside, same));
      addressable = fits.addressable;
    }

module _ (layout : HeaderLayout) (stream : Stream) (fds : List ℕ) (rows : ℕ)
    (distinct : IsDistinct fds) (pos : 0 < length fds) where
  -- The storage of the IoTs once their servers have worked off a write.
  module _ (w : Request) (m : DaemonState) (mem : Memory) (rounds : ℕ)
      (servers : ℕ → Server stream layout) (m_fds : m.raid.fds_vector ≡ fds)
      (fits : Fits (unsliced w fds) rows) (is_write : w.type ≡ code write)
      (aligned : w.from % fragment_size ≡ 0) (short : w.len < 2 ^ 31)
      (wired : (fd : ℕ)
        → stream.to_come (servers fd).conn ≡ bytes_to fd (sends_for layout w m mem).1)
      (enough : w.len / fragment_size ≤ rounds) where
    written_at :
        (p : ℕ)
        → w.from ≤ p
        → p < w.from + w.len / fragment_size * fragment_size
        → disk fds (λ fd. (serve stream layout rounds (servers fd)).storage) p
          ≡ mem (w.m_data + (p - w.from))
    written_at p ge lt =
        ap (λ (v : List ℕ). disk v (λ fd. (serve stream layout rounds (servers fd)).storage) p)
          (sym m_fds)
        ∙ (device_write layout stream w m mem rows rounds p servers (rw m_fds pos) (rw m_fds fits)
            (rw m_fds distinct) is_write aligned short wired enough
            (rw m_fds
              (omega (arith, lt, fits.inside, size_of_int32_nonneg w.len short, aligned)))).1
        ∙ ground (arith, ge, lt)

    -- A write that the kernel asks for is sent by its task and worked off by the server of each IoT: it is
    -- of less than 2 ^ 31 bytes, aligned and within the rows of the IoTs, over distinct sockets. Then let
    -- the kernel ask for a read of at least one fragment, aligned and within what the write covered; the
    -- servers, with the storage that the write left, work off what its task sends and have sent nothing
    -- else. The callbacks for the answers come in any order in which each socket has as many as answers,
    -- and the pool runs their tasks in any order. These succeed, the read is done once, and its buffer has
    -- the bytes that the buffer of the write had for this part of the device.
    pub device_reads_back :
        (q : Request) (m' : DaemonState) (reader : Memory) (rounds' : ℕ)
        (servers' : ℕ → Server stream layout) (conns : ℕ → stream.Conn) (header : List ℕ)
        (fresh : ℕ → List ℕ) {order : List ℕ} {ds ds' : List DeviceRequest}
        → m'.raid.fds_vector ≡ fds
        → ((fd : ℕ) → (servers' fd).storage ≡ (serve stream layout rounds (servers fd)).storage)
        → q.type ≡ code read
        → q.from % fragment_size ≡ 0
        → fragment_size ≤ q.len
        → w.from ≤ q.from
        → q.from + q.len / fragment_size * fragment_size
          ≤ w.from + w.len / fragment_size * fragment_size
        → ((fd : ℕ)
            → stream.to_come (servers' fd).conn ≡ bytes_to fd (sends_for layout q m' reader).1)
        → ((fd : ℕ) → (servers' fd).sent ≡ [])
        → q.len / fragment_size ≤ rounds'
        → ((fd : ℕ) → stream.to_come (conns fd) ≡ (serve stream layout rounds' (servers' fd)).sent)
        → length header ≡ header_size
        → ((n : ℕ) → length (fresh n) ≡ n)
        → Answered order
            (striped_requests m'.raid.request_counter (unsliced q m'.raid.fds_vector))
            ds
        → Reorder ds ds'
        → let st : ℕ → Memory = λ fd. (servers' fd).storage in
          let covered = q.len / fragment_size * fragment_size in
          ((callbacks stream layout header fresh order conns).0
            ≡ map task_of (map (answer_of st) ds))
          × ((out : DaemonState × List (ℕ × Request) × Memory) × (run_tasks splicer_raid
                  (request_sender layout)
                  (map task_of (map (answer_of st) ds'))
                  (state_for layout q m' reader)
                  reader
                ≡ ok out)
              × (completed (uint32 m'.raid.request_counter) out.1 ≡ q ∷ [])
              × (read_bytes out.2 q.m_data covered
                  ≡ read_bytes mem (w.m_data + (q.from - w.from)) covered))
    device_reads_back q m' reader rounds' servers' conns header fresh m'_fds stored is_read
          q_aligned some_fragment since until wired' silent enough' back whole ample come again =
        let st : ℕ → Memory = λ fd. (servers' fd).storage in
        let q_short : q.len < 2 ^ 31 = omega (arith, short, until, since) in
        let q_fits = part-Fits q w fds rows fits aligned q_aligned short q_short since until in
        let (_, made, (out, ran, dones, bytes)) =
          device_read layout stream q m' reader reader rows rounds' servers' conns header fresh
            (rw m'_fds pos) (rw m'_fds q_fits) is_read q_aligned q_short some_fragment wired' silent
            enough' back whole ample come again in
        (
          made,
          (
            out,
            ran,
            dones,
            bytes
                ∙ read_bytes-congr _ _ _ _ _ (λ k lt.
                  ap (λ (v : List ℕ). disk v st (q.from + k)) m'_fds
                  ∙ ap (λ (t : Memory). t (offset_of fds (q.from + k)))
                      (stored (iot_of fds (q.from + k)))
                  ∙ written_at (q.from + k) (omega (arith, since)) (omega (arith, lt, until))
                  ∙ ap mem (omega (arith, since))),
          ),
        )
