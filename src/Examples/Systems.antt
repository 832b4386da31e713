-- ===== src/Examples/Systems.antt =====
-- A read of one fragment, from its arrival to its answer, over one IoT.
mod Deliveries
use privately_distributed_cl.Common.{
  ℕ, ◌+◌, ◌≤◌, ◌≡◌, ◌≢◌, ◌⊎◌, refl, true, List, [], ◌∷◌, ◌++◌, ◌∙◌, All, arith, inl, some, sym, ap,
  length, length-append, ◌*◌,
}
use privately_distributed_cl.Common.Sums.{sum_by}
use privately_distributed_cl.IotServer.{Server, serve_one, start as start_server}
use privately_distributed_cl.Splicer.Registry.{entered}
use privately_distributed_cl.System.Start.{IsQuiet}
use privately_distributed_cl.System.Accounts.{asked_by, answered_of, requests_conserved}
use privately_distributed_cl.System.Progress.{CanStep, with_fragments, run_goes_on}
use privately_distributed_cl.Nbd.{Request}
use privately_distributed_cl.Atlas.LittleEndian.{little_endian}
use privately_distributed_cl.Socket.Segments.{segments, join, deliver_segment, join-deliver_segment}
use privately_distributed_cl.Sender.{RequestSender, sender as sender_sends}
use privately_distributed_cl.Sender.Streams.{bytes_to, message, sender-message}
use privately_distributed_cl.Disk.{perform, reply, IsProper}
use mathlib.Core.List.{append-nil}
use privately_distributed_cl.Atlas.{AtlasHeader}
use privately_distributed_cl.IotServer.Exchange.{message-Served}
use privately_distributed_cl.Daemon.Replies.{makes_reply}
use privately_distributed_cl.System.Wires.{message-pos, reply-pos}
use privately_distributed_cl.System.Copies.{copies_in_bounds}
use privately_distributed_cl.Common.Words.{uint32, size_of_int32}
use privately_distributed_cl.Examples.Devices.{zeros}
use privately_distributed_cl.Examples.Reads.{length-zeros}
use privately_distributed_cl.Common.Dict.{find, find_missing, find-assign, nat_key}
use privately_distributed_cl.Slicer.{Slicer, DeviceRequest}
use privately_distributed_cl.Slicer.ClosedForm.{striped}
use privately_distributed_cl.Splicer
use privately_distributed_cl.Splicer.{new_splicer}
use privately_distributed_cl.Splicer.Requests.{request_ok, slicer_for}
use privately_distributed_cl.Daemon.{reply_wrapper, manage_requests, manage_replies}
use privately_distributed_cl.System.{
  Network, Iot, Link, link_of, receive, answer, serves, collects, State, start, Run, at_start,
  one_arrives, one_step, arrives, starts, sends,
}
use privately_distributed_cl.Examples.{host}

abbrev pub net : Network
net = record {
  stream = segments;
  deliver = deliver_segment;
  to_come-deliver = join-deliver_segment;
}

abbrev first : Iot net little_endian
first = record { fd = 5; server_end = []; daemon_end = [] }

abbrev pub iots : List (Iot net little_endian)
iots = first ∷ []

abbrev pub sender : RequestSender
sender = record { fds = []; counter = 0 }

abbrev pub request : Request
request = record { from = 0; m_data = 100; len = 1024; type = 0 }

abbrev pub begin : State net little_endian
begin = start net little_endian iots sender host 0

abbrev pub fragment : DeviceRequest
fragment = striped (slicer_for request begin.manager.raid) 0 0

-- The request arrives, its task is started, and its fragment is sent.
abbrev pub run : (s : State net little_endian) × Run net little_endian begin 2 (request ∷ []) s
unfolding start new_splicer manage_requests Splicer.get_vector
run = (
  _,
  one_step
      (one_step (one_arrives at_start (arrives request host (inl refl) (omega arith))) (
        starts [] [] request refl (find_missing {V = Slicer} 0)
          (request_ok request (new_splicer (5 ∷ []) 0) (omega arith) (omega arith))))
      (sends [] [] fragment [] [] [] (link_of net little_endian first) refl refl refl),
)

pub iots-IsQuiet : All (IsQuiet net little_endian) iots
unfolding join
iots-IsQuiet = ((refl, refl), tt)

abbrev sent : State net little_endian
sent = run.0

-- The request is in the map.
requests_conserved_example :
    1024
    ≡ sum_by (asked_by (λ q. q.len)) sent.tasks
      + entered (λ q. q.len) sent.manager.raid
      + sum_by (answered_of (λ q. q.len)) sent.done
requests_conserved_example =
    requests_conserved net little_endian (λ q. q.len) iots sender host 0 (omega arith) (omega arith)
      iots-IsQuiet run.1

run_goes_on_example :
    (2 ≤ 5)
    × (CanStep net little_endian sent
        ⊎ ((◌≡◌ {A = ℕ} 2 5)
            × ((p : Request → ℕ)
                → sum_by (with_fragments p) (request ∷ [])
                  ≡ sum_by (answered_of (with_fragments p)) sent.done)))
unfolding start new_splicer run
run_goes_on_example =
    run_goes_on net little_endian iots sender host 0 (omega arith) (omega arith) iots-IsQuiet run.1
      (find-assign 0 1 (slicer_for request begin.manager.raid) [] ∙ find_missing {V = Slicer} 1)

-- The link after the fragment was sent, and after its server has answered.
abbrev pub bytes : List ℕ
bytes = bytes_to 5 (sender_sends little_endian host fragment 0).1

abbrev pub waiting : Link net little_endian
waiting = receive net little_endian bytes (link_of net little_endian first)

pub sent-there : segments.to_come waiting.server.conn ≡ message little_endian host fragment ++ []
unfolding receive start_server start new_splicer join
sent-there =
    join-deliver_segment [] bytes
    ∙ sender-message little_endian host 5 fragment 0
    ∙ sym (append-nil (message little_endian host fragment))

pub fragment-IsProper : IsProper fragment
unfolding start new_splicer
fragment-IsProper = record {
  words = record {
    request_uid = omega arith;
    fragment_idx = omega arith;
    alarm_uid = omega arith;
    iot_offset = omega arith;
    type = omega arith;
    data_len = omega arith;
  };
  kind = inl refl;
}

abbrev pub served :
    (server : Server segments little_endian) × (serve_one segments little_endian waiting.server
      ≡ (true, server))
    × (segments.to_come server.conn ≡ [])
    × (server.storage ≡ perform host fragment waiting.server.storage)
    × (server.sent ≡ waiting.server.sent ++ reply little_endian fragment waiting.server.storage)
served =
    message-Served segments little_endian host waiting.server fragment [] fragment-IsProper
      sent-there

abbrev pub answering : Link net little_endian
answering = answer net little_endian served.0 waiting

pub answer-there : segments.to_come answering.conn ≢ []
unfolding answer receive start_server join
answer-there e = absurd (
    omega (
      arith,
      reply-pos little_endian waiting.server.storage fragment fragment-IsProper,
      ap length (sym served.4),
      ap length (sym (join-deliver_segment [] served.0.sent) ∙ e),
    ))

pub sent-some : segments.to_come waiting.server.conn ≢ []
sent-some e = absurd (
    omega (
      arith,
      message-pos little_endian host fragment fragment-IsProper,
      ap length (sym sent-there ∙ e),
      length-append (message little_endian host fragment) [],
    ))

-- The server answers, and the callback makes the task of the answer.
abbrev pub longer : (s : State net little_endian) × Run net little_endian begin 4 (request ∷ []) s
unfolding start new_splicer run
longer = (
  _,
  one_step (one_step run.1 (serves [] [] waiting refl sent-some served.1))
      (collects [] [] answering (zeros 24) zeros refl answer-there (length-zeros 24) length-zeros),
)

abbrev made :
    (atlas : AtlasHeader) × (buffer : List ℕ) × ((manage_replies segments little_endian
        (zeros 24)
        zeros
        answering.conn).0
      ≡ reply_wrapper atlas buffer)
made = makes_reply segments little_endian (zeros 24) zeros answering.conn

copies_in_bounds_example :
    (slicer : Slicer) × (find made.0.request_uid longer.0.manager.raid.slicer_map ≡ some slicer)
    × (length made.1 ≡ made.0.data_len)
    × (uint32 (made.0.data_len * made.0.fragment_idx) + made.0.data_len ≤ slicer.full_request.len)
unfolding longer run
copies_in_bounds_example =
    copies_in_bounds net little_endian iots sender host 0 [] [] made.0 made.1 (omega arith)
      (omega arith) iots-IsQuiet longer.1 (omega arith, tt) (ap (λ t. t ∷ []) made.2)
