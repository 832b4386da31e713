-- ===== src/Examples/Systems/Deliveries.antt =====
-- A read of one fragment, up to the end, at its byte 3.
use privately_distributed_cl.Common.{
  ℕ, ◌≡◌, ◌<◌, refl, sym, ap, ◌∙◌, arith, List, [], ◌∷◌, ◌++◌, inl, some,
}
use privately_distributed_cl.Common.Memory.{read_bytes}
use privately_distributed_cl.Common.Dict.{find, find_missing, find-assign, nat_key}
use privately_distributed_cl.Common.Sums.{sum_by}
use privately_distributed_cl.Atlas.LittleEndian.{little_endian}
use privately_distributed_cl.Nbd.{Request}
use privately_distributed_cl.Socket.Segments.{segments, join, join-deliver_segment}
use privately_distributed_cl.Slicer.{Slicer}
use privately_distributed_cl.Slicer.Placement.{IsDistinct}
use privately_distributed_cl.Splicer.{Reply, gone_with, new_splicer}
use privately_distributed_cl.Splicer.Requests.{slicer_for}
use privately_distributed_cl.Splicer.Registry.{requested-entered}
use privately_distributed_cl.Splicer.Replied.{replied-entered, last_one}
use privately_distributed_cl.Disk.{reply}
use mathlib.Core.List.{append-nil}
use privately_distributed_cl.IotServer.{start as start_server}
use privately_distributed_cl.Daemon.{reply_wrapper, manage_replies}
use privately_distributed_cl.Daemon.Replies.{manage_replies_lem}
use privately_distributed_cl.Daemon.DeviceRead.{run_task-reply}
use privately_distributed_cl.System.{
  State, start, Run, at_start, one_step, replies, receive, answer,
}
use privately_distributed_cl.System.Brings.{touches}
use privately_distributed_cl.System.Start.{start-Consistent, Run-start}
use privately_distributed_cl.System.Accounts.{waiting}
use privately_distributed_cl.System.Delivery.{reads_get_bytes}
use privately_distributed_cl.Examples.{host}
use privately_distributed_cl.Examples.Devices.{zeros}
use privately_distributed_cl.Examples.Reads.{length-zeros}
use privately_distributed_cl.Examples.Systems.{
  net, iots, sender, request, begin, fragment, run, longer, waiting as sent_link, served, answering,
  iots-IsQuiet, fragment-IsProper,
}

-- What the answer has.
abbrev payload : List ℕ
payload = read_bytes sent_link.server.storage 0 1024

answer-is :
    segments.to_come answering.conn ≡ reply little_endian fragment sent_link.server.storage ++ []
unfolding answer receive start_server join
answer-is = join-deliver_segment [] served.0.sent ∙ served.4 ∙ sym (append-nil _)

task-is :
    (manage_replies segments little_endian (zeros 24) zeros answering.conn).0
    ≡ reply_wrapper fragment.request payload
unfolding start new_splicer
task-is =
    (manage_replies_lem segments little_endian (zeros 24) zeros answering.conn fragment
      sent_link.server.storage [] fragment-IsProper (length-zeros 24) (length-zeros 1024)
      answer-is).0

abbrev last : Reply
last = record { atlas = fragment.request; buffer = payload }

abbrev slicer : Slicer
slicer = slicer_for request begin.manager.raid

last-found : find 0 longer.0.manager.raid.slicer_map ≡ some slicer
unfolding start new_splicer longer run
last-found = find-assign 0 0 slicer []

-- The answer is copied, and the read is done.
abbrev done : (s : State net little_endian) × Run net little_endian begin 5 (request ∷ []) s
unfolding longer run
done = (
  _,
  one_step longer.1 (
      replies [] [] fragment.request payload (ap (λ t. t ∷ []) task-is)
        (run_task-reply little_endian last longer.0.manager longer.0.mem last-found)),
)

done-answered : waiting net little_endian (touches 103) done.0 ≡ 0
unfolding start new_splicer longer run done
done-answered =
    let sp0 = begin.manager.raid in
    let sp = longer.0.manager.raid in
    let (c0, _) =
      start-Consistent net little_endian iots sender host 0 (omega arith) (omega arith)
        iots-IsQuiet in
    let (c, _) =
      Run-start net little_endian iots sender host 0 (omega arith) (omega arith) iots-IsQuiet
        longer.1 in
    let one_left : 0 < slicer.count_slices = omega arith in
    let (_, gone) = last_one last sp longer.0.mem slicer c.sound last-found one_left refl in
    omega (
      arith,
      requested-entered request sp0 c0.sound (find_missing {V = Slicer} 0) (touches 103),
      replied-entered last sp longer.0.mem slicer c.sound last-found one_left (touches 103),
      ap (λ g. sum_by (λ (e : ℕ × Request). touches 103 e.1) (gone_with g [])) gone,
    )

one-IsDistinct : IsDistinct begin.manager.raid.fds_vector
unfolding start new_splicer
one-IsDistinct a b ha hb e = omega (arith, ha, hb)

reads_get_bytes_example : done.0.mem 103 ≡ 0
unfolding start new_splicer longer run done start_server
reads_get_bytes_example =
    reads_get_bytes net little_endian iots sender host 0 1 0 3 0 103 (omega arith) (omega arith)
      iots-IsQuiet at_start (refl, refl) (omega arith) one-IsDistinct (omega arith) (omega arith)
      ((λ _. refl), tt) done.1 (refl, tt) (refl, tt) (inl refl, tt) (omega arith) done-answered
