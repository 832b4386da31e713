-- ===== src/System/Copies.antt =====
-- Where the tasks of answers copy their bytes.
use privately_distributed_cl.Common.{
  if◌then◌else◌, ltb, refl, ℕ, ◌+◌, ◌*◌, ◌^◌, ◌≤◌, ◌<◌, ◌≡◌, ap, ◌∙◌, arith, List, [], ◌∷◌, ◌++◌,
  Option, none, some, ok, length, All, eq→==, ne→==,
}
use native.Mathlib.Decide.{ℕ_discrete}
use privately_distributed_cl.Common.Memory.{Memory}
use privately_distributed_cl.Common.Words.{uint32, size_of_int32_nonneg}
use privately_distributed_cl.Common.Sums.{sum_by, sum_by-split}
use privately_distributed_cl.Common.Dict.{find, nat_key}
use privately_distributed_cl.Atlas.{AtlasHeader, HeaderLayout}
use privately_distributed_cl.Nbd.{Request}
use privately_distributed_cl.Slicer.{Slicer}
use privately_distributed_cl.Splicer.{Splicer, Reply, RaidedMessage, gone_with, new_splicer}
use privately_distributed_cl.Splicer.Requests.{requested}
use privately_distributed_cl.Splicer.Registry.{fragments, count_in, waits_for, request_inv}
use privately_distributed_cl.Splicer.Replied.{replied-waits_for, after, entered-found}
use privately_distributed_cl.Splicer
use privately_distributed_cl.CommunicationManager.{splicer_raid, request_sender}
use privately_distributed_cl.Daemon.{
  Task, request_wrapper, reply_wrapper, manage_requests, run_task,
}
use privately_distributed_cl.Daemon.Device.{DaemonState}
use privately_distributed_cl.Daemon.DeviceRead.{run_task-reply}
use privately_distributed_cl.System.Accounts.{waiting, Run-waiting}
use privately_distributed_cl.System.{
  Network, Iot, State, start, Step, starts, sends, serves, collects, replies, Arrival, arrives, Run,
  at_start, one_arrives, one_step,
}
use privately_distributed_cl.System.Loads.{amount, amount-le, weight_of_task}
use privately_distributed_cl.System.Invariant.{Consistent, waited_for}
use privately_distributed_cl.System.Sending.{starts-Kept, sends-Kept}
use privately_distributed_cl.System.Answering.{serves-Kept, collects-Kept, replies-Kept}
use privately_distributed_cl.Sender.{RequestSender}
use privately_distributed_cl.System.Start.{IsQuiet, start-Consistent}
use privately_distributed_cl.System.Runs.{arrives-Kept}
use privately_distributed_cl.System.Strays.{
  strays, left_behind, requested-IsBelow, replied-IsBelow, striped-at_home, whole_buffer,
  home_place,
}

-- One for a request with a length that is negative as an `int`.
abbrev long : Request → ℕ
long q = if ltb q.len (2 ^ 31) then 0 else 1

sum_by-long : (qs : List Request) → All (λ q. q.len < 2 ^ 31) qs → sum_by long qs ≡ 0
sum_by-long [] short = refl
sum_by-long (q ∷ qs) short = ground (arith, short.0, sum_by-long qs short.1)

module _ (net : Network) (layout : HeaderLayout) where
  -- Every fragment that is on its way is at home, and the answers in tasks are whole.
  abbrev pub Homed : State net layout → Type 0
  Homed s =
      (c : Consistent net layout s) × (amount net layout (strays s.manager.raid) s c.wires ≡ 0)

  starts-Homed :
      (s : State net layout) (h : Homed s) (xs ys : List Task) (q : Request) {raid' : Splicer}
      {message : RaidedMessage}
      → s.tasks ≡ xs ++ (request_wrapper q ∷ ys)
      → find (uint32 s.manager.raid.request_counter) s.manager.raid.slicer_map ≡ none
      → Splicer.request q s.manager.raid ≡ ok (raid', message)
      → Homed (record s {
        manager = record s.manager { raid = raid' };
        tasks = xs ++ ys;
        sending = Splicer.get_vector message ∷ s.sending;
      })
  starts-Homed s (c, none_stray) xs ys q {raid'} {message} there unused made =
      let sp = s.manager.raid in
      let (new, _) = request_inv q sp c.sound.few made in
      let t : State net layout = record s {
        manager = record s.manager { raid = raid' };
        tasks = xs ++ ys;
        sending = Splicer.get_vector message ∷ s.sending;
      } in
      let (c', e) = starts-Kept net layout s c xs ys q there unused made in
      (
        c',
        ap (λ (x : Splicer). amount net layout (strays x) t c'.wires) new
            ∙ omega (
              arith,
              e (strays (requested q sp)),
              none_stray,
              amount-le net layout (strays (requested q sp)) (strays sp) (strays sp)
                  (requested-IsBelow q sp c.sound unused) s c.wires,
              striped-at_home q sp (fragments q) 0 c.sound unused (omega arith),
            ),
      )

  replies-Homed :
      (s : State net layout) (h : Homed s) (xs ys : List Task) (atlas : AtlasHeader)
      (buffer : List ℕ) {manager' : DaemonState} {ended : Option (ℕ × Request)} {mem' : Memory}
      → s.tasks ≡ xs ++ (reply_wrapper atlas buffer ∷ ys)
      → run_task splicer_raid (request_sender layout) (reply_wrapper atlas buffer) s.manager s.mem
        ≡ ok (manager', [], ended, mem')
      → Homed (record s {
        manager = manager';
        mem = mem';
        tasks = xs ++ ys;
        done = gone_with ended s.done;
      })
  replies-Homed s (c, none_stray) xs ys atlas buffer {manager'} {ended} {mem'} there ran =
      let sp = s.manager.raid in
      let r : Reply = record { atlas = atlas; buffer = buffer } in
      let (slicer, found, some_left) = waited_for net layout s c xs ys atlas buffer there in
      let made = run_task-reply layout r s.manager s.mem found in
      let sp' = after r sp s.mem slicer c.sound found some_left in
      let is : manager' ≡ record s.manager { raid = sp' } = cc in
      let new : manager'.raid ≡ sp' = ap (λ (m : DaemonState). m.raid) is in
      let t : State net layout = record s {
        manager = manager';
        mem = mem';
        tasks = xs ++ ys;
        done = gone_with ended s.done;
      } in
      let (c', e) = replies-Kept net layout s c xs ys atlas buffer there ran in
      let one_less : waits_for atlas.request_uid sp' + 1 ≡ waits_for atlas.request_uid sp =
        ground
          (arith, replied-waits_for r sp s.mem slicer c.sound found some_left atlas.request_uid) in
      let none_left : amount net layout (left_behind r sp slicer) t c'.wires ≡ 0 =
        elim (ℕ_discrete slicer.count_slices 1) [
          | yes one ↦ rw (eq→== slicer.count_slices 1 one) (
              omega (
                arith,
                one,
                c'.counts atlas.request_uid,
                ap (waits_for atlas.request_uid) new,
                ap count_in found,
                one_less,
              ))
          | no more ↦
              rw (ne→== slicer.count_slices 1 more) (omega (arith, e (strays sp), none_stray))
        ] in
      (
        c',
        ap (λ (x : Splicer). amount net layout (strays x) t c'.wires) new
            ∙ omega (
              arith,
              e (strays sp),
              none_stray,
              none_left,
              amount-le net layout (strays sp') (strays sp) (left_behind r sp slicer)
                  (replied-IsBelow r sp s.mem slicer c.sound found some_left) t c'.wires,
            ),
      )

  Step-Homed : {s t : State net layout} → Homed s → Step net layout s t → Homed t
  Step-Homed {s} h (starts xs ys q there unused made) = starts-Homed s h xs ys q there unused made
  Step-Homed {s} (c, none_stray) (sends us vs d ds ls rs l unsent there mine) =
      let (c', e) = sends-Kept net layout s c us vs d ds ls rs l _ unsent there mine in
      (c', omega (arith, e (strays s.manager.raid), none_stray))
  Step-Homed {s} (c, none_stray) (serves ls rs l there some_there step) =
      let (m, d, _, _, (c', e)) = serves-Kept net layout s c ls rs l there some_there step in
      (c', omega (arith, e (strays s.manager.raid), none_stray))
  Step-Homed {s} (c, none_stray) (collects ls rs l header fresh there some_there whole ample) =
      let (st, d, _, (c', e)) =
        collects-Kept net layout s c ls rs l header fresh there some_there whole ample in
      (
        c',
        omega (
          arith,
          e (strays s.manager.raid),
          none_stray,
          whole_buffer fresh st d (ample d.request.data_len),
        ),
      )
  Step-Homed {s} h (replies xs ys atlas buffer there ran) =
      replies-Homed s h xs ys atlas buffer there ran

  Arrival-Homed :
      {s : State net layout} {q : Request} {t : State net layout}
      → Homed s
      → Arrival net layout s q t
      → Homed t
  unfolding manage_requests
  Arrival-Homed (c, none_stray) (arrives q mem' transfer word) =
      let (c', e) = arrives-Kept net layout c q mem' transfer word in
      (c', omega (arith, e (strays _), none_stray))

  pub Run-Homed :
      {s t : State net layout} {n : ℕ} {qs : List Request}
      → Homed s
      → Run net layout s n qs t
      → Homed t
  Run-Homed h at_start = h
  Run-Homed h (one_arrives run a) = Arrival-Homed (Run-Homed h run) a
  Run-Homed h (one_step run st) = Step-Homed (Run-Homed h run) st

  -- The requests in tasks and in the map are none of those that are too long for an `int`.
  waiting-long :
      (iots : List (Iot net layout)) (sender : RequestSender) (mem : Memory) (counter : ℕ)
      {s : State net layout} {n : ℕ} {qs : List Request}
      → Consistent net layout (start net layout iots sender mem counter)
      → Run net layout (start net layout iots sender mem counter) n qs s
      → All (λ q. q.len < 2 ^ 31) qs
      → waiting net layout long s ≡ 0
  unfolding start new_splicer
  waiting-long iots sender mem counter {qs = qs} c run short =
      omega (arith, Run-waiting net layout long c run, sum_by-long qs short)

  -- Over any IoTs, fewer than 2 ^ 64, between which and the daemon nothing was sent before: let the
  -- kernel ask for reads and writes only, of fewer than 2 ^ 31 bytes, let each request be read without
  -- an error, and let none be given the uid of one that waits. Then each task of an answer finds the
  -- request that it is for, has as many bytes as its header says, and copies them to places within the
  -- request's buffer, which has as many bytes as the request's length says.
  pub copies_in_bounds :
      (iots : List (Iot net layout)) (sender : RequestSender) (mem : Memory) (counter : ℕ)
      {s : State net layout} {n : ℕ} {qs : List Request} (xs ys : List Task) (atlas : AtlasHeader)
      (buffer : List ℕ)
      → 0 < length iots
      → length iots < 2 ^ 64
      → All (IsQuiet net layout) iots
      → Run net layout (start net layout iots sender mem counter) n qs s
      → All (λ q. q.len < 2 ^ 31) qs
      → s.tasks ≡ xs ++ (reply_wrapper atlas buffer ∷ ys)
      → (slicer : Slicer) × (find atlas.request_uid s.manager.raid.slicer_map ≡ some slicer)
        × (length buffer ≡ atlas.data_len)
        × (uint32 (atlas.data_len * atlas.fragment_idx) + atlas.data_len ≤ slicer.full_request.len)
  copies_in_bounds iots sender mem counter {s} xs ys atlas buffer some_iot few quiet run short
        there =
      let (c0, none_there) =
        start-Consistent net layout iots sender mem counter some_iot few quiet in
      let (c, none_stray) =
        Run-Homed (c0, none_there (strays (start net layout iots sender mem counter).manager.raid))
          run in
      let (slicer, found, some_left) = waited_for net layout s c xs ys atlas buffer there in
      let waiting_short = waiting-long iots sender mem counter c0 run short in
      let fits : slicer.full_request.len < 2 ^ 31 =
        ground (
          arith,
          waiting_short,
          entered-found long s.manager.raid atlas.request_uid c.sound found,
        ) in
      let at_home : weight_of_task (strays s.manager.raid) (reply_wrapper atlas buffer) ≡ 0 =
        omega (
          arith,
          none_stray,
          sum_by-split (weight_of_task (strays s.manager.raid)) xs ys (reply_wrapper atlas buffer)
              there,
        ) in
      let (whole, place) = home_place s.manager.raid slicer atlas buffer found at_home in
      (
        slicer,
        found,
        whole,
        omega (arith, place, size_of_int32_nonneg slicer.full_request.len fits),
      )
