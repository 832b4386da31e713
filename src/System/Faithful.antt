-- ===== src/System/Faithful.antt =====
-- What a read gets of a byte of the device, while other requests are on their way.
use privately_distributed_cl.Common.{
  ℕ, ◌*◌, ◌^◌, ◌≤◌, ◌<◌, ◌≡◌, ap, ◌∙◌, sym, arith, List, [], ◌∷◌, ◌++◌, Option, none, ok, length,
  All,
}
use privately_distributed_cl.Common.Memory.{Memory}
use privately_distributed_cl.Common.Words.{uint32}
use privately_distributed_cl.Common.Dict.{find, nat_key}
use privately_distributed_cl.Atlas.{AtlasHeader, HeaderLayout}
use privately_distributed_cl.Nbd.{Request}
use privately_distributed_cl.Splicer.{Splicer, Reply, RaidedMessage, gone_with}
use privately_distributed_cl.Splicer.Requests.{requested}
use privately_distributed_cl.Splicer.Registry.{fragments, count_in, request_inv}
use privately_distributed_cl.Splicer.Replied.{after, replied-fds}
use privately_distributed_cl.Splicer
use privately_distributed_cl.CommunicationManager.{splicer_raid, request_sender}
use privately_distributed_cl.Daemon.{
  Task, request_wrapper, reply_wrapper, manage_requests, run_task,
}
use privately_distributed_cl.Daemon.Device.{DaemonState}
use privately_distributed_cl.Daemon.DeviceRead.{run_task-reply}
use privately_distributed_cl.System.{
  Network, State, Step, starts, sends, serves, collects, replies, Arrival, arrives, Run, at_start,
  one_arrives, one_step,
}
use privately_distributed_cl.System.Loads.{amount, amount-le}
use privately_distributed_cl.System.Invariant.{Consistent, waited_for, of_request}
use privately_distributed_cl.System.Sending.{starts-Kept, sends-Kept}
use privately_distributed_cl.System.Answering.{serves-Kept, collects-Kept, replies-Kept}
use privately_distributed_cl.System.Runs.{arrives-Kept}
use privately_distributed_cl.Slicer.{fragment_size}
use privately_distributed_cl.Slicer.Placement.{IsDistinct}
use privately_distributed_cl.Common.Reorder.{All-out}
use privately_distributed_cl.System.Misses.{covers}
use privately_distributed_cl.System.Untouched.{HasByte, Untouched, Run-Untouched}
use privately_distributed_cl.System.Carries.{lapses, requested-lapses, replied-lapses}
use privately_distributed_cl.System.Carried.{striped_carries, answer_carries, task_carries}

module _ (net : Network) (layout : HeaderLayout) (fds : List ℕ) (rows f x v : ℕ)
    (pos : 0 < length fds) (inside : f < length fds * rows) (distinct : IsDistinct fds)
    (addressable : rows * fragment_size ≤ 2 ^ 32) (within : x < fragment_size) where
  -- Every fragment of a read that is on its way carries the byte as it should.
  abbrev pub Faithful : State net layout → Type 0
  Faithful s =
      (c : Consistent net layout s) × (amount net layout (lapses fds f x v s.manager.raid) s c.wires
        ≡ 0)
      × (s.manager.raid.fds_vector ≡ fds)

  starts-Faithful :
      (s : State net layout) (h : Faithful s) (xs ys : List Task) (q : Request) {raid' : Splicer}
      {message : RaidedMessage}
      → s.tasks ≡ xs ++ (request_wrapper q ∷ ys)
      → find (uint32 s.manager.raid.request_counter) s.manager.raid.slicer_map ≡ none
      → Splicer.request q s.manager.raid ≡ ok (raid', message)
      → Faithful (record s {
        manager = record s.manager { raid = raid' };
        tasks = xs ++ ys;
        sending = Splicer.get_vector message ∷ s.sending;
      })
  starts-Faithful s (c, no_lapse, same) xs ys q {raid'} {message} there unused made =
      let sp = s.manager.raid in
      let (new, _) = request_inv q sp c.sound.few made in
      let t : State net layout = record s {
        manager = record s.manager { raid = raid' };
        tasks = xs ++ ys;
        sending = Splicer.get_vector message ∷ s.sending;
      } in
      let (c', e) = starts-Kept net layout s c xs ys q there unused made in
      let unknown : amount net layout (of_request (uint32 sp.request_counter)) s c.wires ≡ 0 =
        omega (arith, c.counts (uint32 sp.request_counter), ap count_in unused) in
      (
        c',
        ap (λ (p : Splicer). amount net layout (lapses fds f x v p) t c'.wires) new
            ∙ omega (
              arith,
              e (lapses fds f x v (requested q sp)),
              no_lapse,
              unknown,
              amount-le net layout (lapses fds f x v (requested q sp)) (lapses fds f x v sp)
                  (of_request (uint32 sp.request_counter))
                  (requested-lapses fds f x v q sp c.sound unused) s c.wires,
              striped_carries fds rows f x v pos inside addressable within q sp (fragments q) 0
                  c.sound unused same (omega arith),
            ),
        ap (λ (p : Splicer). p.fds_vector) new ∙ same,
      )

  replies-Faithful :
      (s : State net layout) (h : Faithful s) (xs ys : List Task) (atlas : AtlasHeader)
      (buffer : List ℕ) {manager' : DaemonState} {ended : Option (ℕ × Request)} {mem' : Memory}
      → s.tasks ≡ xs ++ (reply_wrapper atlas buffer ∷ ys)
      → run_task splicer_raid (request_sender layout) (reply_wrapper atlas buffer) s.manager s.mem
        ≡ ok (manager', [], ended, mem')
      → Faithful (record s {
        manager = manager';
        mem = mem';
        tasks = xs ++ ys;
        done = gone_with ended s.done;
      })
  replies-Faithful s (c, no_lapse, same) xs ys atlas buffer {manager'} {ended} {mem'} there ran =
      let sp = s.manager.raid in
      let r : Reply = record { atlas = atlas; buffer = buffer } in
      let (slicer, found, some_left) = waited_for net layout s c xs ys atlas buffer there in
      let made = run_task-reply layout r s.manager s.mem found in
      let sp' = after r sp s.mem slicer c.sound found some_left in
      let is : manager' ≡ record s.manager { raid = sp' } = cc in
      let new : manager'.raid ≡ sp' = ap (λ (m : DaemonState). m.raid) is in
      let t : State net layout = record s {
        manager = manager';
        mem = mem';
        tasks = xs ++ ys;
        done = gone_with ended s.done;
      } in
      let (c', e) = replies-Kept net layout s c xs ys atlas buffer there ran in
      (
        c',
        ap (λ (p : Splicer). amount net layout (lapses fds f x v p) t c'.wires) new
            ∙ omega (
              arith,
              e (lapses fds f x v sp),
              no_lapse,
              amount-le net layout (lapses fds f x v sp') (lapses fds f x v sp)
                  (lapses fds f x v sp)
                  (replied-lapses r sp s.mem slicer c.sound found some_left fds f x v) t c'.wires,
            ),
        ap (λ (p : Splicer). p.fds_vector) new
            ∙ replied-fds r sp s.mem slicer c.sound found some_left
            ∙ same,
      )

  Step-Faithful :
      {s t : State net layout}
      → All (HasByte net layout fds rows f x v pos distinct addressable within) s.links
      → Faithful s
      → Step net layout s t
      → Faithful t
  Step-Faithful {s} bytes h (starts xs ys q there unused made) =
      starts-Faithful s h xs ys q there unused made
  Step-Faithful {s} bytes (c, no_lapse, same) (sends us vs d ds ls rs l unsent there mine) =
      let (c', e) = sends-Kept net layout s c us vs d ds ls rs l _ unsent there mine in
      (c', omega (arith, e (lapses fds f x v s.manager.raid), no_lapse), same)
  Step-Faithful {s} bytes (c, no_lapse, same) (serves ls rs l there some_there step) =
      let (m, d, mine, _, (c', e)) = serves-Kept net layout s c ls rs l there some_there step in
      let (here, _) =
        All-out (HasByte net layout fds rows f x v pos distinct addressable within) ls rs l there
          bytes in
      (
        c',
        omega (
          arith,
          e (lapses fds f x v s.manager.raid),
          no_lapse,
          answer_carries fds rows f x v pos inside addressable within s.manager.raid m
              l.server.storage d (λ its. here (sym mine ∙ its)),
        ),
        same,
      )
  Step-Faithful {s} bytes (c, no_lapse, same)
        (collects ls rs l header fresh there some_there whole ample) =
      let (st, d, _, (c', e)) =
        collects-Kept net layout s c ls rs l header fresh there some_there whole ample in
      (
        c',
        omega (
          arith,
          e (lapses fds f x v s.manager.raid),
          no_lapse,
          task_carries fds rows f x v pos inside addressable within s.manager.raid fresh st d,
        ),
        same,
      )
  Step-Faithful {s} bytes h (replies xs ys atlas buffer there ran) =
      replies-Faithful s h xs ys atlas buffer there ran

  Arrival-Faithful :
      {s : State net layout} {q : Request} {t : State net layout}
      → Faithful s
      → Arrival net layout s q t
      → Faithful t
  unfolding manage_requests
  Arrival-Faithful {s} (c, no_lapse, same) (arrives q mem' transfer word) =
      let (c', e) = arrives-Kept net layout c q mem' transfer word in
      (c', omega (arith, e (lapses fds f x v s.manager.raid), no_lapse), same)

  pub Run-Faithful :
      {s t : State net layout} {n : ℕ} {qs : List Request}
      → Untouched net layout fds rows f x v pos distinct addressable within s
      → Faithful s
      → All (λ q. covers fds rows f q ≡ 0) qs
      → Run net layout s n qs t
      → Faithful t
  Run-Faithful u h spared at_start = h
  Run-Faithful u h spared (one_arrives run a) = Arrival-Faithful (Run-Faithful u h spared.1 run) a
  Run-Faithful u h spared (one_step run st) =
      let (_, _, _, bytes) =
        Run-Untouched net layout fds rows f x v pos distinct addressable within u spared run in
      Step-Faithful bytes (Run-Faithful u h spared run) st
