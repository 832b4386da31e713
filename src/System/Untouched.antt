-- ===== src/System/Untouched.antt =====
-- A byte of the storage of an IoT while no write of it is on its way.
use privately_distributed_cl.Common.{
  ℕ, ◌*◌, ◌^◌, ◌≤◌, ◌<◌, ◌≡◌, ◌≢◌, ap, ◌∙◌, arith, true, List, [], ◌∷◌, ◌++◌, length, All,
}
use privately_distributed_cl.Common.Memory.{Memory}
use privately_distributed_cl.Common.Dict.{nat_key}
use privately_distributed_cl.Common.Reorder.{All-out, All-in}
use privately_distributed_cl.Atlas.{HeaderLayout}
use privately_distributed_cl.Nbd.{Request}
use privately_distributed_cl.Slicer.{fragment_size}
use privately_distributed_cl.Slicer.Placement.{IsDistinct}
use privately_distributed_cl.Splicer.{Splicer, Reply, reply_to}
use privately_distributed_cl.Splicer.Registry.{fragments, request_inv}
use privately_distributed_cl.Splicer.Replied.{replied-fds}
use privately_distributed_cl.IotServer.{Server, serve_one}
use privately_distributed_cl.Daemon.{request_wrapper}
use privately_distributed_cl.Daemon.Device.{DaemonState}
use privately_distributed_cl.Daemon.DeviceRead.{run_task-reply}
use privately_distributed_cl.System.{
  Network, Link, State, answer, receive, Step, starts, sends, serves, collects, replies, Arrival,
  arrives, Run, at_start, one_arrives, one_step,
}
use privately_distributed_cl.Common.Sums.{sum_by-split}
use privately_distributed_cl.System.Loads.{amount, weight_of_task}
use privately_distributed_cl.System.Invariant.{Consistent, waited_for}
use privately_distributed_cl.System.Sending.{starts-Kept, sends-Kept}
use privately_distributed_cl.System.Answering.{serves-Kept, collects-Kept, replies-Kept}
use privately_distributed_cl.System.Runs.{arrives-Kept}
use privately_distributed_cl.System.Misses.{
  socket_of, place_of, covers, harms, striped_misses, perform_misses,
}

module _ (net : Network) (layout : HeaderLayout) (fds : List ℕ) (rows f x v : ℕ)
    (pos : 0 < length fds) (distinct : IsDistinct fds) (addressable : rows * fragment_size ≤ 2 ^ 32)
    (within : x < fragment_size) where
  -- The link of the byte's socket has the value in its storage.
  abbrev pub HasByte : Link net layout → Type 0
  HasByte l = l.fd ≡ socket_of fds f → l.server.storage (place_of fds f x) ≡ v

  -- Nothing that is on its way is a write of the byte.
  abbrev pub Untouched : State net layout → Type 0
  Untouched s =
      (c : Consistent net layout s) × (amount net layout (harms fds rows f x) s c.wires ≡ 0)
      × (s.manager.raid.fds_vector ≡ fds)
      × All HasByte s.links

  pub Arrival-Untouched :
      {s : State net layout} {q : Request} {t : State net layout}
      → Untouched s
      → covers fds rows f q ≡ 0
      → Arrival net layout s q t
      → Untouched t
  Arrival-Untouched (c, no_harm, same, bytes) spared (arrives q mem' transfer word) =
      let (c', e) = arrives-Kept net layout c q mem' transfer word in
      (c', omega (arith, e (harms fds rows f x), no_harm, spared), same, bytes)

  serves-Untouched :
      (s : State net layout) (u : Untouched s) (ls rs : List (Link net layout))
      (l : Link net layout) {server : Server net.stream layout}
      → s.links ≡ ls ++ (l ∷ rs)
      → net.stream.to_come l.server.conn ≢ []
      → serve_one net.stream layout l.server ≡ (true, server)
      → Untouched (record s { links = ls ++ (answer net layout server l ∷ rs) })
  unfolding answer
  serves-Untouched s (c, no_harm, same, bytes) ls rs l {server} there some_there step =
      let (m, d, mine, stored, (c', e)) =
        serves-Kept net layout s c ls rs l there some_there step in
      let (here, others) = All-out HasByte ls rs l there bytes in
      let still : HasByte (answer net layout server l) = λ its.
        ap (λ (st : Memory). st (place_of fds f x)) stored
        ∙ perform_misses m d l.server.storage (socket_of fds f) (place_of fds f x) (mine ∙ its)
            (omega (arith, e (harms fds rows f x), no_harm))
        ∙ here its in
      (
        c',
        omega (arith, e (harms fds rows f x), no_harm),
        same,
        All-in HasByte ls rs (answer net layout server l) still others,
      )

  pub Step-Untouched : {s t : State net layout} → Untouched s → Step net layout s t → Untouched t
  unfolding receive
  Step-Untouched {s} (c, no_harm, same, bytes) (starts xs ys q there unused made) =
      let sp = s.manager.raid in
      let (new, _) = request_inv q sp c.sound.few made in
      let (c', e) = starts-Kept net layout s c xs ys q there unused made in
      let spared : covers fds rows f q ≡ 0 = omega (
        arith,
        no_harm,
        sum_by-split (weight_of_task (harms fds rows f x)) xs ys (request_wrapper q) there,
      ) in
      (
        c',
        omega (
          arith,
          e (harms fds rows f x),
          no_harm,
          striped_misses fds rows f x pos distinct addressable within q sp (fragments q) 0 same
              spared (omega arith),
        ),
        ap (λ (t : Splicer). t.fds_vector) new ∙ same,
        bytes,
      )
  Step-Untouched {s} (c, no_harm, same, bytes) (sends us vs d ds ls rs l unsent there mine) =
      let (c', e) = sends-Kept net layout s c us vs d ds ls rs l _ unsent there mine in
      let (here, others) = All-out HasByte ls rs l there bytes in
      (c', omega (arith, e (harms fds rows f x), no_harm), same, All-in HasByte ls rs _ here others)
  Step-Untouched {s} u (serves ls rs l there some_there step) =
      serves-Untouched s u ls rs l there some_there step
  Step-Untouched {s} (c, no_harm, same, bytes)
        (collects ls rs l header fresh there some_there whole ample) =
      let (st, d, _, (c', e)) =
        collects-Kept net layout s c ls rs l header fresh there some_there whole ample in
      let (here, others) = All-out HasByte ls rs l there bytes in
      (c', omega (arith, e (harms fds rows f x), no_harm), same, All-in HasByte ls rs _ here others)
  Step-Untouched {s} (c, no_harm, same, bytes) (replies xs ys atlas buffer {manager'} there ran) =
      let r : Reply = record { atlas = atlas; buffer = buffer } in
      let (slicer, found, some_left) = waited_for net layout s c xs ys atlas buffer there in
      let made = run_task-reply layout r s.manager s.mem found in
      let is : manager'
          ≡ record s.manager { raid = (reply_to atlas buffer slicer s.manager.raid s.mem).0 } =
        cc in
      let (c', e) = replies-Kept net layout s c xs ys atlas buffer there ran in
      (
        c',
        omega (arith, e (harms fds rows f x), no_harm),
        ap (λ (m : DaemonState). m.raid.fds_vector) is
            ∙ replied-fds r s.manager.raid s.mem slicer c.sound found some_left
            ∙ same,
        bytes,
      )

  pub Run-Untouched :
      {s t : State net layout} {n : ℕ} {qs : List Request}
      → Untouched s
      → All (λ q. covers fds rows f q ≡ 0) qs
      → Run net layout s n qs t
      → Untouched t
  Run-Untouched u spared at_start = u
  Run-Untouched u spared (one_arrives run a) =
      Arrival-Untouched (Run-Untouched u spared.1 run) spared.0 a
  Run-Untouched u spared (one_step run st) = Step-Untouched (Run-Untouched u spared run) st
