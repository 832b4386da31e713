-- ===== src/System/Accounts.antt =====
-- Where the requests are that the kernel asked for.
use privately_distributed_cl.Common.{
  ℕ, ◌+◌, ◌^◌, ◌<◌, ◌≤◌, ◌≡◌, refl, ap, arith, List, [], ◌∷◌, ◌++◌, Option, none, some, ok, length,
  All,
}
use privately_distributed_cl.Common.Memory.{Memory}
use privately_distributed_cl.Common.Dict.{nat_key}
use privately_distributed_cl.Common.Sums.{sum_by, sum_by-split}
use privately_distributed_cl.Atlas.{AtlasHeader, HeaderLayout}
use privately_distributed_cl.Nbd.{Request}
use privately_distributed_cl.Sender.{RequestSender}
use privately_distributed_cl.Splicer.{Reply, reply_to, gone_with, new_splicer}
use privately_distributed_cl.Splicer.Registry.{entered, request_inv, requested-entered}
use privately_distributed_cl.Splicer.Replied.{replied-entered}
use privately_distributed_cl.Daemon.Replies.{makes_reply}
use privately_distributed_cl.CommunicationManager.{splicer_raid, request_sender}
use privately_distributed_cl.Daemon.{
  Task, request_wrapper, null_request, reply_wrapper, manage_requests, run_task,
}
use privately_distributed_cl.Daemon.Device.{DaemonState}
use privately_distributed_cl.Daemon.DeviceRead.{run_task-reply}
use privately_distributed_cl.System.{
  Network, Iot, State, start, Step, starts, sends, serves, collects, replies, Arrival, arrives, Run,
  at_start, one_arrives, one_step,
}
use privately_distributed_cl.System.Invariant.{Consistent, waited_for}
use privately_distributed_cl.System.Runs.{Run-Consistent}
use privately_distributed_cl.System.Start.{IsQuiet, start-Consistent}

-- The request that a task is to start.
abbrev pub asked_by : (Request → ℕ) → Task → ℕ
asked_by p (request_wrapper q) = p q
asked_by p null_request = 0
asked_by p (reply_wrapper atlas buffer) = 0

abbrev pub answered_of : (Request → ℕ) → ℕ × Request → ℕ
answered_of p e = p e.1

sum_by-gone_with :
    (p : Request → ℕ) (entry : Option (ℕ × Request)) (done : List (ℕ × Request))
    → sum_by (answered_of p) (gone_with entry done)
      ≡ sum_by (answered_of p) (gone_with entry []) + sum_by (answered_of p) done
sum_by-gone_with p none done = omega arith
sum_by-gone_with p (some e) done = omega arith

module _ (net : Network) (layout : HeaderLayout) (p : Request → ℕ) where
  -- The requests in tasks, in the map, and answered.
  abbrev pub accounts : State net layout → ℕ
  accounts s =
      sum_by (asked_by p) s.tasks + entered p s.manager.raid + sum_by (answered_of p) s.done

  replies-accounts :
      (s : State net layout) (c : Consistent net layout s) (xs ys : List Task) (atlas : AtlasHeader)
      (buffer : List ℕ) {manager' : DaemonState} {ended : Option (ℕ × Request)} {mem' : Memory}
      → s.tasks ≡ xs ++ (reply_wrapper atlas buffer ∷ ys)
      → run_task splicer_raid (request_sender layout) (reply_wrapper atlas buffer) s.manager s.mem
        ≡ ok (manager', [], ended, mem')
      → sum_by (asked_by p) (xs ++ ys)
          + entered p manager'.raid
          + sum_by (answered_of p) (gone_with ended s.done)
        ≡ accounts s
  replies-accounts s c xs ys atlas buffer {manager'} {ended} {mem'} there ran =
      let sp = s.manager.raid in
      let r : Reply = record { atlas = atlas; buffer = buffer } in
      let (slicer, found, some_left) = waited_for net layout s c xs ys atlas buffer there in
      let out = reply_to atlas buffer slicer sp s.mem in
      let made = run_task-reply layout r s.manager s.mem found in
      let is : manager' ≡ record s.manager { raid = out.0 } = cc in
      let gone_is : ended ≡ out.1 = cc in
      omega (
        arith,
        sum_by-split (asked_by p) xs ys (reply_wrapper atlas buffer) there,
        ap (λ (m : DaemonState). entered p m.raid) is,
        ap (λ (e : Option (ℕ × Request)). sum_by (answered_of p) (gone_with e [])) gone_is,
        replied-entered r sp s.mem slicer c.sound found some_left p,
        sum_by-gone_with p ended s.done,
      )

  Step-accounts :
      {s t : State net layout}
      → Consistent net layout s
      → Step net layout s t
      → accounts t ≡ accounts s
  Step-accounts {s} c (starts xs ys q there unused made) =
      let (new, _) = request_inv q s.manager.raid c.sound.few made in
      omega (
        arith,
        sum_by-split (asked_by p) xs ys (request_wrapper q) there,
        ap (entered p) new,
        requested-entered q s.manager.raid c.sound unused p,
      )
  Step-accounts {s} c (sends us vs d ds ls rs l unsent there mine) = refl
  Step-accounts {s} c (serves ls rs l there some_there step) = refl
  Step-accounts {s} c (collects ls rs l header fresh there some_there whole ample) =
      let (_, _, made) = makes_reply net.stream layout header fresh l.conn in
      omega (arith, ap (asked_by p) made)
  Step-accounts {s} c (replies xs ys atlas buffer there ran) =
      replies-accounts s c xs ys atlas buffer there ran

  Arrival-accounts :
      {s t : State net layout} {q : Request}
      → Arrival net layout s q t
      → accounts t ≡ p q + accounts s
  unfolding manage_requests
  Arrival-accounts (arrives q mem' transfer word) = omega arith

  pub Run-accounts :
      {s t : State net layout} {n : ℕ} {qs : List Request}
      → Consistent net layout s
      → Run net layout s n qs t
      → accounts t ≡ sum_by p qs + accounts s
  Run-accounts c at_start = omega arith
  Run-accounts c (one_arrives run a) = omega (arith, Run-accounts c run, Arrival-accounts a)
  Run-accounts c (one_step run st) =
      let (c1, _) = Run-Consistent net layout c run in
      omega (arith, Run-accounts c run, Step-accounts c1 st)

  -- The requests in tasks and in the map.
  abbrev pub waiting : State net layout → ℕ
  waiting s = sum_by (asked_by p) s.tasks + entered p s.manager.raid

  Step-answered :
      {s t : State net layout}
      → Step net layout s t
      → sum_by (answered_of p) s.done ≤ sum_by (answered_of p) t.done
  Step-answered (starts xs ys q there unused made) = omega arith
  Step-answered (sends us vs d ds ls rs l unsent there mine) = omega arith
  Step-answered (serves ls rs l there some_there step) = omega arith
  Step-answered (collects ls rs l header fresh there some_there whole ample) = omega arith
  Step-answered {s} (replies xs ys atlas buffer {manager'} {gone} there ran) =
      omega (arith, sum_by-gone_with p gone s.done)

  Run-answered :
      {s t : State net layout} {n : ℕ} {qs : List Request}
      → Run net layout s n qs t
      → sum_by (answered_of p) s.done ≤ sum_by (answered_of p) t.done
  Run-answered at_start = omega arith
  Run-answered (one_arrives run (arrives q mem' transfer word)) = Run-answered run
  Run-answered (one_step run st) = omega (arith, Run-answered run, Step-answered st)

  -- Only what arrives waits.
  pub Run-waiting :
      {s t : State net layout} {n : ℕ} {qs : List Request}
      → Consistent net layout s
      → Run net layout s n qs t
      → waiting t ≤ sum_by p qs + waiting s
  Run-waiting c run = omega (arith, Run-accounts c run, Run-answered run)

  start-accounts :
      (iots : List (Iot net layout)) (sender : RequestSender) (mem : Memory) (counter : ℕ)
      → accounts (start net layout iots sender mem counter) ≡ 0
  unfolding start new_splicer
  start-accounts iots sender mem counter = refl

  -- Over any IoTs, fewer than 2 ^ 64, between which and the daemon nothing was sent before, and while no
  -- request is given the uid of one that waits, no request is lost and none is answered twice: however
  -- requests are counted, those that arrived are as many as those in tasks that have not started, those in
  -- the splicer's map and those that were answered together.
  pub requests_conserved :
      (iots : List (Iot net layout)) (sender : RequestSender) (mem : Memory) (counter : ℕ)
      {s : State net layout} {n : ℕ} {qs : List Request}
      → 0 < length iots
      → length iots < 2 ^ 64
      → All (IsQuiet net layout) iots
      → Run net layout (start net layout iots sender mem counter) n qs s
      → sum_by p qs
        ≡ sum_by (asked_by p) s.tasks + entered p s.manager.raid + sum_by (answered_of p) s.done
  requests_conserved iots sender mem counter some_iot few quiet run =
      let (c, _) = start-Consistent net layout iots sender mem counter some_iot few quiet in
      omega (arith, Run-accounts c run, start-accounts iots sender mem counter)
