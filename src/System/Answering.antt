-- ===== src/System/Answering.antt =====
-- What the servers, the callbacks and the tasks of answers do to a consistent system.
use privately_distributed_cl.Common.{
  ℕ, ◌≡◌, ◌≢◌, refl, sym, ap, subst, ◌∙◌, arith, true, List, [], ◌∷◌, ◌++◌, map, length, All, ok,
  Option,
}
use privately_distributed_cl.Common.Memory.{Memory}
use privately_distributed_cl.Common.Sums.{sum_by-split}
use privately_distributed_cl.Common.Reorder.{All-out}
use privately_distributed_cl.Common.Dict.{nat_key}
use privately_distributed_cl.Atlas.{AtlasHeader, HeaderLayout, header_size}
use privately_distributed_cl.Nbd.{Request}
use privately_distributed_cl.Splicer.{Splicer, Reply, reply_to, gone_with}
use privately_distributed_cl.Splicer.Registry.{is_of, waits_for, IsSound}
use privately_distributed_cl.Splicer.Replied.{replied-IsSound, replied-waits_for, replied-fds}
use privately_distributed_cl.IotServer.{Server, serve_one}
use privately_distributed_cl.Daemon.{Task, reply_wrapper, manage_replies, run_task}
use privately_distributed_cl.Daemon.Device.{DaemonState}
use privately_distributed_cl.Daemon.DeviceRead.{run_task-reply}
use privately_distributed_cl.CommunicationManager.{splicer_raid, request_sender}
use privately_distributed_cl.System.{Network, Link, State, answer}
use privately_distributed_cl.Slicer.{DeviceRequest}
use privately_distributed_cl.Disk.{perform}
use privately_distributed_cl.System.Wires.{buffer_for, served-Wire, take-Wire}
use privately_distributed_cl.System.Loads.{weight_of_task, wire_at}
use privately_distributed_cl.System.Invariant.{
  of_request, IsPlaced, TaskIsTransfer, fds_same, fd_of, Consistent, Kept, waited_for,
}

module _ (net : Network) (layout : HeaderLayout) where
  pub serves-Kept :
      (s : State net layout) (c : Consistent net layout s) (ls rs : List (Link net layout))
      (l : Link net layout) {server : Server net.stream layout}
      → s.links ≡ ls ++ (l ∷ rs)
      → net.stream.to_come l.server.conn ≢ []
      → serve_one net.stream layout l.server ≡ (true, server)
      → (m : Memory) × (d : DeviceRequest) × (d.device_fd ≡ l.fd)
        × (server.storage ≡ perform m d l.server.storage)
        × (Kept net layout c
            (record s { links = ls ++ (answer net layout server l ∷ rs) })
            (λ p. p.out (m, d))
            (λ p. p.back (l.server.storage, d)))
  unfolding answer
  serves-Kept s c ls rs l {server} there some_there step =
      let (w, change) = wire_at net layout ls rs l there c.wires in
      let (m, d, mine, stored, (w', more)) = served-Wire net layout l w some_there step in
      let (ws', same) = change _ w' in
      (
        m,
        d,
        mine,
        stored,
        (
          record {
            wires = ws';
            sound = c.sound;
            places =
                fds_same (fd_of net layout) ls rs l _ refl
                ∙ ap (map (fd_of net layout)) (sym there)
                ∙ c.places;
            counts = λ uid. omega (
              arith,
              c.counts uid,
              same (of_request uid),
              more (λ x. is_of uid x.1) (λ x. is_of uid x.1),
            );
            transfers = c.transfers;
            placed = c.placed;
          },
          λ p. omega (arith, same p, more p.out p.back),
        ),
      )

  pub collects-Kept :
      (s : State net layout) (c : Consistent net layout s) (ls rs : List (Link net layout))
      (l : Link net layout) (header : List ℕ) (fresh : ℕ → List ℕ)
      → s.links ≡ ls ++ (l ∷ rs)
      → net.stream.to_come l.conn ≢ []
      → length header ≡ header_size
      → ((n : ℕ) → length (fresh n) ≡ n)
      → (st : Memory) × (d : DeviceRequest) × (d.device_fd ≡ l.fd)
        × (Kept net layout c
            (record s {
              tasks = (manage_replies net.stream layout header fresh l.conn).0 ∷ s.tasks;
              links =
                  ls
                  ++ (record l { conn = (manage_replies net.stream layout header fresh l.conn).1 }
                      ∷ rs);
            })
            (λ p. p.back (st, d))
            (λ p. p.reply d.request (buffer_for fresh st d)))
  collects-Kept s c ls rs l header fresh there some_there whole ample =
      let (w, change) = wire_at net layout ls rs l there c.wires in
      let (st, d, mine, made, (w', more)) =
        take-Wire net layout l header fresh w whole ample some_there in
      let (ws', same) = change _ w' in
      (
        st,
        d,
        mine,
        (
          record {
            wires = ws';
            sound = c.sound;
            places =
                fds_same (fd_of net layout) ls rs l _ refl
                ∙ ap (map (fd_of net layout)) (sym there)
                ∙ c.places;
            counts = λ uid. omega (
              arith,
              c.counts uid,
              same (of_request uid),
              more (λ x. is_of uid x.1) (λ x. is_of uid x.1),
              ap (weight_of_task (of_request uid)) made,
            );
            transfers = (subst TaskIsTransfer (sym made) tt, c.transfers);
            placed = c.placed;
          },
          λ p. omega (arith, same p, more p.out p.back, ap (weight_of_task p) made),
        ),
      )

  pub replies-Kept :
      (s : State net layout) (c : Consistent net layout s) (xs ys : List Task) (atlas : AtlasHeader)
      (buffer : List ℕ) {manager' : DaemonState} {ended : Option (ℕ × Request)} {mem' : Memory}
      → s.tasks ≡ xs ++ (reply_wrapper atlas buffer ∷ ys)
      → run_task splicer_raid (request_sender layout) (reply_wrapper atlas buffer) s.manager s.mem
        ≡ ok (manager', [], ended, mem')
      → Kept net layout c
          (record s {
            manager = manager';
            mem = mem';
            tasks = xs ++ ys;
            done = gone_with ended s.done;
          })
          (λ p. p.reply atlas buffer)
          (λ p. 0)
  replies-Kept s c xs ys atlas buffer {manager'} {ended} {mem'} there ran =
      let sp = s.manager.raid in
      let r : Reply = record { atlas = atlas; buffer = buffer } in
      let (_, others) =
        All-out TaskIsTransfer xs ys (reply_wrapper atlas buffer) there c.transfers in
      let (slicer, found, some_left) = waited_for net layout s c xs ys atlas buffer there in
      let out = reply_to atlas buffer slicer sp s.mem in
      let made = run_task-reply layout r s.manager s.mem found in
      let is : manager' ≡ record s.manager { raid = out.0 } = cc in
      let new : manager'.raid ≡ out.0 = ap (λ (m : DaemonState). m.raid) is in
      let same_fds : sp.fds_vector ≡ manager'.raid.fds_vector = sym (
        ap (λ (t : Splicer). t.fds_vector) new
        ∙ replied-fds r sp s.mem slicer c.sound found some_left) in
      (
        record {
          wires = c.wires;
          sound =
              subst IsSound (sym new) (replied-IsSound r sp s.mem slicer c.sound found some_left);
          places = c.places ∙ same_fds;
          counts = λ uid. omega (
            arith,
            c.counts uid,
            ap (waits_for uid) new,
            replied-waits_for r sp s.mem slicer c.sound found some_left uid,
            sum_by-split (weight_of_task (of_request uid)) xs ys (reply_wrapper atlas buffer) there,
          );
          transfers = others;
          placed = subst (λ (fds : List ℕ). All (All (IsPlaced fds)) s.sending) same_fds c.placed;
        },
        λ p.
            omega (arith, sum_by-split (weight_of_task p) xs ys (reply_wrapper atlas buffer) there),
      )
