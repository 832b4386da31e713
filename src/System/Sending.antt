-- ===== src/System/Sending.antt =====
-- The start of a request and the sending of its fragments in a consistent system.
use privately_distributed_cl.Common.{
  ℕ, ◌+◌, ◌/◌, ◌%◌, All-tabulate, ◌<◌, ◌≡◌, refl, sym, ap, subst, ◌∙◌, arith, List, ◌∷◌, ◌++◌, map,
  length, All, none, ok,
}
use privately_distributed_cl.Common.Words.{uint32}
use privately_distributed_cl.Common.Sums.{sum_by, sum_by-split}
use privately_distributed_cl.Common.Reorder.{All-out, All-in}
use privately_distributed_cl.Common.Dict.{find, nat_key}
use privately_distributed_cl.Atlas.{HeaderLayout}
use privately_distributed_cl.Nbd.{Request}
use native.Mathlib.Nat.{mod-lt}
use privately_distributed_cl.Slicer.{DeviceRequest, fragment_size}
use privately_distributed_cl.Slicer.ClosedForm.{striped_requests}
use privately_distributed_cl.Splicer.Requests.{slicer_for}
use privately_distributed_cl.Splicer.{Splicer, RaidedMessage, Reply, reply_to, gone_with}
use privately_distributed_cl.Splicer
use privately_distributed_cl.Splicer.Registry.{
  fragments, is_of, unsliced, waits_for, IsSound, request_inv, requested-IsSound,
  requested-waits_for,
}
use privately_distributed_cl.Sender.{sender}
use privately_distributed_cl.Sender.Streams.{bytes_to}
use privately_distributed_cl.Daemon.{Task, request_wrapper}
use privately_distributed_cl.Daemon.Device.{fragment-IsProper}
use privately_distributed_cl.System.{Network, IsTransfer, Link, State, receive}
use privately_distributed_cl.System.Wires.{receive-Wire}
use privately_distributed_cl.System.Loads.{weight_of_task, wire_at}
use privately_distributed_cl.System.Invariant.{
  of_request, IsPlaced, TaskIsTransfer, fds_same, fd_of, Consistent, Kept,
}

-- The fragments of a request are for its sockets.
striped-IsPlaced :
    (q : Request) (sp : Splicer)
    → 0 < length sp.fds_vector
    → IsTransfer q
    → All (IsPlaced sp.fds_vector) (striped_requests sp.request_counter (unsliced q sp.fds_vector))
striped-IsPlaced q sp pos transfer = All-tabulate (IsPlaced sp.fds_vector) (fragments q) 0 _ λ k. (
  fragment-IsProper (slicer_for q sp) (q.from / fragment_size) k transfer (omega arith),
  (
    (q.from / fragment_size + k) % length sp.fds_vector,
    mod-lt (q.from / fragment_size + k) pos,
    refl,
  ),
)

module _ (net : Network) (layout : HeaderLayout) where
  pub sends-Kept :
      (s : State net layout) (c : Consistent net layout s) (us vs : List (List DeviceRequest))
      (d : DeviceRequest) (ds : List DeviceRequest) (ls rs : List (Link net layout))
      (l : Link net layout) (counter' : ℕ)
      → s.sending ≡ us ++ ((d ∷ ds) ∷ vs)
      → s.links ≡ ls ++ (l ∷ rs)
      → l.fd ≡ d.device_fd
      → Kept net layout c
          (record s {
            manager = record s.manager {
              communication = record s.manager.communication { counter = counter' };
            };
            sending = us ++ (ds ∷ vs);
            links =
                ls
                ++ (receive net layout
                      (bytes_to l.fd (sender layout s.mem d s.manager.communication.counter).1)
                      l
                    ∷ rs);
          })
          (λ p. p.unsent d)
          (λ p. p.out (s.mem, d))
  unfolding receive
  sends-Kept s c us vs d ds ls rs l counter' unsent there mine =
      let fds = s.manager.raid.fds_vector in
      let (ok_d, others) = All-out (All (IsPlaced fds)) us vs (d ∷ ds) unsent c.placed in
      let (w, change) = wire_at net layout ls rs l there c.wires in
      let (w', more) =
        receive-Wire net layout l s.mem d s.manager.communication.counter w mine ok_d.0.0 in
      let (ws', same) = change _ w' in
      (
        record {
          wires = ws';
          sound = c.sound;
          places =
              fds_same (fd_of net layout) ls rs l _ refl
              ∙ ap (map (fd_of net layout)) (sym there)
              ∙ c.places;
          counts = λ uid. omega (
            arith,
            c.counts uid,
            same (of_request uid),
            more (λ x. is_of uid x.1) (λ x. is_of uid x.1),
            sum_by-split (sum_by (is_of uid)) us vs (d ∷ ds) unsent,
            sum_by-split (sum_by (is_of uid)) us vs ds refl,
          );
          transfers = c.transfers;
          placed = All-in (All (IsPlaced fds)) us vs ds ok_d.1 others;
        },
        λ p. omega (
          arith,
          same p,
          more p.out p.back,
          sum_by-split (sum_by p.unsent) us vs (d ∷ ds) unsent,
          sum_by-split (sum_by p.unsent) us vs ds refl,
        ),
      )

  pub starts-Kept :
      (s : State net layout) (c : Consistent net layout s) (xs ys : List Task) (q : Request)
      {raid' : Splicer} {message : RaidedMessage}
      → s.tasks ≡ xs ++ (request_wrapper q ∷ ys)
      → find (uint32 s.manager.raid.request_counter) s.manager.raid.slicer_map ≡ none
      → Splicer.request q s.manager.raid ≡ ok (raid', message)
      → Kept net layout c
          (record s {
            manager = record s.manager { raid = raid' };
            tasks = xs ++ ys;
            sending = Splicer.get_vector message ∷ s.sending;
          })
          (λ p. p.request q)
          (λ p. sum_by p.unsent (
            striped_requests s.manager.raid.request_counter (unsliced q s.manager.raid.fds_vector)))
  unfolding Splicer.get_vector
  starts-Kept s c xs ys q {raid'} {message} there unused made =
      let sp = s.manager.raid in
      let requests = striped_requests sp.request_counter (unsliced q sp.fds_vector) in
      let (transfer, others) = All-out TaskIsTransfer xs ys (request_wrapper q) there c.transfers in
      let (new, vector) = request_inv q sp c.sound.few made in
      (
        record {
          wires = c.wires;
          sound = subst IsSound (sym new) (requested-IsSound q sp c.sound unused transfer.1);
          places = c.places ∙ ap (λ (t : Splicer). t.fds_vector) (sym new);
          counts = λ uid. omega (
            arith,
            c.counts uid,
            requested-waits_for q sp c.sound unused uid,
            ap (waits_for uid) new,
            ap (sum_by (is_of uid)) vector,
            sum_by-split (weight_of_task (of_request uid)) xs ys (request_wrapper q) there,
          );
          transfers = others;
          placed = (
            subst (All (IsPlaced raid'.fds_vector)) (sym vector) (
                subst (λ (fds : List ℕ). All (IsPlaced fds) requests)
                  (ap (λ (t : Splicer). t.fds_vector) (sym new))
                  (striped-IsPlaced q sp c.sound.some_iot transfer.0)),
            subst (λ (fds : List ℕ). All (All (IsPlaced fds)) s.sending)
                (ap (λ (t : Splicer). t.fds_vector) (sym new)) c.placed,
          );
        },
        λ p. omega (
          arith,
          sum_by-split (weight_of_task p) xs ys (request_wrapper q) there,
          ap (sum_by p.unsent) vector,
        ),
      )
