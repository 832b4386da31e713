-- ===== src/System/Runs.antt =====
-- Consistency over a run.
use privately_distributed_cl.Common.{
  some, zero, suc, tabulate, ◌*◌, ◌/◌, ℕ, ◌+◌, ◌≡◌, ◌<◌, ◌^◌, ◌∷◌, arith, List,
}
use privately_distributed_cl.Common.Memory.{Memory}
use privately_distributed_cl.Common.Sums.{sum_by}
use privately_distributed_cl.Common.Dict.{nat_key}
use privately_distributed_cl.Atlas.{HeaderLayout}
use privately_distributed_cl.Nbd.{Request}
use privately_distributed_cl.Daemon.{manage_requests}
use privately_distributed_cl.System.{
  IsTransfer, Network, State, Step, starts, sends, serves, collects, replies, Arrival, arrives, Run,
  at_start, one_arrives, one_step,
}
use privately_distributed_cl.System.Loads.{amount}
use privately_distributed_cl.System.Invariant.{work, work_of, Consistent, Kept}
use privately_distributed_cl.Slicer.{DeviceRequest, fragment_size}
use privately_distributed_cl.Slicer.ClosedForm.{striped}
use privately_distributed_cl.Splicer.Requests.{slicer_for}
use privately_distributed_cl.Splicer.Registry.{fragments}
use privately_distributed_cl.System.Sending.{sends-Kept, starts-Kept}
use privately_distributed_cl.System.Answering.{serves-Kept, collects-Kept, replies-Kept}

sum_by-tabulate :
    (k n i : ℕ) (f : ℕ → DeviceRequest) → sum_by (λ (_ : DeviceRequest). k) (tabulate n i f) ≡ k * n
sum_by-tabulate k zero i f = omega arith
sum_by-tabulate k (suc n) i f = grind (arith, sum_by-tabulate k n (suc i) f)

module _ (net : Network) (layout : HeaderLayout) where
  -- What a step of a thread keeps; it is one of those that are left.
  abbrev pub Works : {s : State net layout} → Consistent net layout s → State net layout → Type 0
  Works {s} c t =
      (c' : Consistent net layout t) × (suc (amount net layout work t c'.wires)
        ≡ amount net layout work s c.wires)

  pub Step-Works :
      {s t : State net layout} (c : Consistent net layout s) → Step net layout s t → Works c t
  Step-Works {s} c (starts xs ys q there unused made) =
      let (c', e) = starts-Kept net layout s c xs ys q there unused made in
      (
        c',
        omega (
          arith,
          e work,
          sum_by-tabulate 4 (fragments q) 0
              (striped (slicer_for q s.manager.raid) (q.from / fragment_size)),
        ),
      )
  Step-Works {s} c (sends us vs d ds ls rs l unsent there mine) =
      let (c', e) = sends-Kept net layout s c us vs d ds ls rs l _ unsent there mine in
      (c', omega (arith, e work))
  Step-Works {s} c (serves ls rs l there some_there step) =
      let (m, d, _, _, (c', e)) = serves-Kept net layout s c ls rs l there some_there step in
      (c', omega (arith, e work))
  Step-Works {s} c (collects ls rs l header fresh there some_there whole ample) =
      let (st, d, _, (c', e)) =
        collects-Kept net layout s c ls rs l header fresh there some_there whole ample in
      (c', omega (arith, e work))
  Step-Works {s} c (replies xs ys atlas buffer there ran) =
      let (c', e) = replies-Kept net layout s c xs ys atlas buffer there ran in
      (c', omega (arith, e work))

  pub arrives-Kept :
      {s : State net layout} (c : Consistent net layout s) (q : Request) (mem' : Memory)
      → IsTransfer q
      → q.len < 2 ^ 32
      → Kept net layout c
          (record s { tasks = manage_requests (some q) ∷ s.tasks; mem = mem' })
          (λ p. 0)
          (λ p. p.request q)
  unfolding manage_requests
  arrives-Kept {s} c q mem' transfer word = (
    record {
      wires = c.wires;
      sound = c.sound;
      places = c.places;
      counts = λ uid. omega (arith, c.counts uid);
      transfers = ((transfer, word), c.transfers);
      placed = c.placed;
    },
    λ p. omega arith,
  )

  Arrival-Works :
      {s : State net layout} {q : Request} {t : State net layout} (c : Consistent net layout s)
      → Arrival net layout s q t
      → (c' : Consistent net layout t) × (amount net layout work t c'.wires
          ≡ work_of q + amount net layout work s c.wires)
  Arrival-Works c (arrives q mem' transfer word) =
      let (c', e) = arrives-Kept c q mem' transfer word in (c', omega (arith, e work))

  -- Every state of a run is consistent; the steps of the run and those that are left are together what
  -- there was to do at its start and what came with the requests.
  pub Run-Consistent :
      {s t : State net layout} {n : ℕ} {qs : List Request} (c : Consistent net layout s)
      → Run net layout s n qs t
      → (c' : Consistent net layout t) × (n + amount net layout work t c'.wires
          ≡ sum_by work_of qs + amount net layout work s c.wires)
  Run-Consistent c at_start = (c, omega arith)
  Run-Consistent c (one_arrives run a) =
      let (c1, e1) = Run-Consistent c run in
      let (c2, e2) = Arrival-Works c1 a in (c2, omega (arith, e1, e2))
  Run-Consistent c (one_step run st) =
      let (c1, e1) = Run-Consistent c run in
      let (c2, e2) = Step-Works c1 st in (c2, omega (arith, e1, e2))
