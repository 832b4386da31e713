-- ===== src/System/Progress.antt =====
-- How a system goes on, and what is left where it does not.
use privately_distributed_cl.Common.{
  ℕ, ◌^◌, ◌≤◌, ◌<◌, ◌≡◌, ◌≢◌, ◌⊎◌, refl, ap, ◌∙◌, arith, inl, inr, List, [], ◌∷◌, ◌++◌, none,
  length, get_or, tabulate, length-tabulate, All, ◌==◌, if◌then◌else◌,
}
use privately_distributed_cl.Common.Memory.{Memory}
use privately_distributed_cl.Common.Words.{uint32}
use privately_distributed_cl.Common.Dict.{find, nat_key}
use privately_distributed_cl.Common.Dict.Single.{sum_by-zero}
use privately_distributed_cl.Common.Sums.{sum_by}
use privately_distributed_cl.Common.Search.{
  nonempty_in, sum_by-nothing, cons_cases, nil_cases, element_at,
}
use privately_distributed_cl.Common.Reorder.{All-out}
use privately_distributed_cl.Atlas.{HeaderLayout, header_size}
use privately_distributed_cl.Nbd.{Request}
use privately_distributed_cl.Slicer.{Slicer, DeviceRequest}
use privately_distributed_cl.Splicer.Requests.{request_ok}
use privately_distributed_cl.Splicer.Registry.{fragments, count_in, entered}
use privately_distributed_cl.Sender.{RequestSender}
use privately_distributed_cl.Daemon.{Task, request_wrapper, null_request, reply_wrapper}
use privately_distributed_cl.Daemon.DeviceRead.{run_task-reply}
use privately_distributed_cl.System.{
  Network, Iot, Link, State, start, Step, starts, sends, serves, collects, replies, Run,
}
use privately_distributed_cl.System.Wires.{serve-Wire, out_nil, back_nil}
use privately_distributed_cl.System.Loads.{Weights, weight_of_task, Wires, carried, amount, wire_at}
use privately_distributed_cl.System.Invariant.{
  TaskIsTransfer, Consistent, IsPlaced, fd_of, of_request, work, work_of, waited_for,
}
use privately_distributed_cl.System.Start.{IsQuiet, Run-start}
use privately_distributed_cl.System.Accounts.{asked_by, answered_of, requests_conserved}

-- The requests that have a fragment.
abbrev pub with_fragments : (Request → ℕ) → Request → ℕ
with_fragments p q = if fragments q == 0 then 0 else p q

module _ (net : Network) (layout : HeaderLayout) where
  open net.stream use {to_come}

  abbrev pub CanStep : State net layout → Type 0
  CanStep s = (u : State net layout) × Step net layout s u

  abbrev IsEmpty : Link net layout → Type 0
  IsEmpty l = (to_come l.server.conn ≡ []) × (to_come l.conn ≡ [])

  -- A link on which something comes.
  abbrev HasComing : List (Link net layout) → Type 0
  HasComing all =
      (ls : List (Link net layout)) × (rs : List (Link net layout)) × (l : Link net layout) × (all
        ≡ ls ++ (l ∷ rs))
      × ((to_come l.server.conn ≢ []) ⊎ (to_come l.conn ≢ []))

  coming_in : (all : List (Link net layout)) → All IsEmpty all ⊎ HasComing all
  coming_in [] = inl tt
  coming_in (l ∷ all) = elim (nil_cases (to_come l.server.conn)) [
    | inr there ↦ inr ([], all, l, refl, inl there)
    | inl nothing ↦ elim (nil_cases (to_come l.conn)) [
      | inr there ↦ inr ([], all, l, refl, inr there)
      | inl nothing' ↦ elim (coming_in all) [
        | inl rest ↦ inl ((nothing, nothing'), rest)
        | inr (ls, rs, k, e, there) ↦ inr (l ∷ ls, rs, k, ap (◌∷◌ l) e, there)
      ]
    ]
  ]

  task_steps :
      (s : State net layout) (c : Consistent net layout s) (t : Task) (ys : List Task)
      → find (uint32 s.manager.raid.request_counter) s.manager.raid.slicer_map ≡ none
      → s.tasks ≡ t ∷ ys
      → CanStep s
  task_steps s c (request_wrapper q) ys unused there =
      let made = request_ok q s.manager.raid c.sound.few c.sound.some_iot in
      (_, starts [] ys q there unused made)
  task_steps s c null_request ys unused there =
      absurd (All-out TaskIsTransfer [] ys null_request there c.transfers).0
  task_steps s c (reply_wrapper atlas buffer) ys unused there =
      let (slicer, found, _) = waited_for net layout s c [] ys atlas buffer there in
      (
        _,
        replies [] ys atlas buffer there (
            run_task-reply layout (record { atlas = atlas; buffer = buffer }) s.manager s.mem
              {slicer = slicer} found),
      )

  sending_steps :
      (s : State net layout) (c : Consistent net layout s) (us vs : List (List DeviceRequest))
      (d : DeviceRequest) (ds : List DeviceRequest)
      → s.sending ≡ us ++ ((d ∷ ds) ∷ vs)
      → CanStep s
  sending_steps s c us vs d ds unsent =
      let fds = s.manager.raid.fds_vector in
      let (((_, (i, lt, place)), _), _) =
        All-out (All (IsPlaced fds)) us vs (d ∷ ds) unsent c.placed in
      let (ls, rs, l, there, same) =
        element_at (fd_of net layout) s.links i (omega (arith, lt, ap length c.places)) in
      let mine : l.fd ≡ d.device_fd = same ∙ ap (λ (xs : List ℕ). get_or xs i 0) c.places ∙ place in
      (_, sends us vs d ds ls rs l unsent there mine)

  link_steps : (s : State net layout) → Consistent net layout s → HasComing s.links → CanStep s
  link_steps s c (ls, rs, l, there, inl some_there) =
      let (w, _) = wire_at net layout ls rs l there c.wires in
      let (server, step, _) = serve-Wire net layout l w some_there in
      (_, serves ls rs l there some_there step)
  link_steps s c (ls, rs, l, there, inr some_there) = (
    _,
    collects ls rs l (tabulate header_size 0 (λ _. 0)) (λ n. tabulate n 0 (λ _. 0)) there some_there
        (length-tabulate {A = ℕ} header_size 0 (λ _. 0))
        (λ n. length-tabulate {A = ℕ} n 0 (λ _. 0)),
  )

  abbrev IsIdle : State net layout → Type 0
  IsIdle s = (s.tasks ≡ []) × All (λ xs. xs ≡ []) s.sending × All IsEmpty s.links

  goes_on_from :
      (s : State net layout) (c : Consistent net layout s)
      → find (uint32 s.manager.raid.request_counter) s.manager.raid.slicer_map ≡ none
      → CanStep s ⊎ IsIdle s
  goes_on_from s c unused = elim (cons_cases s.tasks) [
    | inr (t, ys, e) ↦ inl (task_steps s c t ys unused e)
    | inl no_task ↦ elim (nonempty_in s.sending) [
      | inr (us, vs, d, ds, e) ↦ inl (sending_steps s c us vs d ds e)
      | inl sent ↦ elim (coming_in s.links) [
        | inr coming ↦ inl (link_steps s c coming)
        | inl quiet ↦ inr (no_task, sent, quiet)
      ]
    ]
  ]

  carried_nothing :
      (p : Weights) (ls : List (Link net layout)) (ws : Wires net layout ls)
      → All IsEmpty ls
      → carried net layout p ls ws ≡ 0
  carried_nothing p [] ws h = refl
  carried_nothing p (l ∷ ls) ws h = omega (
    arith,
    ap (sum_by p.out) (out_nil net layout ws.0 h.0.0),
    ap (sum_by p.back) (back_nil net layout ws.0 h.0.1),
    carried_nothing p ls ws.1 h.1,
  )

  amount_nothing :
      (p : Weights) (s : State net layout) (c : Consistent net layout s)
      → IsIdle s
      → amount net layout p s c.wires ≡ 0
  amount_nothing p s c (no_task, sent, quiet) = omega (
    arith,
    ap (sum_by (weight_of_task p)) no_task,
    sum_by-nothing p.unsent s.sending sent,
    carried_nothing p s.links c.wires quiet,
  )

  -- In an idle system no request waits that has a fragment.
  entered_nothing :
      (p : Request → ℕ) (s : State net layout) (c : Consistent net layout s)
      → IsIdle s
      → entered (with_fragments p) s.manager.raid ≡ 0
  entered_nothing p s c idle =
      sum_by-zero (λ (e : ℕ × Slicer). with_fragments p e.1.full_request) s.manager.raid.slicer_map
        c.sound.single
        λ uid slicer found.
          let none_left : slicer.count_slices ≡ 0 =
            omega
              (arith, ap count_in found, c.counts uid, amount_nothing (of_request uid) s c idle) in
          ground (arith, c.sound.whole uid slicer found none_left)

  -- Over any IoTs, fewer than 2 ^ 64, between which and the daemon nothing was sent before: let the
  -- kernel ask for reads and writes only, let each request be read without an error, and let none be
  -- given the uid of one that waits. A run has at most one step for each request that arrived and four
  -- for each of its fragments, whatever their order; and unless a step can be done now, it has had all
  -- of them, and each of these reads and writes that has a fragment is answered, however requests are
  -- counted.
  pub run_goes_on :
      (iots : List (Iot net layout)) (sender : RequestSender) (mem : Memory) (counter : ℕ)
      {s : State net layout} {n : ℕ} {qs : List Request}
      → 0 < length iots
      → length iots < 2 ^ 64
      → All (IsQuiet net layout) iots
      → Run net layout (start net layout iots sender mem counter) n qs s
      → find (uint32 s.manager.raid.request_counter) s.manager.raid.slicer_map ≡ none
      → (n ≤ sum_by work_of qs)
        × (CanStep s
            ⊎ ((n ≡ sum_by work_of qs)
                × ((p : Request → ℕ)
                    → sum_by (with_fragments p) qs
                      ≡ sum_by (answered_of (with_fragments p)) s.done)))
  run_goes_on iots sender mem counter {s} some_iot few quiet run unused =
      let (c, total) = Run-start net layout iots sender mem counter some_iot few quiet run in
      (
        omega (arith, total),
        elim (goes_on_from s c unused) [
          | inl more ↦ inl more
          | inr idle ↦ inr (
            omega (arith, total, amount_nothing work s c idle),
            λ p. omega (
              arith,
              requests_conserved net layout (with_fragments p) iots sender mem counter some_iot few
                  quiet run,
              entered_nothing p s c idle,
              ap (sum_by (asked_by (with_fragments p))) idle.0,
            ),
          )
        ],
      )
