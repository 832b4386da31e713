-- ===== src/Examples/Reactors.antt =====
-- A reactor over `select` at a concrete input: sockets 3 and 4, both readable.
use privately_distributed_cl.Common.{
  ℕ, ◌≤◌, ◌≡◌, sym, Option, some, List, [], ◌∷◌, ◌++◌, arith, length, ◌&&◌, ◌||◌, ◌==◌, ltb,
  Outcome, ok, ap, ◌∙◌,
}
use privately_distributed_cl.Common.Dict.{nat_key}
use privately_distributed_cl.Reactor.{Reactor, run, up_from}
use privately_distributed_cl.Reactor.Dispatch.{IsRegistered, run_lem, ready_rounds}
use privately_distributed_cl.Reactor.Registered.{
  Change, register, deregister, changes, changes-IsRegistered,
}
use privately_distributed_cl.Select.{System, FdSet, select_monitor, new_select_monitor, fd_setsize}
use privately_distributed_cl.WaitableQueue.FrontablePq.{PriorityQueue}
use privately_distributed_cl.WaitableQueue.Keyed.{keyed_pq}
use privately_distributed_cl.ThreadPool.{check_priority, ThreadPool}
use privately_distributed_cl.Framework.{add_task, framework}
use privately_distributed_cl.Framework.Serving.{framework-IsRegistered}
use privately_distributed_cl.Select.Laws.{new_select_monitor-IsSelectable}
use privately_distributed_cl.Select.Waits.{select_laws}

-- What is readable, and the handlers that were called.
abbrev Logged : Type 0
Logged = FdSet × List ℕ

ready_of : ℕ → FdSet → FdSet → FdSet
ready_of nfds set on fd = ltb fd nfds && set fd && on fd

select_once : {X : Type 0} → FdSet × X → ℕ → FdSet → (FdSet × X) × Option (ℕ × FdSet)
select_once w nfds set =
    (w, some (length (up_from (ready_of nfds set w.0) fd_setsize 0), ready_of nfds set w.0))

select_once_lem :
    {X : Type 0} (w : FdSet × X) (nfds : ℕ) (set : FdSet) {w' : FdSet × X} {n : ℕ} {ready : FdSet}
    → nfds ≤ fd_setsize
    → select_once w nfds set ≡ (w', some (n, ready))
    → ((fd : ℕ) → ready fd ≡ (ltb fd nfds && set fd && w'.0 fd))
      × (n ≡ length (up_from ready fd_setsize 0))
unfolding select_once ready_of
select_once_lem {X} w nfds set {w'} {n} {ready} le e =
    let here : w ≡ w' = cc in
    let set_is : ready_of nfds set w.0 ≡ ready = cc in
    let many : length (up_from (ready_of nfds set w.0) fd_setsize 0) ≡ n = cc in
    (
      λ fd.
          ap (λ (s : FdSet). s fd) (sym set_is)
          ∙ ap (λ (v : FdSet × X). ltb fd nfds && set fd && v.0 fd) here,
      sym many ∙ ap (λ s. length (up_from s fd_setsize 0)) set_is,
    )

abbrev system : {X : Type 0} → System (FdSet × X)
system {X} = record { readable = λ w. w.0; select = select_once; select_law = select_once_lem }

abbrev log : ℕ → Logged → Outcome Logged
log h w = ok (w.0, w.1 ++ (h ∷ []))

abbrev empty : Reactor (select_monitor system) log
empty = record { monitor = new_select_monitor; call_backs = [] }

empty-IsRegistered : IsRegistered (select_monitor system) (select_laws system) log empty
unfolding select_laws
empty-IsRegistered = record {
  valid = new_select_monitor-IsSelectable;
  handled = λ fd lt on. absurd (ground (arith, on));
}

abbrev registrations : List (Change ℕ)
registrations = register 3 30 ∷ register 4 40 ∷ register 9 90 ∷ deregister 9 ∷ register 4 41 ∷ []

abbrev reactor : Reactor (select_monitor system) log
reactor = changes (select_monitor system) log registrations empty

changes-IsRegistered_example : IsRegistered (select_monitor system) (select_laws system) log reactor
unfolding select_laws
changes-IsRegistered_example =
    changes-IsRegistered (select_monitor system) (select_laws system) log registrations empty
      (omega arith, (omega arith, (omega arith, (omega arith, (omega arith, tt)))))
      empty-IsRegistered

abbrev world : Logged
world = ((λ fd. (fd == 3) || (fd == 4)), [])

run_lem_example :
    run (select_monitor system) log 2 reactor world
    ≡ ready_rounds (select_monitor system) (select_laws system) log 2 reactor world
run_lem_example =
    run_lem (select_monitor system) (select_laws system) log 2 reactor world
      changes-IsRegistered_example

-- A framework over the same `select`, whose handlers give their number as a task.
abbrev queue : PriorityQueue (check_priority ℕ)
queue = keyed_pq λ e. e.1

abbrev give : ℕ → FdSet → ℕ × FdSet
give h sys = (h, sys)

abbrev no_watch : Reactor (select_monitor (system {X = ThreadPool queue})) (add_task queue give)
no_watch = record { monitor = new_select_monitor; call_backs = [] }

no_watch-IsRegistered :
    IsRegistered
      (select_monitor (system {X = ThreadPool queue}))
      (select_laws system)
      (add_task queue give)
      no_watch
unfolding select_laws
no_watch-IsRegistered = record {
  valid = new_select_monitor-IsSelectable;
  handled = λ fd lt on. absurd (ground (arith, on));
}

abbrev causes : List (ℕ × ℕ)
causes = (3, 30) ∷ (4, 40) ∷ []

-- The constructor of a framework leaves a handler for each of its descriptors.
causes-IsRegistered :
    IsRegistered
      (select_monitor (system {X = ThreadPool queue}))
      (select_laws system)
      (add_task queue give)
      (framework queue give (select_monitor system) causes no_watch)
unfolding select_laws
causes-IsRegistered =
    framework-IsRegistered queue give (select_monitor system) (select_laws system) causes no_watch
      (omega arith, (omega arith, tt)) no_watch-IsRegistered
