-- ===== src/Reactor.antt =====
-- framework/reactor/reactor.hpp: the reactor over the interface `IMonitor` of
-- framework/reactor/imonitor.hpp. A handler is called on the state of the rest of the program; in this
-- program it puts a task into the pool and leaves the reactor as it is.
pub mod Scan
pub mod Dispatch
pub mod Registered
use privately_distributed_cl.Common.{
  ℕ, zero, suc, ◌+◌, ◌-◌, ◌≤◌, ◌<◌, ◌≡◌, Bool, true, false, Option, none, some, List, [], ◌∷◌,
  Outcome, ok, fault, ◌>>=◌, out_of_range, select_failed, length, ◌&&◌, ◌==◌, if◌then◌else◌,
}
use privately_distributed_cl.Common.Dict.{Dict, nat_key, find, emplace, erase}

-- The numbers from `start` on that pass a test, `count` of them looked at.
pub up_from : (ℕ → Bool) → ℕ → ℕ → List ℕ
up_from test zero start = []
up_from test (suc count) start =
    let rest = up_from test count (suc start) in if test start then start ∷ rest else rest

-- The first of them.
unfoldable pub first_from : (ℕ → Bool) → ℕ → ℕ → Option ℕ
first_from test zero start = none
first_from test (suc count) start =
    let rest = first_from test count (suc start) in if test start then some start else rest

-- The virtual functions that the reactor calls. `none` is -1.
pub record IMonitor (W : Type 0) : Type 1 where
  pub State : Type 0
  pub register_read : ℕ → State → State
  pub deregister : ℕ → State → Bool × State
  pub wait_for_events : W → State → W × Option ℕ × State
  pub get_next_read_event : State → ℕ → Option ℕ

-- What the reactor needs of a monitor: which descriptors it watches, which ones the last wait found,
-- and that a wait finds, and counts, just the watched ones that are readable.
pub record MonitorLaws {W : Type 0} (monitor : IMonitor W) : Type 1 where
  pub limit : ℕ
  pub readable : W → ℕ → Bool
  pub watched : monitor.State → ℕ → Bool
  pub found : monitor.State → ℕ → Bool
  pub Valid : monitor.State → Type 0
  pub watched-register_read :
      (fd x : ℕ) (s : monitor.State)
      → watched (monitor.register_read fd s) x ≡ (if fd == x then true else watched s x)
  pub watched-deregister :
      (fd x : ℕ) (s : monitor.State)
      → watched (monitor.deregister fd s).1 x ≡ (if fd == x then false else watched s x)
  pub register_read-Valid :
      (fd : ℕ) (s : monitor.State) → fd < limit → Valid s → Valid (monitor.register_read fd s)
  pub deregister-Valid : (fd : ℕ) (s : monitor.State) → Valid s → Valid (monitor.deregister fd s).1
  pub wait_keeps : (w : W) (s : monitor.State) → Valid s → Valid (monitor.wait_for_events w s).2
  pub wait_watched :
      (w : W) (s : monitor.State) (x : ℕ) → watched (monitor.wait_for_events w s).2 x ≡ watched s x
  pub wait_finds :
      (w : W) (s : monitor.State) {w' : W} {n : ℕ} {s' : monitor.State}
      → Valid s
      → monitor.wait_for_events w s ≡ (w', some n, s')
      → ((fd : ℕ) → fd < limit → found s' fd ≡ (watched s fd && readable w' fd))
        × (n ≡ length (up_from (found s') limit 0))
  pub next_is_first :
      (s : monitor.State) (start : ℕ)
      → monitor.get_next_read_event s start ≡ first_from (found s) (limit - start) start

module _ {W H : Type 0} (imonitor : IMonitor W) (call : H → W → Outcome W) where
  pub record Reactor : Type 0 where
    pub monitor : imonitor.State
    pub call_backs : Dict ℕ H

  -- `RegisterReadEventHandler`; `insert` keeps a handler that is there.
  pub register_read_event_handler : ℕ → H → Reactor → Reactor
  register_read_event_handler fd call_back r = record {
    monitor = imonitor.register_read fd r.monitor;
    call_backs = emplace fd call_back r.call_backs;
  }

  -- `DeregisterEventHandler`.
  pub deregister_event_handler : ℕ → Reactor → Reactor
  deregister_event_handler fd r = record {
    monitor = (imonitor.deregister fd r.monitor).1;
    call_backs = erase fd r.call_backs;
  }

  -- `m_call_backs.at(fd)()`; with -1 there is no entry.
  pub call_back_at : Dict ℕ H → Option ℕ → W → Outcome (ℕ × W)
  call_back_at call_backs none w = fault out_of_range
  call_back_at call_backs (some fd) w = elim (find fd call_backs) [
    | none ↦ fault out_of_range
    | some h ↦ call h w >>= λ w'. ok (fd, w')
  ]

  -- The inner loop of `Run`.
  pub dispatch : Reactor → ℕ → ℕ → W → Outcome W
  dispatch r zero starting_fd w = ok w
  dispatch r (suc ready_fds) starting_fd w = do
    (fd_to_read, w') ←
        call_back_at r.call_backs (imonitor.get_next_read_event r.monitor starting_fd) w
    dispatch r ready_fds (fd_to_read + 1) w'

  -- One round of `Run`.
  pub run_round : Reactor → W → Outcome (Reactor × W)
  run_round r w =
      let (w', ready_fds, monitor') = imonitor.wait_for_events w r.monitor in
      let r' = record r { monitor = monitor' } in
      elim ready_fds [
        | none ↦ fault select_failed
        | some n ↦ dispatch r' n 0 w' >>= λ w''. ok (r', w'')
      ]

  -- `Run` for some rounds; the code has no end.
  unfoldable pub run : ℕ → Reactor → W → Outcome (Reactor × W)
  run zero r w = ok (r, w)
  run (suc rounds) r w = do (r', w') ← run_round r w; run rounds r' w'
