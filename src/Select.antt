-- ===== src/Select.antt =====
-- framework/reactor/imonitor.cpp: `SelectMonitor`. `select` is a parameter. A descriptor set is kept for
-- every number, where the code's has room for `FD_SETSIZE`.
pub mod Laws
pub mod Waits
use privately_distributed_cl.Common.{
  ℕ, zero, suc, ◌+◌, ◌-◌, ◌≤◌, ◌≡◌, Bool, true, false, Option, none, some, List, [], ◌∷◌, length,
  ◌&&◌, ◌==◌, ltb, if◌then◌else◌,
}
use privately_distributed_cl.Reactor.{IMonitor, up_from}

abbrev pub fd_setsize : ℕ
fd_setsize = 1024

abbrev pub FdSet : Type 0
FdSet = ℕ → Bool

-- `FD_SET` and `FD_CLR`.
pub fd_set : ℕ → FdSet → FdSet
fd_set fd set x = if fd == x then true else set x

pub fd_clr : ℕ → FdSet → FdSet
fd_clr fd set x = if fd == x then false else set x

-- `select` on a read set: it waits, and then either fails or gives the number of the ready
-- descriptors and their set: those below `nfds` that are in the set it was given and readable.
pub record System (W : Type 0) : Type 0 where
  pub readable : W → ℕ → Bool
  pub select : W → ℕ → FdSet → W × Option (ℕ × FdSet)
  pub select_law :
      (w : W) (nfds : ℕ) (set : FdSet) {w' : W} {n : ℕ} {ready : FdSet}
      → nfds ≤ fd_setsize
      → select w nfds set ≡ (w', some (n, ready))
      → ((fd : ℕ) → ready fd ≡ (ltb fd nfds && set fd && readable w' fd))
        × (n ≡ length (up_from ready fd_setsize 0))

-- `m_fdset[0]`, `m_fdset[1]`, `m_maxfd`, and `m_registered_fds` in ascending order.
pub record SelectMonitor : Type 0 where
  pub watched_set : FdSet
  pub ready_set : FdSet
  pub maxfd : ℕ
  pub registered_fds : List ℕ

abbrev pub new_select_monitor : SelectMonitor
new_select_monitor = record {
  watched_set = λ _. false;
  ready_set = λ _. false;
  maxfd = 0;
  registered_fds = [];
}

-- `std::set::insert`.
unfoldable pub insert : ℕ → List ℕ → List ℕ
insert fd [] = fd ∷ []
insert fd (x ∷ xs) =
    let rest = insert fd xs in
    if ltb fd x then fd ∷ x ∷ xs else if fd == x then x ∷ xs else x ∷ rest

-- `*rbegin()`, of a set that is not empty.
pub last_or : ℕ → List ℕ → ℕ
last_or d [] = d
last_or d (x ∷ xs) = last_or x xs

pub register_read : ℕ → SelectMonitor → SelectMonitor
register_read fd m =
    let fds = insert fd m.registered_fds in
    record m { watched_set = fd_set fd m.watched_set; registered_fds = fds; maxfd = last_or 0 fds }

pub deregister : ℕ → SelectMonitor → Bool × SelectMonitor
deregister fd m = (true, record m { watched_set = fd_clr fd m.watched_set })

-- `IsReadable`.
pub is_readable : SelectMonitor → ℕ → Bool
is_readable m fd = m.ready_set fd

-- The loop of `GetNextReadEvent`, with the numbers that are left; `none` is -1.
pub next_loop : SelectMonitor → ℕ → ℕ → Option ℕ
next_loop m zero starting_fd = none
next_loop m (suc left) starting_fd =
    let rest = next_loop m left (suc starting_fd) in
    if is_readable m starting_fd then some starting_fd else rest

pub get_next_read_event : SelectMonitor → ℕ → Option ℕ
get_next_read_event m starting_fd = next_loop m (fd_setsize - starting_fd) starting_fd

module _ {W : Type 0} (system : System W) where
  -- `WaitForEvents`. When `select` fails it leaves the set as it was.
  pub wait_for_events : W → SelectMonitor → W × Option ℕ × SelectMonitor
  wait_for_events w m =
      let (w', result) = system.select w (m.maxfd + 1) m.watched_set in
      elim result [
        | none ↦ (w', none, record m { ready_set = m.watched_set })
        | some (n, ready) ↦ (w', some n, record m { ready_set = ready })
      ]

  abbrev pub select_monitor : IMonitor W
  select_monitor = record {
    State = SelectMonitor;
    register_read = register_read;
    deregister = deregister;
    wait_for_events = wait_for_events;
    get_next_read_event = get_next_read_event;
  }
