-- ===== src/DirMonitor.antt =====
-- framework/dir_monitor/dir_monitor.cpp: `DirMonitor`, whose thread reads the events of a directory and
-- notifies one of three dispatchers. `inotify` and the reads are parameters.
pub mod Events
use privately_distributed_cl.Common.{
  ℕ, Bool, true, false, Option, none, some, List, [], ◌∷◌, ◌++◌, Outcome, ok, fault, ◌>>=◌,
  runtime_error, if◌then◌else◌,
}
use privately_distributed_cl.Dispatcher.{Store, set_dispatcher, notify}

pub data WhatToMonitor : Type 0 where
  creation deletion modify : WhatToMonitor

-- The three dispatchers that are members.
abbrev pub dispatcher : WhatToMonitor → ℕ
dispatcher creation = 0
dispatcher deletion = 1
dispatcher modify = 2

-- The mask of an event: just one of the three bits that are watched, or another mask, as that of a new
-- directory is, which has the bit of directories too.
pub data Mask : Type 0 where
  in_create in_delete in_close_write in_other : Mask

-- `Subscribe`.
unfoldable pub subscribe : ℕ → WhatToMonitor → Store → Store
subscribe c creation s = set_dispatcher c (dispatcher creation) s
subscribe c deletion s = set_dispatcher c (dispatcher deletion) s
subscribe c modify s = set_dispatcher c (dispatcher modify) s

-- The loop of `Notify`: each callback of the dispatcher is called with the path. What a callback does is a
-- parameter; one that throws ends the loop.
unfoldable pub call_each :
    {W : Type 0} → (ℕ → List ℕ → W → Outcome W) → List ℕ → List ℕ → W → Outcome W
call_each call path [] w = ok w
call_each call path (c ∷ cs) w = do w' ← call c path w; call_each call path cs w'

-- One round of `MonitorThread`: what `read` gives, `none` for -1, and the dispatcher that is notified.
pub monitor_round :
    {W : Type 0}
    → (ℕ → List ℕ → W → Outcome W)
    → List ℕ
    → Option (Mask × List ℕ)
    → Store
    → W
    → Outcome W
monitor_round call path none s w = ok w
monitor_round call path (some (in_create, name)) s w =
    call_each call (path ++ (47 ∷ name)) (notify (dispatcher creation) s) w
monitor_round call path (some (in_delete, name)) s w =
    call_each call (path ++ (47 ∷ name)) (notify (dispatcher deletion) s) w
monitor_round call path (some (in_close_write, name)) s w =
    call_each call (path ++ (47 ∷ name)) (notify (dispatcher modify) s) w
monitor_round call path (some (in_other, name)) s w = fault runtime_error

-- The constructor: the descriptor, once `inotify_init1` and `inotify_add_watch` succeed.
unfoldable pub dir_monitor : Option ℕ → Bool → Outcome ℕ
dir_monitor none watched = fault runtime_error
dir_monitor (some fd) watched = if watched then ok fd else fault runtime_error
