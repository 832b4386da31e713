-- ===== src/Logger.antt =====
-- framework/logger/logger.cpp: `Logger`, whose thread takes records from a queue and writes them to a file. A
-- record is its time and its text; the thread and the callers of `Log` take steps in any order.
pub mod Records
use privately_distributed_cl.Common.{
  ℕ, ◌≡◌, ◌⊎◌, Bool, true, false, Option, none, some, List, [], ◌∷◌, ◌++◌, not, ◌&&◌, if◌then◌else◌,
}
use privately_distributed_cl.WaitableQueue.{Container, push, pop, is_empty}

module _ {Line : Type 0} (c : Container Line) where
  -- What the thread is at: the test of its loop, the `Pop`, the write of what it has popped; or it has
  -- ended.
  pub data Worker : Type 0 where
    testing popping ended : Worker
    writing : Line → Worker

  pub record Logger : Type 0 where
    pub queue : c.State
    pub is_running : Bool
    pub file : List Line
    pub worker : Worker

  -- The constructor, with the empty queue.
  unfoldable pub logger : c.State → Logger
  logger empty = record { queue = empty; is_running = true; file = []; worker = testing }

  -- `Log`, with the time as it is then.
  unfoldable pub log : Line → Logger → Logger
  log line s = record s { queue = push c line s.queue }

  -- The destructor up to the `join`, and when that returns.
  pub stop : Logger → Logger
  stop s = record s { is_running = false }

  abbrev pub Joins : Logger → Type 0
  Joins s = s.worker ≡ ended

  -- The loop of `ThreadFunction`, a step at a time: `none` while it has to wait.
  unfoldable pub work : Worker → Logger → Option Logger
  work testing s =
      let going = if s.is_running then true else not (is_empty c s.queue) in
      some (record s { worker = if going then popping else ended })
  work popping s = elim (pop c s.queue) [
    | none ↦ none
    | some (line, queue) ↦ some (record s { queue = queue; worker = writing line })
  ]
  work (writing line) s = some (record s { file = s.file ++ (line ∷ []); worker = testing })
  work ended s = none

  unfoldable pub thread_function : Logger → Option Logger
  thread_function s = work s.worker s

  -- A step of a run, with the line that it logs. Nothing is logged once the destructor has begun.
  pub data Step : Logger → List Line → Logger → Type 0 where
    logs : (s : Logger) (line : Line) → s.is_running ≡ true → Step s (line ∷ []) (log line s)
    stops : (s : Logger) → Step s [] (stop s)
    works : (s : Logger) {s' : Logger} → thread_function s ≡ some s' → Step s [] s'

  -- A run, with the lines that it logs.
  pub data Steps : Logger → List Line → Logger → Type 0 where
    done : (s : Logger) → Steps s [] s
    step :
        (s : Logger) {lines rest : List Line} {s1 s2 : Logger}
        → Step s lines s1
        → Steps s1 rest s2
        → Steps s (lines ++ rest) s2
