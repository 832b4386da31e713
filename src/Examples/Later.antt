-- ===== src/Examples/Later.antt =====
-- What comes later in a run, at concrete inputs: a function that is called again and again, a log, and the
-- wait for the commands.
use privately_distributed_cl.Common.{
  ℕ, suc, ◌≡◌, ◌≢◌, refl, arith, Bool, true, none, some, List, [], ◌∷◌, ◌++◌, ok, ltb, length,
  ◌>>=◌, if◌then◌else◌,
}
use privately_distributed_cl.Common.Dict.{nat_key}
use privately_distributed_cl.Scheduler.{Timers}
use privately_distributed_cl.Asyncinjection.{World, create_instance}
use privately_distributed_cl.Asyncinjection.Progress.{
  now, later, HasTimers, fire, create_instance-ends,
}
use privately_distributed_cl.WaitableQueue.{Container, count_if, pop, is_empty, push}
use privately_distributed_cl.WaitableQueue.FrontablePq.{frontable_pq, frontable_pq_laws}
use privately_distributed_cl.WaitableQueue.Keyed.{keyed_pq, best}
use privately_distributed_cl.WaitableQueue.Keyed
use privately_distributed_cl.Logger.{
  testing, popping, writing, Logger, logger, log, work, thread_function, Steps, done, step, logs,
  works,
}
use privately_distributed_cl.Logger.Records.{kept, Steps-conserve}
use privately_distributed_cl.Factory.{Factory}
use privately_distributed_cl.Dispatcher.{Store, times, notify}
use privately_distributed_cl.Dispatcher.Links.{new_store}
use privately_distributed_cl.Framework.Commands.{Commands, monitor_and_load}
use privately_distributed_cl.Framework.Commands.Retries.{IsLoaded, monitor_and_load_lem}

-- A function that counts, and says true at its third call.
abbrev counts_to_2 : ℕ → Bool × ℕ
counts_to_2 n = (ltb 1 n, suc n)

abbrev timers : Timers
timers = record { timer_create = λ ids. some (length ids); timer_settime = λ id value. true }

abbrev idle_world : World ℕ
idle_world = record {
  sys = 0;
  scheduler = record { timer_ids = []; armed = [] };
  objects = λ x. none;
  next = 0;
}

timers-HasTimers : HasTimers timers
timers-HasTimers = record { created = λ ids. (length ids, refl); set = λ id value. refl }

create_instance-ends_example :
    (w' : World ℕ) × (create_instance timers counts_to_2 500 idle_world >>= fire timers 2 0) ≡ ok w'
    × w'.sys ≡ 3
    × w'.objects 0 ≡ none
    × ((x : ℕ) → x ≢ 0 → w'.objects x ≡ none)
    × w'.scheduler.armed ≡ []
create_instance-ends_example =
    create_instance-ends timers counts_to_2 500 idle_world timers-HasTimers (omega arith)
      (later refl (later refl (now refl)))

-- Two lines are logged, and the thread writes the greater one.
abbrev lines : Container ℕ
lines = frontable_pq (keyed_pq λ (n : ℕ). n)

abbrev logged : Logger lines
logged = record { queue = 3 ∷ 8 ∷ []; is_running = true; file = []; worker = testing }

abbrev written : Logger lines
written = record { queue = 3 ∷ []; is_running = true; file = 8 ∷ []; worker = testing }

abbrev log_lines : List ℕ
log_lines = 8 ∷ [] ++ (3 ∷ [] ++ ([] ++ ([] ++ ([] ++ []))))

log-Steps : Steps lines (logger lines []) log_lines written
unfolding logger log work thread_function pop push is_empty Keyed.nil Keyed.top Keyed.pop best
log-Steps = step (logger lines []) (logs (logger lines []) 8 refl) (
    step (log lines 8 (logger lines [])) (logs (log lines 8 (logger lines [])) 3 refl) (
      step logged (works logged {s' = record logged { worker = popping }} refl) (
        step (record logged { worker = popping })
          (works (record logged { worker = popping })
            {s' = record written { file = []; worker = writing 8 }} refl)
          (step (record written { file = []; worker = writing 8 })
            (works (record written { file = []; worker = writing 8 }) {s' = written} refl)
            (done written)))))

-- The lines above 5.
Steps-conserve_example :
    kept lines (frontable_pq_laws (keyed_pq λ (n : ℕ). n)) (ltb 5) written
    ≡ count_if (ltb 5) log_lines
Steps-conserve_example =
    Steps-conserve lines (frontable_pq_laws (keyed_pq λ (n : ℕ). n)) (ltb 5) [] refl log-Steps

-- A library brings the two creators before the third round.
abbrev factory_at : ℕ → Factory ℕ ℕ ℕ
factory_at n = if ltb n 2 then [] else (0, λ t. t) ∷ (1, λ t. t) ∷ []

monitor_and_load_lem_example :
    (r : Commands ℕ) × (store' : Store) × monitor_and_load (some 3) true 9 factory_at new_store
      ≡ ok (r, store')
    × IsLoaded factory_at 0 10 r
    × ((x d : ℕ) → times x (notify d store') ≡ times x (notify d new_store))
unfolding times notify
monitor_and_load_lem_example = monitor_and_load_lem 3 9 factory_at new_store refl
