-- ===== src/Framework/Commands.antt =====
-- framework/framework/framework.cpp: `MonitorAndLoadCommandFactory`, which waits for a library to bring the
-- creators of the commands. The factory that each round finds is a parameter, since the thread of the
-- monitor loads libraries meanwhile.
pub mod Retries
use privately_distributed_cl.Common.{
  ℕ, zero, suc, ◌+◌, ◌≤◌, ◌<◌, ◌≡◌, ◌⊎◌, refl, Bool, true, false, Option, none, some, Outcome, ok,
  fault, Fault, out_of_range, runtime_error, ◌>>=◌, arith, inl, inr,
}
use privately_distributed_cl.Common.Dict.{nat_key, find}
use privately_distributed_cl.Factory.{Factory, create}
use privately_distributed_cl.CommandLibrary.{read, write}
use privately_distributed_cl.Dispatcher.{Store, new_callback, destroy_callback}
use privately_distributed_cl.DirMonitor.{modify, subscribe, dir_monitor}

-- `readCommand`, `writeCommand`, of which `none` is null, and `retryCount`.
pub record Commands (Command : Type 0) : Type 0 where
  pub read_command : Option Command
  pub write_command : Option Command
  pub retry_count : ℕ

abbrev pub max_retry_attempts : ℕ
max_retry_attempts = 10

-- The end of a round: `break`, the handler, or an exception that it does not catch.
pub data Round (Command : Type 0) : Type 0 where
  breaks retries : Commands Command → Round Command
  escapes : Fault → Round Command

module _ {Command : Type 0} where
  abbrev pub no_commands : Commands Command
  no_commands = record { read_command = none; write_command = none; retry_count = 0 }

  -- The body of the `try`: the commands, and the exception if there is one.
  pub create_both : Factory ℕ ℕ Command → Commands Command → Commands Command × Option Fault
  create_both instance_ s = elim (create read read instance_) [
    | fault e ↦ (s, some e)
    | ok r ↦
        let s1 = record s { read_command = some r } in
        elim (create write write instance_) [
          | fault e ↦ (s1, some e)
          | ok w ↦ (record s1 { write_command = some w }, none)
        ]
  ]

  pub round : Commands Command × Option Fault → Round Command
  round (s, none) = breaks s
  round (s, some out_of_range) = retries (record s { retry_count = suc s.retry_count })
  round (s, some e) = escapes e

  -- The loop, with the retries that are left.
  pub retry_loop : ℕ → (ℕ → Factory ℕ ℕ Command) → Commands Command → Outcome (Commands Command)
  retry_loop zero factories s = ok s
  retry_loop (suc left) factories s = elim (round (create_both (factories s.retry_count) s)) [
    | breaks s' ↦ ok s'
    | retries s' ↦ retry_loop left factories s'
    | escapes e ↦ fault e
  ]

  -- `MonitorAndLoadCommandFactory`, with what `inotify_init1` and `inotify_add_watch` return and the
  -- address of the callback, which goes at the end. The result of the compiler is only printed.
  pub monitor_and_load :
      Option ℕ → Bool → ℕ → (ℕ → Factory ℕ ℕ Command) → Store → Outcome (Commands Command × Store)
  monitor_and_load inotify watched to_do_on_notify factories store =
      dir_monitor inotify watched >>= λ fd.
      let store1 = subscribe to_do_on_notify modify (new_callback to_do_on_notify store) in
      retry_loop max_retry_attempts factories no_commands >>= λ commands.
      destroy_callback to_do_on_notify store1 >>= λ store2. ok (commands, store2)
