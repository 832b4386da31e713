-- ===== src/Examples/Setup.antt =====
-- The start of the daemon and the framework's parts around it, at concrete inputs.
use privately_distributed_cl.Common.{
  ℕ, ◌+◌, ◌≡◌, ◌≢◌, refl, arith, true, false, Option, none, some, List, [], ◌∷◌, ltb, ◌==◌,
  Bool-cases, inl, inr, if◌then◌else◌,
}
use privately_distributed_cl.Common.Dict.{nat_key}
use privately_distributed_cl.Buse.Open.{
  Fds, System, parent, nbd_open, open_with, opened, fork_server, nbd_open_lem,
}
use privately_distributed_cl.Singleton.{
  State, Statics, start, goes, Steps, done, step, calls, tests, locks, tests_again, registers,
  constructs, publishes, unlocks, returns, returned, returning, first_test, locking, second_test,
  registering, constructing, publishing, unlocking, update,
}
use privately_distributed_cl.Singleton.Once.{getters-agree}
use privately_distributed_cl.DllLoader.{destroy}
use privately_distributed_cl.DllLoader.Balance.{
  Call, loads, unloads, use_all, overwritten, destroy-use_all,
}

-- Standard input, output and error.
abbrev standard : Fds
standard = λ fd. ltb fd 3

-- A system that gives the sockets 3 and 4 and the device 5, if they are not open.
abbrev sockets : Fds → Option (ℕ × ℕ)
sockets fds = if fds 3 then none else if fds 4 then none else some (3, 4)

abbrev device_file : Fds → Option ℕ
device_file fds = if fds 5 then none else some 5

sockets_new :
    (fds : Fds) (a b : ℕ) → sockets fds ≡ some (a, b) → fds a ≡ false × fds b ≡ false × a ≢ b
sockets_new fds a b e = elim (Bool-cases (fds 3)) [
  | inl used ↦ absurd (ground (arith, e, used))
  | inr free3 ↦ elim (Bool-cases (fds 4)) [
    | inl used ↦ absurd (ground (arith, e, used))
    | inr free4 ↦
        let pair : ℕ × ℕ = (3, 4) in
        let made : some pair ≡ some (a, b) = rw (free3, free4) at e in
        let first : 3 ≡ a = cc in
        let second : 4 ≡ b = cc in
        (
          rw (← first) free3,
          rw (← second) free4,
          λ same. absurd (omega (arith, first, second, same)),
        )
  ]
]

device_new : (fds : Fds) (nbd : ℕ) → device_file fds ≡ some nbd → fds nbd ≡ false
device_new fds nbd e = elim (Bool-cases (fds 5)) [
  | inl used ↦ absurd (ground (arith, e, used))
  | inr free ↦
      let five : ℕ = 5 in
      let made : some five ≡ some nbd = rw free at e in
      let same : five ≡ nbd = cc in rw (← same) free
]

abbrev host_system : System
host_system = record {
  socketpair = sockets;
  open_device = device_file;
  set_size = λ nbd size. true;
  set_sock = λ nbd sp. true;
  do_it = λ nbd. true;
  socketpair_new = sockets_new;
  open_new = device_new;
}

nbd_open_lem_example :
    (standard 4 ≡ false)
    × ((x : ℕ)
        → (nbd_open host_system parent 536870912 standard).1 x
          ≡ (if 4 == x then true else standard x))
unfolding nbd_open open_with opened fork_server
nbd_open_lem_example = nbd_open_lem host_system parent 536870912 standard

-- A library that is loaded twice, and another one that is loaded and unloaded.
abbrev dll_calls : List (Call ℕ)
dll_calls = loads 1 (some 7) ∷ loads 2 (some 8) ∷ loads 1 (some 7) ∷ unloads 2 ∷ loads 3 none ∷ []

destroy-use_all_example :
    destroy (use_all dll_calls (record { handles = []; linker = λ h. 0 })) 7
    ≡ 0 + overwritten 7 dll_calls (record { handles = []; linker = λ h. 0 })
destroy-use_all_example = destroy-use_all 7 dll_calls (λ h. 0)

-- Thread 0 makes the object while thread 1 waits for the lock, and thread 1 gets it too.
abbrev ready_statics : Statics
ready_statics = record start.statics { is_ready = true; obj = some 1; registered = 1; made = 1 }

abbrev state1 : State
state1 = goes 0 first_test start.statics start

abbrev state2 : State
state2 = goes 0 locking start.statics state1

abbrev state3 : State
state3 = goes 1 first_test start.statics state2

abbrev state4 : State
state4 = goes 1 locking start.statics state3

abbrev state5 : State
state5 = goes 0 second_test (record start.statics { mutex = some 0 }) state4

abbrev state6 : State
state6 = goes 0 registering (record start.statics { mutex = some 0 }) state5

abbrev state7 : State
state7 = goes 0 constructing (record start.statics { mutex = some 0; registered = 1 }) state6

abbrev state8 : State
state8 = goes 0 publishing (record ready_statics { mutex = some 0; is_ready = false }) state7

abbrev state9 : State
state9 = goes 0 unlocking (record ready_statics { mutex = some 0 }) state8

abbrev state10 : State
state10 = goes 0 returning ready_statics state9

abbrev state11 : State
state11 = goes 0 (returned 1) ready_statics state10

abbrev state12 : State
state12 = goes 1 second_test (record ready_statics { mutex = some 1 }) state11

abbrev state13 : State
state13 = goes 1 unlocking (record ready_statics { mutex = some 1 }) state12

abbrev state14 : State
state14 = goes 1 returning ready_statics state13

abbrev state15 : State
state15 = goes 1 (returned 1) ready_statics state14

late-Steps : Steps state10 state15
unfolding goes update
late-Steps = step state10 (returns state10 0 1 refl refl) (
    step state11 (locks state11 1 refl refl) (
      step state12 (tests_again state12 1 refl) (
        step state13 (unlocks state13 1 refl)
          (step state14 (returns state14 1 1 refl refl) (done state15)))))

middle-Steps : Steps state5 state15
unfolding goes update
middle-Steps = step state5 (tests_again state5 0 refl) (
    step state6 (registers state6 0 refl) (
      step state7 (constructs state7 0 refl)
        (step state8 (publishes state8 0 refl) (step state9 (unlocks state9 0 refl) late-Steps))))

both-Steps : Steps start state15
unfolding goes update
both-Steps = step start (calls start 0 refl) (
    step state1 (tests state1 0 refl) (
      step state2 (calls state2 1 refl)
        (step state3 (tests state3 1 refl) (step state4 (locks state4 0 refl refl) middle-Steps))))

getters-agree_example : (◌≡◌ {A = ℕ} 1 1) × state15.statics.made ≡ 1 × state15.statics.obj ≡ some 1
unfolding goes update
getters-agree_example = getters-agree {s = state15} 0 1 1 1 both-Steps refl refl
