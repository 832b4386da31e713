-- ===== src/System/Idle.antt =====
-- Weights in a system in which no request waits.
use privately_distributed_cl.Common.{
  refl, Option-cases, inl, inr, ℕ, ◌+◌, ◌≤◌, ◌≡◌, arith, List, [], ◌∷◌, none,
}
use privately_distributed_cl.Common.Sums.{sum_by, sum_by-le, sum_by-zero}
use privately_distributed_cl.Common.Dict.{find, nat_key}
use privately_distributed_cl.Atlas.{AtlasHeader, HeaderLayout}
use privately_distributed_cl.Nbd.{Request}
use privately_distributed_cl.Splicer.{Splicer}
use privately_distributed_cl.Daemon.{Task, request_wrapper, null_request, reply_wrapper}
use privately_distributed_cl.Splicer.Replied.{entered-found}
use privately_distributed_cl.System.{Link, Network, State}
use privately_distributed_cl.System.Loads.{amount, weight_of_task, Weights, IsBelow, Wires, carried}
use privately_distributed_cl.System.Misses.{covers, harms}
use privately_distributed_cl.System.Carries.{lapses}
use privately_distributed_cl.System.Brings.{touches, brings, hands}
use privately_distributed_cl.System.Accounts.{asked_by}
use privately_distributed_cl.System.Strays.{strays}
use privately_distributed_cl.Splicer.Registry.{entered, IsSound}
use privately_distributed_cl.Slicer.{DeviceRequest}
use privately_distributed_cl.System.Wires.{Sent}

-- No request waits.
abbrev pub IsEmpty : Splicer → Type 0
IsEmpty sp = (uid : ℕ) → find uid sp.slicer_map ≡ none

-- Only the requests in tasks count as before.
abbrev pub with_requests : (Request → ℕ) → Weights → Weights
with_requests g p = record p { request = g }

pub empty-harms :
    (fds : List ℕ) (rows f x : ℕ) (sp : Splicer)
    → IsEmpty sp
    → IsBelow (harms fds rows f x) (with_requests (covers fds rows f) (strays sp)) (strays sp)
empty-harms fds rows f x sp empty = record {
  request = λ y. omega arith;
  unsent = λ d. ground (arith, empty d.request.request_uid);
  out = λ s. ground (arith, empty s.1.request.request_uid);
  back = λ s. omega arith;
  reply = λ atlas buffer. omega arith;
}

pub empty-lapses :
    (fds : List ℕ) (f x v : ℕ) (sp : Splicer)
    → IsEmpty sp
    → IsBelow (lapses fds f x v sp) (strays sp) (strays sp)
empty-lapses fds f x v sp empty = record {
  request = λ y. omega arith;
  unsent = λ d. ground (arith, empty d.request.request_uid);
  out = λ s. ground (arith, empty s.1.request.request_uid);
  back = λ s. ground (arith, empty s.1.request.request_uid);
  reply = λ atlas buffer. ground (arith, empty atlas.request_uid);
}

-- A fragment that brings the byte is of a request that waits for it.
hands-entered :
    (a : ℕ) (sp : Splicer) (atlas : AtlasHeader)
    → IsSound sp
    → entered (touches a) sp ≡ 0
    → hands a (find atlas.request_uid sp.slicer_map) atlas.fragment_idx ≤ 0
hands-entered a sp atlas sound none_waits =
    elim (Option-cases (find atlas.request_uid sp.slicer_map)) [
      | inl missing ↦ ground (arith, missing)
      | inr (slicer, found) ↦
          let apart : touches a slicer.full_request ≡ 0 =
            omega (arith, none_waits, entered-found (touches a) sp atlas.request_uid sound found) in
          ground (arith, found, apart)
    ]

abbrev pub nothing : Weights
nothing = record {
  request = λ q. 0;
  unsent = λ d. 0;
  out = λ s. 0;
  back = λ s. 0;
  reply = λ atlas buffer. 0;
}

pub answered-brings :
    (a : ℕ) (sp : Splicer)
    → IsSound sp
    → entered (touches a) sp ≡ 0
    → IsBelow (brings a sp) (with_requests (touches a) nothing) nothing
answered-brings a sp sound none_waits =
    let less = λ (atlas : AtlasHeader). hands-entered a sp atlas sound none_waits in
    record {
      request = λ y. omega arith;
      unsent = λ d. omega (arith, less d.request);
      out = λ s. omega (arith, less s.1.request);
      back = λ s. omega (arith, less s.1.request);
      reply = λ atlas buffer. omega (arith, less atlas);
    }

with_requests-task :
    (g : Request → ℕ) (p : Weights) (t : Task)
    → weight_of_task (with_requests g p) t ≤ asked_by g t + weight_of_task p t
with_requests-task g p (request_wrapper q) = omega arith
with_requests-task g p null_request = omega arith
with_requests-task g p (reply_wrapper atlas buffer) = omega arith

weight_of_task-nothing : (t : Task) → weight_of_task nothing t ≡ 0
weight_of_task-nothing (request_wrapper q) = omega arith
weight_of_task-nothing null_request = refl
weight_of_task-nothing (reply_wrapper atlas buffer) = omega arith

module _ (net : Network) (layout : HeaderLayout) where
  carried-with_requests :
      (g : Request → ℕ) (p : Weights) (ls : List (Link net layout)) (ws : Wires net layout ls)
      → carried net layout (with_requests g p) ls ws ≡ carried net layout p ls ws
  carried-with_requests g p [] ws = omega arith
  carried-with_requests g p (l ∷ ls) ws = omega (arith, carried-with_requests g p ls ws.1)

  pub amount-with_requests :
      (g : Request → ℕ) (p : Weights) (s : State net layout) (ws : Wires net layout s.links)
      → amount net layout (with_requests g p) s ws
        ≤ sum_by (asked_by g) s.tasks + amount net layout p s ws
  amount-with_requests g p s ws = omega (
    arith,
    carried-with_requests g p s.links ws,
    sum_by-le (weight_of_task (with_requests g p)) (asked_by g) (weight_of_task p) s.tasks
        (with_requests-task g p),
  )

  carried-nothing :
      (ls : List (Link net layout)) (ws : Wires net layout ls)
      → carried net layout nothing ls ws ≡ 0
  carried-nothing [] ws = omega arith
  carried-nothing (l ∷ ls) ws = omega (
    arith,
    carried-nothing ls ws.1,
    sum_by-zero {A = Sent} ws.0.out (λ x. refl),
    sum_by-zero {A = Sent} ws.0.back (λ x. refl),
  )

  pub amount-nothing :
      (s : State net layout) (ws : Wires net layout s.links) → amount net layout nothing s ws ≡ 0
  amount-nothing s ws = omega (
    arith,
    carried-nothing s.links ws,
    sum_by-zero s.sending (λ ds. sum_by-zero {A = DeviceRequest} ds (λ d. refl)),
    sum_by-zero s.tasks weight_of_task-nothing,
  )
