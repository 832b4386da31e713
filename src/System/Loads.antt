-- ===== src/System/Loads.antt =====
-- The fragments and tasks that are in a system, each with a number of its own.
use privately_distributed_cl.Common.{ℕ, ◌+◌, ◌≤◌, ◌≡◌, sym, subst, arith, List, [], ◌∷◌, ◌++◌, All}
use privately_distributed_cl.Common.Sums.{sum_by, sum_by-le}
use privately_distributed_cl.Atlas.{AtlasHeader, HeaderLayout}
use privately_distributed_cl.Nbd.{Request}
use privately_distributed_cl.Slicer.{DeviceRequest}
use privately_distributed_cl.Daemon.{Task, request_wrapper, null_request, reply_wrapper}
use privately_distributed_cl.System.{Network, Link, State}
use privately_distributed_cl.System.Wires.{Sent, Wire, load}

-- What counts how much.
pub record Weights : Type 0 where
  pub request : Request → ℕ
  pub unsent : DeviceRequest → ℕ
  pub out : Sent → ℕ
  pub back : Sent → ℕ
  pub reply : AtlasHeader → List ℕ → ℕ

abbrev pub weight_of_task : Weights → Task → ℕ
weight_of_task p (request_wrapper q) = p.request q
weight_of_task p null_request = 0
weight_of_task p (reply_wrapper atlas buffer) = p.reply atlas buffer

-- One weighing that is nowhere more than two others together.
pub record IsBelow (p q r : Weights) : Type 0 where
  pub request : (x : Request) → p.request x ≤ q.request x + r.request x
  pub unsent : (x : DeviceRequest) → p.unsent x ≤ q.unsent x + r.unsent x
  pub out : (x : Sent) → p.out x ≤ q.out x + r.out x
  pub back : (x : Sent) → p.back x ≤ q.back x + r.back x
  pub reply :
      (atlas : AtlasHeader) (buffer : List ℕ)
      → p.reply atlas buffer ≤ q.reply atlas buffer + r.reply atlas buffer

module _ (net : Network) (layout : HeaderLayout) where
  abbrev pub Wires : List (Link net layout) → Type 0
  Wires ls = All (Wire net layout) ls

  abbrev pub carried : Weights → (ls : List (Link net layout)) → Wires ls → ℕ
  carried p [] ws = 0
  carried p (l ∷ ls) ws = load net layout p.out p.back ws.0 + carried p ls ws.1

  abbrev pub amount : Weights → (s : State net layout) → Wires s.links → ℕ
  amount p s ws =
      sum_by (sum_by p.unsent) s.sending + carried p s.links ws + sum_by (weight_of_task p) s.tasks

  -- The wire of one link, and what changes with it.
  abbrev pub WireAt :
      (ls rs : List (Link net layout)) (l : Link net layout) (all : List (Link net layout))
      → Wires all
      → Type 0
  WireAt ls rs l all ws =
      (w : Wire net layout l) × ((l' : Link net layout) (w' : Wire net layout l')
        → (ws' : Wires (ls ++ (l' ∷ rs))) × ((p : Weights)
            → carried p (ls ++ (l' ∷ rs)) ws' + load net layout p.out p.back w
              ≡ carried p all ws + load net layout p.out p.back w'))

  wire_in :
      (ls rs : List (Link net layout)) (l : Link net layout) (ws : Wires (ls ++ (l ∷ rs)))
      → WireAt ls rs l (ls ++ (l ∷ rs)) ws
  wire_in [] rs l ws = (ws.0, λ l' w'. ((w', ws.1), λ p. omega arith))
  wire_in (x ∷ ls) rs l ws =
      let (w, change) = wire_in ls rs l ws.1 in
      (w, λ l' w'. let (ws', same) = change l' w' in ((ws.0, ws'), λ p. omega (arith, same p)))

  pub wire_at :
      (ls rs : List (Link net layout)) (l : Link net layout) {all : List (Link net layout)}
      → all ≡ ls ++ (l ∷ rs)
      → (ws : Wires all) → WireAt ls rs l all ws
  wire_at ls rs l e =
      subst (λ (all : List (Link net layout)). (ws : Wires all) → WireAt ls rs l all ws) (sym e)
        (wire_in ls rs l)

  module _ (p q r : Weights) (below : IsBelow p q r) where
    carried-le :
        (ls : List (Link net layout)) (ws : Wires ls)
        → carried p ls ws ≤ carried q ls ws + carried r ls ws
    carried-le [] ws = omega arith
    carried-le (l ∷ ls) ws = omega (
      arith,
      sum_by-le p.out q.out r.out ws.0.out below.out,
      sum_by-le p.back q.back r.back ws.0.back below.back,
      carried-le ls ws.1,
    )

    task-le : (t : Task) → weight_of_task p t ≤ weight_of_task q t + weight_of_task r t
    task-le (request_wrapper x) = below.request x
    task-le null_request = omega arith
    task-le (reply_wrapper atlas buffer) = below.reply atlas buffer

    pub amount-le :
        (s : State net layout) (ws : Wires s.links) → amount p s ws ≤ amount q s ws + amount r s ws
    amount-le s ws = omega (
      arith,
      sum_by-le (sum_by p.unsent) (sum_by q.unsent) (sum_by r.unsent) s.sending
          (λ xs. sum_by-le p.unsent q.unsent r.unsent xs below.unsent),
      carried-le s.links ws,
      sum_by-le (weight_of_task p) (weight_of_task q) (weight_of_task r) s.tasks task-le,
    )
