-- ===== src/System/Invariant.antt =====
-- What the states of a system have in common, and what a step changes of it.
use privately_distributed_cl.Common.{
  ℕ, ◌+◌, ◌*◌, Option-cases, inl, inr, ◌^◌, ◌<◌, ◌≡◌, ap, arith, List, [], ◌∷◌, ◌++◌, map, length,
  get_or, All, some, ◌==◌, if◌then◌else◌,
}
use privately_distributed_cl.Common.Sums.{sum_by-split}
use privately_distributed_cl.Common.Dict.{find, nat_key}
use privately_distributed_cl.Atlas.{AtlasHeader, HeaderLayout}
use privately_distributed_cl.Nbd.{Request}
use privately_distributed_cl.Slicer.{Slicer, DeviceRequest}
use privately_distributed_cl.Splicer.Registry.{fragments, is_of, count_in, waits_for, IsSound}
use privately_distributed_cl.Disk.{IsProper}
use privately_distributed_cl.Daemon.{Task, request_wrapper, null_request, reply_wrapper}
use privately_distributed_cl.System.{Network, IsTransfer, Link, State}
use privately_distributed_cl.System.Loads.{Weights, weight_of_task, Wires, amount}

-- Everything that is on its way for the request under a uid.
abbrev pub of_request : ℕ → Weights
of_request uid = record {
  request = λ q. 0;
  unsent = is_of uid;
  out = λ x. is_of uid x.1;
  back = λ x. is_of uid x.1;
  reply = λ atlas _. if atlas.request_uid == uid then 1 else 0;
}

-- The steps that are left to do.
abbrev pub work_of : Request → ℕ
work_of q = 1 + 4 * fragments q

abbrev pub work : Weights
work = record {
  request = work_of;
  unsent = λ d. 4;
  out = λ x. 3;
  back = λ x. 2;
  reply = λ atlas _. 1;
}

-- A fragment of a read or a write, for one of some sockets.
abbrev pub IsPlaced : List ℕ → DeviceRequest → Type 0
IsPlaced fds d = IsProper d × ((i : ℕ) × (i < length fds) × (get_or fds i 0 ≡ d.device_fd))

abbrev pub TaskIsTransfer : Task → Type 0
TaskIsTransfer (request_wrapper q) = IsTransfer q × (q.len < 2 ^ 32)
TaskIsTransfer null_request = ⊥
TaskIsTransfer (reply_wrapper atlas buffer) = Unit {0}

pub fds_same :
    {A : Type 0} (f : A → ℕ) (ls rs : List A) (l l' : A)
    → f l' ≡ f l
    → map f (ls ++ (l' ∷ rs)) ≡ map f (ls ++ (l ∷ rs))
fds_same f [] rs l l' e = ap (λ t. t ∷ map f rs) e
fds_same f (x ∷ ls) rs l l' e = ap (◌∷◌ (f x)) (fds_same f ls rs l l' e)

module _ (net : Network) (layout : HeaderLayout) where
  abbrev pub fd_of : Link net layout → ℕ
  fd_of l = l.fd

  pub record Consistent (s : State net layout) : Type 0 where
    pub wires : Wires net layout s.links
    pub sound : IsSound s.manager.raid
    pub places : map fd_of s.links ≡ s.manager.raid.fds_vector
    pub counts :
        (uid : ℕ) → amount net layout (of_request uid) s wires ≡ waits_for uid s.manager.raid
    pub transfers : All TaskIsTransfer s.tasks
    pub placed : All (All (IsPlaced s.manager.raid.fds_vector)) s.sending

  -- What a step leaves: a consistent state, and for all weights how the amounts go together.
  abbrev pub Kept :
      {s : State net layout}
      → Consistent s
      → (t : State net layout) → (lost gained : Weights → ℕ) → Type 0
  Kept {s} c t lost gained =
      (c' : Consistent t) × ((p : Weights)
        → amount net layout p t c'.wires + lost p ≡ amount net layout p s c.wires + gained p)

  -- A reply that is in a task is to a request that waits for it.
  pub waited_for :
      (s : State net layout) (c : Consistent s) (xs ys : List Task) (atlas : AtlasHeader)
      (buffer : List ℕ)
      → s.tasks ≡ xs ++ (reply_wrapper atlas buffer ∷ ys)
      → (slicer : Slicer) × (find atlas.request_uid s.manager.raid.slicer_map ≡ some slicer)
        × (0 < slicer.count_slices)
  waited_for s c xs ys atlas buffer there =
      let uid = atlas.request_uid in
      let some_left : 0 < waits_for uid s.manager.raid = ground (
        arith,
        c.counts uid,
        sum_by-split (weight_of_task (of_request uid)) xs ys (reply_wrapper atlas buffer) there,
      ) in
      elim (Option-cases (find uid s.manager.raid.slicer_map)) [
        | inl missing ↦ absurd (omega (arith, ap count_in missing))
        | inr (slicer, found) ↦ (slicer, found, omega (arith, ap count_in found))
      ]
