-- ===== src/System/Passage.antt =====
-- What a run leaves in memory of a byte of the device that reads ask for.
use privately_distributed_cl.Common.{
  ◌⊎◌, inl, inr, ℕ, ◌+◌, ◌*◌, ◌^◌, ◌≤◌, ◌<◌, ◌≡◌, ◌∙◌, arith, List, length, All,
}
use native.Mathlib.Decide.{ℕ_discrete}
use privately_distributed_cl.Common.Sums.{sum_by, sum_by-none}
use privately_distributed_cl.Common.Dict.{nat_key}
use privately_distributed_cl.Atlas.{HeaderLayout}
use privately_distributed_cl.Nbd.{Request}
use privately_distributed_cl.Daemon.{manage_requests}
use privately_distributed_cl.System.{
  Network, State, Step, starts, sends, serves, collects, replies, Arrival, arrives, Run, at_start,
  one_arrives, one_step,
}
use privately_distributed_cl.System.Sending.{sends-Kept}
use privately_distributed_cl.System.Answering.{serves-Kept, collects-Kept}
use privately_distributed_cl.System.Runs.{arrives-Kept}
use privately_distributed_cl.Slicer.{fragment_size}
use privately_distributed_cl.Slicer.Placement.{IsDistinct}
use privately_distributed_cl.System.Misses.{covers}
use privately_distributed_cl.System.Untouched.{Untouched}
use privately_distributed_cl.System.Copies.{Run-Homed}
use privately_distributed_cl.System.Faithful.{Run-Faithful}
use privately_distributed_cl.System.Brings.{touches, misuses, brings}
use privately_distributed_cl.System.Accounts.{Run-waiting}
use privately_distributed_cl.System.Reads.{Good, Brought, starts-Brought, replies-Brought, passed}

-- The kernel leaves the byte at an address alone whenever a request arrives that is not to have it.
module _ (net : Network) (layout : HeaderLayout) (a : ℕ) where
  abbrev pub CalmArrival :
      {s : State net layout} {q : Request} {t : State net layout}
      → Arrival net layout s q t
      → Type 0
  CalmArrival {s} (arrives q mem' transfer word) = (mem' a ≡ s.mem a) ⊎ (0 < touches a q)

  abbrev pub Calm :
      {s t : State net layout} {n : ℕ} {qs : List Request} → Run net layout s n qs t → Type 0
  Calm at_start = Unit {0}
  Calm (one_arrives run arrival) = CalmArrival arrival × Calm run
  Calm (one_step run st) = Calm run

module _ (net : Network) (layout : HeaderLayout) (fds : List ℕ) (rows f x v a : ℕ)
    (pos : 0 < length fds) (inside : f < length fds * rows) (distinct : IsDistinct fds)
    (addressable : rows * fragment_size ≤ 2 ^ 32) (within : x < fragment_size) where
  Step-Brought :
      {s t : State net layout} {n : ℕ}
      → Good net layout fds rows f x v a pos inside distinct addressable within s
      → Brought net layout fds rows f x v a pos inside distinct addressable within s n
      → Step net layout s t
      → Brought net layout fds rows f x v a pos inside distinct addressable within t n
  Step-Brought {s} {t} {n} good b (starts xs ys q there unused made) =
      starts-Brought net layout fds rows f x v a pos inside distinct addressable within s n b xs ys
        q good.used there unused made
  Step-Brought {s} good (c, before) (sends us vs d ds ls rs l unsent there mine) =
      let (c', e) = sends-Kept net layout s c us vs d ds ls rs l _ unsent there mine in
      (
        c',
        passed net layout fds rows f x v a pos inside distinct addressable within before
            λ part. omega (arith, part, e (brings a s.manager.raid)),
      )
  Step-Brought {s} good (c, before) (serves ls rs l there some_there step) =
      let (m, d, _, _, (c', e)) = serves-Kept net layout s c ls rs l there some_there step in
      (
        c',
        passed net layout fds rows f x v a pos inside distinct addressable within before
            λ part. omega (arith, part, e (brings a s.manager.raid)),
      )
  Step-Brought {s} good (c, before) (collects ls rs l header fresh there some_there whole ample) =
      let (st, d, _, (c', e)) =
        collects-Kept net layout s c ls rs l header fresh there some_there whole ample in
      (
        c',
        passed net layout fds rows f x v a pos inside distinct addressable within before
            λ part. omega (arith, part, e (brings a s.manager.raid)),
      )
  Step-Brought {s} {t} {n} good b (replies xs ys atlas buffer there ran) =
      replies-Brought net layout fds rows f x v a pos inside distinct addressable within s n b xs ys
        atlas buffer good there ran

  Arrival-Brought :
      {s : State net layout} {q : Request} {t : State net layout} {n : ℕ}
      (b : Brought net layout fds rows f x v a pos inside distinct addressable within s n)
      (arrival : Arrival net layout s q t)
      → CalmArrival net layout a arrival
      → Brought net layout fds rows f x v a pos inside distinct addressable within t
          (touches a q + n)
  unfolding manage_requests
  Arrival-Brought {s} (c, before) (arrives q mem' transfer word) calm =
      let (c', e) = arrives-Kept net layout c q mem' transfer word in
      let more = e (brings a s.manager.raid) in
      elim (ℕ_discrete (touches a q) 0) [
        | no touched ↦ (c', inr (inl (omega (arith, more, touched))))
        | yes apart ↦
            let same : mem' a ≡ s.mem a = elim calm [
              | inl kept ↦ kept
              | inr touched ↦ absurd (omega (arith, touched, apart))
            ] in
            (
              c',
              elim before [
                | inl there ↦ inl (same ∙ there)
                | inr (inl part) ↦ inr (inl (omega (arith, more, part)))
                | inr (inr none_asked) ↦ inr (inr (omega (arith, apart, none_asked)))
              ],
            )
      ]

  Run-Good :
      {s t : State net layout} {n : ℕ} {qs : List Request}
      → Untouched net layout fds rows f x v pos distinct addressable within s
      → Good net layout fds rows f x v a pos inside distinct addressable within s
      → Run net layout s n qs t
      → All (λ q. covers fds rows f q ≡ 0) qs
      → All (λ q. misuses a f x q ≡ 0) qs
      → Good net layout fds rows f x v a pos inside distinct addressable within t
  Run-Good {qs} u good run spared used = record {
    homed = Run-Homed net layout good.homed run;
    faithful =
        Run-Faithful net layout fds rows f x v pos inside distinct addressable within u
          good.faithful spared run;
    used = omega (
      arith,
      Run-waiting net layout (misuses a f x) good.homed.0 run,
      good.used,
      sum_by-none (misuses a f x) qs used,
    );
  }

  pub Run-Brought :
      {s t : State net layout} {n : ℕ} {qs : List Request}
      → Untouched net layout fds rows f x v pos distinct addressable within s
      → Good net layout fds rows f x v a pos inside distinct addressable within s
      → Brought net layout fds rows f x v a pos inside distinct addressable within s 0
      → (run : Run net layout s n qs t) → All (λ q. covers fds rows f q ≡ 0) qs
      → All (λ q. misuses a f x q ≡ 0) qs
      → Calm net layout a run
      → Brought net layout fds rows f x v a pos inside distinct addressable within t
          (sum_by (touches a) qs)
  Run-Brought u good b at_start spared used calm = b
  Run-Brought u good b (one_arrives run arrival) spared used calm =
      Arrival-Brought (Run-Brought u good b run spared.1 used.1 calm.1) arrival calm.0
  Run-Brought u good b (one_step run st) spared used calm =
      Step-Brought (Run-Good u good run spared used) (Run-Brought u good b run spared used calm) st
