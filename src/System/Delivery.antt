-- ===== src/System/Delivery.antt =====
-- What answered reads have of a byte of the device, whatever else was going on.
use privately_distributed_cl.Common.{
  refl, inl, inr, ℕ, ◌*◌, ◌^◌, ◌≤◌, ◌<◌, ◌≡◌, ap, ◌∙◌, arith, List, [], length, All,
}
use privately_distributed_cl.Common.Memory.{Memory}
use privately_distributed_cl.Common.Sums.{sum_by}
use privately_distributed_cl.Common.Dict.{find, nat_key, find_missing, Dict}
use privately_distributed_cl.Atlas.{HeaderLayout}
use privately_distributed_cl.Nbd.{Request}
use privately_distributed_cl.Slicer.{Slicer, fragment_size}
use privately_distributed_cl.System.{Network, Iot, State, start, Run}
use privately_distributed_cl.System.Loads.{amount, amount-le}
use privately_distributed_cl.System.Invariant.{Consistent}
use privately_distributed_cl.Sender.{RequestSender}
use privately_distributed_cl.System.Start.{IsQuiet, start-Consistent}
use privately_distributed_cl.Slicer.Placement.{IsDistinct}
use privately_distributed_cl.System.Misses.{covers, socket_of, place_of, harms}
use privately_distributed_cl.System.Untouched.{HasByte, Untouched}
use privately_distributed_cl.System.Carries.{lapses}
use privately_distributed_cl.System.Copies.{Homed, Run-Homed}
use privately_distributed_cl.System.Brings.{touches, misuses, brings}
use privately_distributed_cl.System.Accounts.{asked_by, waiting}
use privately_distributed_cl.System.Strays.{strays}
use privately_distributed_cl.System.Reads.{Good}
use privately_distributed_cl.System.Passage.{Calm, Run-Brought}
use privately_distributed_cl.System.Idle.{
  IsEmpty, with_requests, empty-harms, empty-lapses, answered-brings, amount-with_requests, nothing,
  amount-nothing,
}

module _ (net : Network) (layout : HeaderLayout) where
  -- There is nothing to do: no task, and no request that waits.
  abbrev pub IsIdle : State net layout → Type 0
  IsIdle s = (s.tasks ≡ []) × (s.manager.raid.slicer_map ≡ [])

  module _ (rows f x v a : ℕ) (s : State net layout) (h : Homed net layout s) (idle : IsIdle s)
      (inside : f < length s.manager.raid.fds_vector * rows)
      (distinct : IsDistinct s.manager.raid.fds_vector)
      (addressable : rows * fragment_size ≤ 2 ^ 32) (within : x < fragment_size) where
    idle-IsEmpty : IsEmpty s.manager.raid
    idle-IsEmpty uid = ap (λ (m : Dict ℕ Slicer). find uid m) idle.1 ∙ find_missing {V = Slicer} uid

    idle-Untouched :
        All
          (HasByte net layout s.manager.raid.fds_vector rows f x v h.0.sound.some_iot distinct
            addressable within)
          s.links
        → Untouched net layout s.manager.raid.fds_vector rows f x v h.0.sound.some_iot distinct
            addressable within s
    idle-Untouched bytes =
        let fds = s.manager.raid.fds_vector in
        let sp = s.manager.raid in
        (
          h.0,
          omega (
            arith,
            h.1,
            amount-le net layout (harms fds rows f x)
                (with_requests (covers fds rows f) (strays sp)) (strays sp)
                (empty-harms fds rows f x sp idle-IsEmpty) s h.0.wires,
            amount-with_requests net layout (covers fds rows f) (strays sp) s h.0.wires,
            ap (sum_by (asked_by (covers fds rows f))) idle.0,
          ),
          refl,
          bytes,
        )

    idle-Good :
        Good net layout s.manager.raid.fds_vector rows f x v a h.0.sound.some_iot inside distinct
          addressable within s
    idle-Good =
        let fds = s.manager.raid.fds_vector in
        let sp = s.manager.raid in
        record {
          homed = h;
          faithful = (
            h.0,
            omega (
              arith,
              h.1,
              amount-le net layout (lapses fds f x v sp) (strays sp) (strays sp)
                  (empty-lapses fds f x v sp idle-IsEmpty) s h.0.wires,
            ),
            refl,
          );
          used = omega (
            arith,
            ap (sum_by (asked_by (misuses a f x))) idle.0,
            ap (sum_by (λ (e : ℕ × Slicer). misuses a f x e.1.full_request)) idle.1,
          );
        }

  -- Where no request that has the address waits, no fragment is to bring it.
  nothing_brings :
      (a : ℕ) (t : State net layout) (c : Consistent net layout t)
      → waiting net layout (touches a) t ≡ 0
      → amount net layout (brings a t.manager.raid) t c.wires ≡ 0
  nothing_brings a t c none_waits = omega (
    arith,
    none_waits,
    amount-le net layout (brings a t.manager.raid) (with_requests (touches a) nothing) nothing
        (answered-brings a t.manager.raid c.sound (omega (arith, none_waits))) t c.wires,
    amount-with_requests net layout (touches a) nothing t c.wires,
    amount-nothing net layout t c.wires,
  )

  -- Over any IoTs, fewer than 2 ^ 64, between which and the daemon nothing was sent before, and while no
  -- request is given the uid of one that waits: take a state that a run comes to, without tasks and in which
  -- no request waits, and a byte v of the device, byte x of its fragment f within rows of fragments whose
  -- offsets fit 32 bits, over sockets that differ. From there let any requests come and run in any order, of
  -- which none writes to that fragment or beyond the rows, and the only ones with address a in the whole
  -- fragments of their buffers are reads that put this byte there, whose lengths fit an int; the kernel
  -- changes what is at a only when such a read arrives. Whenever at least one such read has come and all of
  -- them are answered, the byte is at a.
  pub reads_get_bytes :
      (iots : List (Iot net layout)) (sender : RequestSender) (mem : Memory) (counter : ℕ)
      {s t : State net layout} {n k : ℕ} {ps qs : List Request} (rows f x v a : ℕ)
      → 0 < length iots
      → length iots < 2 ^ 64
      → All (IsQuiet net layout) iots
      → Run net layout (start net layout iots sender mem counter) n ps s
      → IsIdle s
      → f < length s.manager.raid.fds_vector * rows
      → IsDistinct s.manager.raid.fds_vector
      → rows * fragment_size ≤ 2 ^ 32
      → x < fragment_size
      → All
          (λ l.
            l.fd ≡ socket_of s.manager.raid.fds_vector f
            → l.server.storage (place_of s.manager.raid.fds_vector f x) ≡ v)
          s.links
      → (run : Run net layout s k qs t)
      → All (λ q. covers s.manager.raid.fds_vector rows f q ≡ 0) qs
      → All (λ q. misuses a f x q ≡ 0) qs
      → Calm net layout a run
      → 0 < sum_by (touches a) qs
      → waiting net layout (touches a) t ≡ 0
      → t.mem a ≡ v
  reads_get_bytes iots sender mem counter {s} {t} {n} {k} {ps} {qs} rows f x v a some_iot few quiet
        before idle inside distinct addressable within bytes run spared used calm asked answered =
      let (c0, none_there) =
        start-Consistent net layout iots sender mem counter some_iot few quiet in
      let h : Homed net layout s =
        Run-Homed net layout
          (c0, none_there (strays (start net layout iots sender mem counter).manager.raid))
          before in
      let (c, ends) =
        Run-Brought net layout s.manager.raid.fds_vector rows f x v a h.0.sound.some_iot inside
          distinct addressable within
          (idle-Untouched rows f x v a s h idle inside distinct addressable within bytes)
          (idle-Good rows f x v a s h idle inside distinct addressable within) (h.0, inr (inr refl))
          run spared used calm in
      elim ends [
        | inl there ↦ there
        | inr (inl part) ↦ absurd (omega (arith, part, nothing_brings a t c answered))
        | inr (inr none_asked) ↦ absurd (omega (arith, asked, none_asked))
      ]
