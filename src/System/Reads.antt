-- ===== src/System/Reads.antt =====
-- What reads leave in memory of a byte of the device, while other requests are on their way.
use privately_distributed_cl.Common.{
  if◌then◌else◌, ◌⊎◌, inl, inr, ◌≢◌, ℕ, ◌+◌, ◌*◌, ◌^◌, ◌≤◌, ◌<◌, ◌≡◌, ap, ◌∙◌, arith, List, [], ◌∷◌,
  ◌++◌, Option, none, ok, length, eq→==, ne→==,
}
use native.Mathlib.Decide.{ℕ_discrete}
use privately_distributed_cl.Common.Memory.{Memory}
use privately_distributed_cl.Common.Words.{uint32}
use privately_distributed_cl.Common.Sums.{sum_by-split}
use privately_distributed_cl.Common.Dict.{find, nat_key}
use privately_distributed_cl.Atlas.{AtlasHeader, HeaderLayout}
use privately_distributed_cl.Nbd.{Request}
use privately_distributed_cl.Splicer.{Splicer, Reply, reply_to, RaidedMessage, gone_with}
use privately_distributed_cl.Splicer.Requests.{requested}
use privately_distributed_cl.Splicer.Registry.{count_in, request_inv}
use privately_distributed_cl.Splicer.Replied.{after, entered-found}
use privately_distributed_cl.Splicer
use privately_distributed_cl.CommunicationManager.{splicer_raid, request_sender}
use privately_distributed_cl.Daemon.{Task, request_wrapper, reply_wrapper, run_task}
use privately_distributed_cl.Daemon.Device.{DaemonState}
use privately_distributed_cl.Daemon.DeviceRead.{run_task-reply}
use privately_distributed_cl.System.{Network, State}
use privately_distributed_cl.System.Loads.{amount, amount-le, weight_of_task}
use privately_distributed_cl.System.Invariant.{Consistent, waited_for, of_request}
use privately_distributed_cl.System.Sending.{starts-Kept}
use privately_distributed_cl.System.Answering.{replies-Kept}
use privately_distributed_cl.Slicer.{fragment_size}
use privately_distributed_cl.Slicer.Placement.{IsDistinct}
use privately_distributed_cl.System.Carries.{lapses}
use privately_distributed_cl.System.Copies.{Homed}
use privately_distributed_cl.System.Faithful.{Faithful}
use privately_distributed_cl.System.Brings.{
  misuses, brings, hands, orphans, requested-brings, all_brings, replied-brings,
}
use privately_distributed_cl.System.Placing.{replied-memory}
use privately_distributed_cl.System.Accounts.{asked_by, waiting}
use privately_distributed_cl.System.Strays.{strays}

module _ (net : Network) (layout : HeaderLayout) (fds : List ℕ) (rows f x v a : ℕ)
    (pos : 0 < length fds) (inside : f < length fds * rows) (distinct : IsDistinct fds)
    (addressable : rows * fragment_size ≤ 2 ^ 32) (within : x < fragment_size) where
  -- What else holds in the states of the run.
  pub record Good (s : State net layout) : Type 0 where
    pub homed : Homed net layout s
    pub faithful : Faithful net layout fds rows f x v pos inside distinct addressable within s
    pub used : waiting net layout (misuses a f x) s ≡ 0

  -- The byte is there, or a fragment is to bring it, or no request has asked for it.
  abbrev pub Brought : State net layout → ℕ → Type 0
  Brought s asked =
      (c : Consistent net layout s) × ((s.mem a ≡ v)
        ⊎ (0 < amount net layout (brings a s.manager.raid) s c.wires)
        ⊎ (asked ≡ 0))

  -- What a step does to the fragments that are to bring it.
  pub passed :
      {A : Type 0} {m m' n : ℕ} → A ⊎ (0 < m) ⊎ (n ≡ 0) → (0 < m → 0 < m') → A ⊎ (0 < m') ⊎ (n ≡ 0)
  passed (inl there) go = inl there
  passed (inr (inl part)) go = inr (inl (go part))
  passed (inr (inr none_asked)) go = inr (inr none_asked)

  pub starts-Brought :
      (s : State net layout) (n : ℕ) (b : Brought s n) (xs ys : List Task) (q : Request)
      {raid' : Splicer} {message : RaidedMessage}
      → waiting net layout (misuses a f x) s ≡ 0
      → s.tasks ≡ xs ++ (request_wrapper q ∷ ys)
      → find (uint32 s.manager.raid.request_counter) s.manager.raid.slicer_map ≡ none
      → Splicer.request q s.manager.raid ≡ ok (raid', message)
      → Brought
          (record s {
            manager = record s.manager { raid = raid' };
            tasks = xs ++ ys;
            sending = Splicer.get_vector message ∷ s.sending;
          })
          n
  starts-Brought s n (c, before) xs ys q {raid'} {message} used there unused made =
      let sp = s.manager.raid in
      let (new, _) = request_inv q sp c.sound.few made in
      let t : State net layout = record s {
        manager = record s.manager { raid = raid' };
        tasks = xs ++ ys;
        sending = Splicer.get_vector message ∷ s.sending;
      } in
      let (c', e) = starts-Kept net layout s c xs ys q there unused made in
      let mine : misuses a f x q ≡ 0 =
        omega
          (arith, used, sum_by-split (asked_by (misuses a f x)) xs ys (request_wrapper q) there) in
      let more : amount net layout (brings a sp) s c.wires
          ≤ amount net layout (brings a raid') t c'.wires =
        omega (
          arith,
          ap (λ (p : Splicer). amount net layout (brings a p) t c'.wires) new,
          e (brings a (requested q sp)),
          c.counts (uint32 sp.request_counter),
          ap count_in unused,
          amount-le net layout (brings a sp) (brings a (requested q sp))
              (of_request (uint32 sp.request_counter)) (requested-brings a q sp c.sound unused) s
              c.wires,
          all_brings a q sp c.sound unused f x mine,
        ) in
      (c', passed before λ part. omega (arith, part, more))

  pub replies-Brought :
      (s : State net layout) (n : ℕ) (b : Brought s n) (xs ys : List Task) (atlas : AtlasHeader)
      (buffer : List ℕ) {manager' : DaemonState} {ended : Option (ℕ × Request)} {mem' : Memory}
      → Good s
      → s.tasks ≡ xs ++ (reply_wrapper atlas buffer ∷ ys)
      → run_task splicer_raid (request_sender layout) (reply_wrapper atlas buffer) s.manager s.mem
        ≡ ok (manager', [], ended, mem')
      → Brought
          (record s {
            manager = manager';
            mem = mem';
            tasks = xs ++ ys;
            done = gone_with ended s.done;
          })
          n
  replies-Brought s n (c, before) xs ys atlas buffer {manager'} {ended} {mem'} good there ran =
      let sp = s.manager.raid in
      let r : Reply = record { atlas = atlas; buffer = buffer } in
      let (slicer, found, some_left) = waited_for net layout s c xs ys atlas buffer there in
      let made = run_task-reply layout r s.manager s.mem found in
      let sp' = after r sp s.mem slicer c.sound found some_left in
      let is : manager' ≡ record s.manager { raid = sp' } = cc in
      let now : mem' ≡ (reply_to atlas buffer slicer sp s.mem).2 = cc in
      let new : manager'.raid ≡ sp' = ap (λ (m : DaemonState). m.raid) is in
      let t : State net layout = record s {
        manager = manager';
        mem = mem';
        tasks = xs ++ ys;
        done = gone_with ended s.done;
      } in
      let (c', e) = replies-Kept net layout s c xs ys atlas buffer there ran in
      let at_home : (strays sp).reply atlas buffer ≡ 0 = omega (
        arith,
        good.homed.1,
        sum_by-split (weight_of_task (strays sp)) xs ys (reply_wrapper atlas buffer) there,
      ) in
      let no_lapse : (lapses fds f x v sp).reply atlas buffer ≡ 0 = omega (
        arith,
        good.faithful.1,
        sum_by-split (weight_of_task (lapses fds f x v sp)) xs ys (reply_wrapper atlas buffer)
            there,
      ) in
      let mine : misuses a f x slicer.full_request ≡ 0 =
        omega
          (arith, good.used, entered-found (misuses a f x) sp atlas.request_uid c.sound found) in
      let one : (of_request atlas.request_uid).reply atlas buffer ≡ 1 = ground arith in
      let none_left : amount net layout (of_request atlas.request_uid) t c'.wires + 1
          ≡ slicer.count_slices =
        omega (
          arith,
          c'.counts atlas.request_uid,
          c.counts atlas.request_uid,
          ap count_in found,
          e (of_request atlas.request_uid),
          one,
        ) in
      let fewer : amount net layout (brings a sp) t c'.wires
          ≤ amount net layout (brings a sp') t c'.wires
            + amount net layout (orphans a r sp s.mem slicer c.sound found some_left) t c'.wires =
        amount-le net layout (brings a sp) (brings a sp')
          (orphans a r sp s.mem slicer c.sound found some_left)
          (replied-brings a r sp s.mem slicer c.sound found some_left) t c'.wires in
      let others : amount net layout (brings a sp) t c'.wires ≢ 0
          → 0 < amount net layout (brings a manager'.raid) t c'.wires =
        λ some_bring. elim (ℕ_discrete slicer.count_slices 1) [
          | yes one ↦ omega (
            arith,
            some_bring,
            ap (λ (p : Splicer). amount net layout (brings a p) t c'.wires) new,
            none_left,
            one,
            fewer,
            ap
                (λ b.
                  amount net layout (if b then of_request atlas.request_uid else brings a sp') t
                    c'.wires)
                (eq→== slicer.count_slices 1 one),
          )
          | no more ↦ omega (
            arith,
            some_bring,
            ap (λ (p : Splicer). amount net layout (brings a p) t c'.wires) new,
            fewer,
            ap
                (λ b.
                  amount net layout (if b then of_request atlas.request_uid else brings a sp') t
                    c'.wires)
                (ne→== slicer.count_slices 1 more),
          )
        ] in
      (
        c',
        elim (replied-memory a f x v fds r sp s.mem slicer found at_home no_lapse mine within) [
          | inl byte ↦ inl (ap (λ (m : Memory). m a) now ∙ byte)
          | inr (same, apart) ↦ elim before [
            | inl there' ↦ inl (ap (λ (m : Memory). m a) now ∙ same ∙ there')
            | inr (inl some_bring) ↦ inr (
                inl (
                  others (λ none_there. omega (
                    arith,
                    some_bring,
                    none_there,
                    e (brings a sp),
                    ap (λ o. hands a o atlas.fragment_idx) found,
                    apart,
                  ))))
            | inr (inr none_asked) ↦ inr (inr none_asked)
          ]
        ],
      )
