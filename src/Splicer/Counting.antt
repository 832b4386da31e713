-- ===== src/Splicer/Counting.antt =====
-- When a request is complete: the replies to it are counted, whatever other replies come between.
use privately_distributed_cl.Common.{
  ℕ, ◌+◌, ◌-◌, ◌^◌, ◌≤◌, ◌<◌, ◌≡◌, refl, sym, ap, ◌∙◌, arith, inl, inr, true, false, List, [], ◌∷◌,
  Option, none, some, Outcome, ok, fault, ◌>>=◌, if◌then◌else◌, ◌==◌, ==_iff, eq→==, All, length,
  Option-cases, Bool-cases,
}
use native.Mathlib.Decide.{ℕ_discrete}
use privately_distributed_cl.Common.Words.{size_t_pred}
use privately_distributed_cl.Common.Memory.{Memory}
use privately_distributed_cl.Common.Dict.{find, nat_key, find-assign, find-erase}
use privately_distributed_cl.Nbd.{Request}
use privately_distributed_cl.Slicer.{Slicer, is_reply_ready}
use privately_distributed_cl.Splicer.{Splicer, Reply, reply, reply_to, reply_all, gone_with}

-- How many of some replies are to one request.
unfoldable pub count_to : ℕ → List Reply → ℕ
count_to uid [] = 0
count_to uid (r ∷ rs) = if r.atlas.request_uid == uid then count_to uid rs + 1 else count_to uid rs

-- The requests that go from the map under one uid.
pub completed : ℕ → List (ℕ × Request) → List Request
completed uid [] = []
completed uid ((u, q) ∷ done) = if u == uid then q ∷ completed uid done else completed uid done

-- What `uid` has in the map after `k` replies to it, if it had `slicer`.
abbrev pub waiting_after : ℕ → Slicer → Option Slicer
waiting_after k slicer =
    if k == slicer.count_slices
    then none
    else some (record slicer { count_slices = slicer.count_slices - k })

-- The rest of `reply_all` behind one reply.
abbrev add_gone :
    Option (ℕ × Request)
    → Outcome (Splicer × List (ℕ × Request) × Memory)
    → Outcome (Splicer × List (ℕ × Request) × Memory)
add_gone entry o = do (s', rest, mem') ← o; ok (s', gone_with entry rest, mem')

after_gone :
    (o : Outcome (Splicer × List (ℕ × Request) × Memory)) (entry : Option (ℕ × Request))
    {s : Splicer} {done : List (ℕ × Request)} {mem : Memory}
    → add_gone entry o ≡ ok (s, done, mem)
    → (rest : List (ℕ × Request)) × (o ≡ ok (s, rest, mem)) × (done ≡ gone_with entry rest)
after_gone (ok (s', rest, mem')) entry e = (rest, ground arith, ground arith)
after_gone (fault x) entry e = cc

-- The first of some replies that all succeed has an entry, and the others follow it.
pub reply_all_inv :
    (r : Reply) (rs : List Reply) (s : Splicer) (mem : Memory) {s'' : Splicer}
    {done : List (ℕ × Request)} {mem'' : Memory}
    → reply_all (r ∷ rs) s mem ≡ ok (s'', done, mem'')
    → (slicer : Slicer) × (find r.atlas.request_uid s.slicer_map ≡ some slicer)
      × ((rest : List (ℕ × Request)) × (reply_all rs
              (reply_to r.atlas r.buffer slicer s mem).0
              (reply_to r.atlas r.buffer slicer s mem).2
            ≡ ok (s'', rest, mem''))
          × (done ≡ gone_with (reply_to r.atlas r.buffer slicer s mem).1 rest))
unfolding reply_all reply
reply_all_inv r rs s mem e = elim (Option-cases (find r.atlas.request_uid s.slicer_map)) [
  | inl missing ↦ ground (arith, missing)
  | inr (slicer, found) ↦ (slicer, found, after_gone _ _ (rw (found, reply, reply_all) at e))
]

pub reply_all_nil :
    (s : Splicer) (mem : Memory) {s' : Splicer} {done : List (ℕ × Request)} {mem' : Memory}
    → reply_all [] s mem ≡ ok (s', done, mem')
    → (s' ≡ s) × (done ≡ []) × (mem' ≡ mem)
unfolding reply_all
reply_all_nil s mem e = (ground arith, ground arith, ground arith)

module _ (uid : ℕ) where
  other_reply :
      (r : Reply) (slicer : Slicer) (s : Splicer) (mem : Memory) (rest : List (ℕ × Request))
      → (r.atlas.request_uid == uid) ≡ false
      → let (s', entry, _) = reply_to r.atlas r.buffer slicer s mem in
        (find uid s'.slicer_map ≡ find uid s.slicer_map)
        × (completed uid (gone_with entry rest) ≡ completed uid rest)
  unfolding reply_to is_reply_ready completed
  other_reply r slicer s mem rest ne = (
    ground (
      arith,
      ne,
      find-assign r.atlas.request_uid uid
          (record slicer { count_slices = size_t_pred slicer.count_slices }) s.slicer_map,
      find-erase r.atlas.request_uid uid s.slicer_map,
    ),
    ground (arith, ne),
  )

  last_reply :
      (r : Reply) (slicer : Slicer) (s : Splicer) (mem : Memory) (rest : List (ℕ × Request))
      → (r.atlas.request_uid == uid) ≡ true
      → slicer.count_slices ≡ 1
      → let (s', entry, _) = reply_to r.atlas r.buffer slicer s mem in
        (find uid s'.slicer_map ≡ none)
        × (completed uid (gone_with entry rest) ≡ slicer.full_request ∷ completed uid rest)
  unfolding reply_to is_reply_ready completed
  last_reply r slicer s mem rest mine one =
      (ground (arith, mine, find-erase r.atlas.request_uid uid s.slicer_map), ground (arith, mine))

  more_reply :
      (r : Reply) (slicer : Slicer) (s : Splicer) (mem : Memory) (rest : List (ℕ × Request))
      → (r.atlas.request_uid == uid) ≡ true
      → 1 < slicer.count_slices
      → slicer.count_slices < 2 ^ 64
      → let (s', entry, _) = reply_to r.atlas r.buffer slicer s mem in
        (find uid s'.slicer_map ≡ some (record slicer { count_slices = slicer.count_slices - 1 }))
        × (completed uid (gone_with entry rest) ≡ completed uid rest)
  unfolding reply_to is_reply_ready completed
  more_reply r slicer s mem rest mine more small =
      let pred : size_t_pred slicer.count_slices ≡ slicer.count_slices - 1 = omega arith in
      (
        ground (
          arith,
          mine,
          pred,
          find-assign r.atlas.request_uid uid
              (record slicer { count_slices = size_t_pred slicer.count_slices }) s.slicer_map,
        ),
        ground (arith, mine, pred),
      )

  -- A uid that is not in the map gets no reply in a run that succeeds.
  no_more_replies :
      (rs : List Reply) (s : Splicer) (mem : Memory) {s' : Splicer} {done : List (ℕ × Request)}
      {mem' : Memory}
      → find uid s.slicer_map ≡ none
      → reply_all rs s mem ≡ ok (s', done, mem')
      → (count_to uid rs ≡ 0) × (find uid s'.slicer_map ≡ none) × (completed uid done ≡ [])
  unfolding count_to completed
  no_more_replies [] s mem absent e =
      let (same, empty, _) = reply_all_nil s mem e in (refl, rw same absent, rw (empty, completed))
  no_more_replies (r ∷ rs) s mem absent e = elim (Bool-cases (r.atlas.request_uid == uid)) [
    | inl mine ↦
        let (slicer, found, _) = reply_all_inv r rs s mem e in
        let there : find uid s.slicer_map ≡ some slicer =
          ap (λ u. find u s.slicer_map) (sym ((==_iff r.atlas.request_uid uid).0 mine)) ∙ found in
        cc
    | inr other ↦
        let (slicer, found, (rest, next, done_is)) = reply_all_inv r rs s mem e in
        let (map_same, done_same) = other_reply r slicer s mem rest other in
        let (count, absent', none_done) = no_more_replies rs _ _ (map_same ∙ absent) next in
        (rw other count, absent', ap (completed uid) done_is ∙ done_same ∙ none_done)
  ]

  waiting_after-zero :
      (slicer : Slicer) → 0 < slicer.count_slices → waiting_after 0 slicer ≡ some slicer
  waiting_after-zero slicer pos = ground arith

  waiting_after-suc :
      (k : ℕ) (slicer : Slicer)
      → 0 < slicer.count_slices
      → waiting_after k (record slicer { count_slices = slicer.count_slices - 1 })
        ≡ waiting_after (k + 1) slicer
  waiting_after-suc k slicer pos = ground arith

  reply_mine_inv :
      (r : Reply) (rs : List Reply) (s : Splicer) (mem : Memory) (slicer : Slicer) {s'' : Splicer}
      {done : List (ℕ × Request)} {mem'' : Memory}
      → (r.atlas.request_uid == uid) ≡ true
      → find uid s.slicer_map ≡ some slicer
      → reply_all (r ∷ rs) s mem ≡ ok (s'', done, mem'')
      → (rest : List (ℕ × Request)) × (reply_all rs
            (reply_to r.atlas r.buffer slicer s mem).0
            (reply_to r.atlas r.buffer slicer s mem).2
          ≡ ok (s'', rest, mem''))
        × (done ≡ gone_with (reply_to r.atlas r.buffer slicer s mem).1 rest)
  reply_mine_inv r rs s mem slicer mine found e =
      let (slicer0, found0, (rest, next, done_is)) = reply_all_inv r rs s mem e in
      let there : find uid s.slicer_map ≡ some slicer0 =
        ap (λ u. find u s.slicer_map) (sym ((==_iff r.atlas.request_uid uid).0 mine)) ∙ found0 in
      let same : slicer0 ≡ slicer = cc in (rest, rw same at next, rw same at done_is)

  -- A request that waits for replies, at least one and fewer than 2 ^ 64, is complete at exactly the reply that makes up its count,
  -- whatever replies to other requests come between: before it the map keeps its slicer with the
  -- count of those that are missing; with it the slicer goes and the request is done, once; and no
  -- run without a fault has more replies to it.
  pub reply_all_counts :
      (rs : List Reply) (s : Splicer) (mem : Memory) (slicer : Slicer) {s' : Splicer}
      {done : List (ℕ × Request)} {mem' : Memory}
      → find uid s.slicer_map ≡ some slicer
      → 0 < slicer.count_slices
      → slicer.count_slices < 2 ^ 64
      → reply_all rs s mem ≡ ok (s', done, mem')
      → let k = count_to uid rs in
        (k ≤ slicer.count_slices)
        × (find uid s'.slicer_map ≡ waiting_after k slicer)
        × (completed uid done ≡ (if k == slicer.count_slices then slicer.full_request ∷ [] else []))
  unfolding count_to completed
  reply_all_counts [] s mem slicer found pos small e =
      let (same, empty, _) = reply_all_nil s mem e in
      (
        omega arith,
        ap (λ t. find uid t.slicer_map) same ∙ found ∙ sym (waiting_after-zero slicer pos),
        rw (empty, completed) (ground arith),
      )
  reply_all_counts (r ∷ rs) s mem slicer found pos small e =
      elim (Bool-cases (r.atlas.request_uid == uid)) [
        | inr other ↦
            let (_, _, (rest, next, done_is)) = reply_all_inv r rs s mem e in
            let (map_same, done_same) = other_reply r _ s mem rest other in
            let (le, left, dones) =
              reply_all_counts rs _ _ slicer (map_same ∙ found) pos small next in
            rw other (le, left, ap (completed uid) done_is ∙ done_same ∙ dones)
        | inl mine ↦
            let (rest, next, done_is) = reply_mine_inv r rs s mem slicer mine found e in
            elim (ℕ_discrete slicer.count_slices 1) [
              | yes one ↦
                  let (gone, done_same) = last_reply r slicer s mem rest mine one in
                  let (none_left, absent, nothing) = no_more_replies rs _ _ gone next in
                  rw (mine, none_left)
                    (
                      omega arith,
                      absent ∙ ground (arith, one),
                      ap (completed uid) done_is
                          ∙ done_same
                          ∙ ap (◌∷◌ slicer.full_request) nothing
                          ∙ ground (arith, one),
                    )
              | no several ↦
                  let (kept, done_same) = more_reply r slicer s mem rest mine (omega arith) small in
                  let (le, left, dones) =
                    reply_all_counts rs _ _
                      (record slicer { count_slices = slicer.count_slices - 1 }) kept (omega arith)
                      (omega arith) next in
                  rw mine (
                    omega (arith, le),
                    left ∙ waiting_after-suc (count_to uid rs) slicer pos,
                    ap (completed uid) done_is ∙ done_same ∙ dones ∙ ground arith,
                  )
            ]
      ]

  reply_all_found :
      (r : Reply) (rs : List Reply) (s : Splicer) (mem : Memory) (slicer : Slicer)
      → find r.atlas.request_uid s.slicer_map ≡ some slicer
      → reply_all (r ∷ rs) s mem
        ≡ add_gone (reply_to r.atlas r.buffer slicer s mem).1 (
            reply_all rs
              (reply_to r.atlas r.buffer slicer s mem).0
              (reply_to r.atlas r.buffer slicer s mem).2)
  unfolding reply_all reply
  reply_all_found r rs s mem slicer found = rw (found, reply, reply_all)

  -- Replies to one request that waits for as many do not fault.
  pub reply_all_runs :
      (rs : List Reply) (s : Splicer) (mem : Memory) (slicer : Slicer)
      → find uid s.slicer_map ≡ some slicer
      → slicer.count_slices < 2 ^ 64
      → All (λ r. r.atlas.request_uid ≡ uid) rs
      → length rs ≤ slicer.count_slices
      → (out : Splicer × List (ℕ × Request) × Memory) × (reply_all rs s mem ≡ ok out)
  unfolding reply_all
  reply_all_runs [] s mem slicer found small mine le = ((s, [], mem), refl)
  reply_all_runs (r ∷ []) s mem slicer found small mine le =
      let there = ap (λ u. find u s.slicer_map) mine.0 ∙ found in
      (_, reply_all_found r [] s mem slicer there)
  reply_all_runs (r ∷ r' ∷ rs) s mem slicer found small mine le =
      let there = ap (λ u. find u s.slicer_map) mine.0 ∙ found in
      let (kept, _) = more_reply r slicer s mem [] (eq→== _ _ mine.0) (omega arith) small in
      let (s1, entry, mem1) = reply_to r.atlas r.buffer slicer s mem in
      let ((s2, rest, mem2), next) =
        reply_all_runs (r' ∷ rs) s1 mem1 (record slicer { count_slices = slicer.count_slices - 1 })
          kept (omega arith) mine.1 (omega arith) in
      (
        (s2, gone_with entry rest, mem2),
        reply_all_found r (r' ∷ rs) s mem slicer there ∙ ap (add_gone entry) next,
      )

pub count_to-length :
    (uid : ℕ) (rs : List Reply)
    → All (λ r. r.atlas.request_uid ≡ uid) rs
    → count_to uid rs ≡ length rs
unfolding count_to
count_to-length uid [] h = refl
count_to-length uid (r ∷ rs) h = rw (eq→== _ _ h.0, count_to-length uid rs h.1) (omega arith)
