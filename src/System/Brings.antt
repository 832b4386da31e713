-- ===== src/System/Brings.antt =====
-- Requests whose buffers have one address of the memory, and their fragments that bring it, as weights.
use privately_distributed_cl.Common.{
  ℕ, zero, suc, ◌+◌, ◌*◌, ◌/◌, ◌^◌, ◌≤◌, ◌<◌, ◌≡◌, sym, ap, ◌∙◌, arith, ◌&&◌, Option, none, some,
  leb, ltb, ◌==◌, if◌then◌else◌, tabulate,
}
use native.Mathlib.Decide.{ℕ_discrete, dec_lt}
use privately_distributed_cl.Common.Memory.{Memory}
use privately_distributed_cl.Common.Words.{uint32}
use privately_distributed_cl.Common.Sums.{sum_by}
use privately_distributed_cl.Common.Dict.{find, nat_key}
use privately_distributed_cl.Nbd.{Request, code, read}
use privately_distributed_cl.Slicer.{Slicer, fragment_size}
use privately_distributed_cl.Slicer.ClosedForm.{striped}
use privately_distributed_cl.Splicer.{Splicer, Reply}
use privately_distributed_cl.Splicer.Requests.{slicer_for, requested}
use privately_distributed_cl.Splicer.Registry.{fragments, IsSound, requested-find}
use privately_distributed_cl.Splicer.Replied.{replied-find, after}
use privately_distributed_cl.System.Loads.{Weights, IsBelow}
use privately_distributed_cl.System.Invariant.{of_request}

-- One if the whole fragments of a request have an address in their buffer.
abbrev pub touches : ℕ → Request → ℕ
touches a q = if leb q.m_data a && ltb a (q.m_data + fragments q * fragment_size) then 1 else 0

-- One for a request that has the address in its buffer, and is no read that puts byte `x` of fragment `f`
-- of the device there.
abbrev pub misuses : ℕ → ℕ → ℕ → Request → ℕ
misuses a f x q =
    if q.type == code read
      && (ltb q.len (2 ^ 31)
          && q.m_data + f * fragment_size + x == a + q.from / fragment_size * fragment_size)
    then 0
    else touches a q

-- One for the fragment of a request that has the address.
abbrev pub hands : ℕ → Option Slicer → ℕ → ℕ
hands a none idx = 0
hands a (some slicer) idx =
    if ltb idx (fragments slicer.full_request)
      && (leb (slicer.full_request.m_data + idx * fragment_size) a
          && ltb a (slicer.full_request.m_data + idx * fragment_size + fragment_size))
    then 1
    else 0

abbrev pub brings : ℕ → Splicer → Weights
brings a sp = record {
  request = touches a;
  unsent = λ d. hands a (find d.request.request_uid sp.slicer_map) d.request.fragment_idx;
  out = λ s. hands a (find s.1.request.request_uid sp.slicer_map) s.1.request.fragment_idx;
  back = λ s. hands a (find s.1.request.request_uid sp.slicer_map) s.1.request.fragment_idx;
  reply = λ atlas buffer. hands a (find atlas.request_uid sp.slicer_map) atlas.fragment_idx;
}

module _ (a : ℕ) (q : Request) (sp : Splicer) (sound : IsSound sp)
    (unused : find (uint32 sp.request_counter) sp.slicer_map ≡ none) where
  hands-requested :
      (uid idx : ℕ)
      → hands a (find uid sp.slicer_map) idx
        ≤ hands a (find uid (requested q sp).slicer_map) idx
          + (if uid == uint32 sp.request_counter then 1 else 0)
  hands-requested uid idx = elim (ℕ_discrete (uint32 sp.request_counter) uid) [
    | yes mine ↦ ground (arith, requested-find q sp sound unused uid, mine)
    | no other ↦ ground (arith, requested-find q sp sound unused uid, other)
  ]

  pub requested-brings :
      IsBelow (brings a sp) (brings a (requested q sp)) (of_request (uint32 sp.request_counter))
  requested-brings = record {
    request = λ y. omega arith;
    unsent = λ d. hands-requested d.request.request_uid d.request.fragment_idx;
    out = λ s. hands-requested s.1.request.request_uid s.1.request.fragment_idx;
    back = λ s. hands-requested s.1.request.request_uid s.1.request.fragment_idx;
    reply = λ atlas buffer. hands-requested atlas.request_uid atlas.fragment_idx;
  }

  -- The fragment with the address is among those of the request.
  pub striped-brings :
      (n j : ℕ)
      → q.len < 2 ^ 31
      → j + n ≡ fragments q
      → q.m_data + j * fragment_size ≤ a
      → touches a q
        ≤ sum_by
            (brings a (requested q sp)).unsent
            (tabulate n j (striped (slicer_for q sp) (q.from / fragment_size)))
  striped-brings zero j short all low = ground (arith, all, low)
  striped-brings (suc n) j short all low =
      let small : uint32 j ≡ j = ground (arith, all, short) in
      let home : find (uint32 sp.request_counter) (requested q sp).slicer_map
          ≡ some (slicer_for q sp) =
        ground (arith, requested-find q sp sound unused (uint32 sp.request_counter)) in
      elim (dec_lt a (q.m_data + j * fragment_size + fragment_size)) [
        | yes here ↦ ground (arith, home, small, low, here)
        | no later ↦
            omega
              (arith, striped-brings n (suc j) short (omega (arith, all)) (omega (arith, later)))
      ]

  -- A read that has the address in its buffer has a fragment for it.
  pub all_brings :
      (f x : ℕ)
      → misuses a f x q ≡ 0
      → touches a q
        ≤ sum_by
            (brings a (requested q sp)).unsent
            (tabulate (fragments q) 0 (striped (slicer_for q sp) (q.from / fragment_size)))
  all_brings f x used = elim (ℕ_discrete (touches a q) 0) [
    | yes apart ↦ omega (arith, apart)
    | no touched ↦
        let short : q.len < 2 ^ 31 = ground (arith, touched, used) in
        let low : q.m_data + 0 * fragment_size ≤ a = ground (arith, touched) in
        striped-brings (fragments q) 0 short (omega arith) low
  ]

module _ (a : ℕ) (r : Reply) (sp : Splicer) (mem : Memory) (slicer : Slicer) (sound : IsSound sp)
    (found : find r.atlas.request_uid sp.slicer_map ≡ some slicer)
    (some_left : 0 < slicer.count_slices) where
  -- Those that lose their request with its last reply.
  abbrev pub orphans : Weights
  orphans =
      if slicer.count_slices == 1
      then of_request r.atlas.request_uid
      else brings a (after r sp mem slicer sound found some_left)

  hands-replied :
      (uid idx : ℕ)
      → hands a (find uid sp.slicer_map) idx
        ≤ hands a (find uid (after r sp mem slicer sound found some_left).slicer_map) idx
          + (if slicer.count_slices == 1 then (if uid == r.atlas.request_uid then 1 else 0) else 0)
  hands-replied uid idx = elim (ℕ_discrete r.atlas.request_uid uid) [
    | yes mine ↦
        let there : find uid sp.slicer_map ≡ some slicer =
          ap (λ u. find u sp.slicer_map) (sym mine) ∙ found in
        ground (arith, replied-find r sp mem slicer sound found some_left uid, mine, there)
    | no other ↦ ground (arith, replied-find r sp mem slicer sound found some_left uid, other)
  ]

  pub replied-brings :
      IsBelow (brings a sp) (brings a (after r sp mem slicer sound found some_left)) orphans
  replied-brings = record {
    request = λ y. ground arith;
    unsent = λ d. ground (arith, hands-replied d.request.request_uid d.request.fragment_idx);
    out = λ s. ground (arith, hands-replied s.1.request.request_uid s.1.request.fragment_idx);
    back = λ s. ground (arith, hands-replied s.1.request.request_uid s.1.request.fragment_idx);
    reply = λ atlas buffer. ground (arith, hands-replied atlas.request_uid atlas.fragment_idx);
  }
