-- ===== src/System/Carries.antt =====
-- Fragments of reads that do not carry a byte of the device as they should, as weights.
use privately_distributed_cl.Common.{
  ℕ, ◌+◌, ◌/◌, ◌^◌, ◌≤◌, ◌<◌, ◌≡◌, sym, ap, ◌∙◌, arith, Bool, ◌&&◌, List, Option, none, some,
  get_or, ltb, ◌==◌, if◌then◌else◌,
}
use native.Mathlib.Decide.{ℕ_discrete}
use privately_distributed_cl.Common.Memory.{Memory}
use privately_distributed_cl.Common.Words.{uint32}
use privately_distributed_cl.Common.Dict.{find, nat_key}
use privately_distributed_cl.Nbd.{Request, code, read}
use privately_distributed_cl.Slicer.{Slicer, DeviceRequest, fragment_size}
use privately_distributed_cl.Splicer.{Splicer, Reply}
use privately_distributed_cl.Splicer.Requests.{requested}
use privately_distributed_cl.Splicer.Registry.{IsSound, requested-find}
use privately_distributed_cl.Splicer.Replied.{replied-find, after}
use privately_distributed_cl.System.Loads.{Weights, IsBelow}
use privately_distributed_cl.System.Invariant.{of_request}
use privately_distributed_cl.System.Misses.{socket_of, place_of}

-- One if this is of a read with a length that fits its type, its fragment is `f` of the device, and it
-- is not as it should be.
abbrev pub unless : ℕ → Option Slicer → ℕ → Bool → ℕ
unless f none idx good = 0
unless f (some slicer) idx good =
    if slicer.full_request.type == code read
      && (ltb slicer.full_request.len (2 ^ 31)
          && slicer.full_request.from / fragment_size + idx == f)
    then (if good then 0 else 1)
    else 0

-- A read of the place where the fragment is.
abbrev pub is_there : List ℕ → ℕ → DeviceRequest → Bool
is_there fds f d =
    d.request.type == code read
    && (d.device_fd == socket_of fds f
        && (d.request.iot_offset == place_of fds f 0 && d.request.data_len == fragment_size))

-- What the fragments on their way do not carry of byte `x`, if it is `v`.
abbrev pub lapses : List ℕ → ℕ → ℕ → ℕ → Splicer → Weights
lapses fds f x v sp = record {
  request = λ q. 0;
  unsent = λ d.
      unless f (find d.request.request_uid sp.slicer_map) d.request.fragment_idx (is_there fds f d);
  out = λ s.
      unless f (find s.1.request.request_uid sp.slicer_map) s.1.request.fragment_idx
        (is_there fds f s.1);
  back = λ s.
      unless f (find s.1.request.request_uid sp.slicer_map) s.1.request.fragment_idx
        (is_there fds f s.1 && s.0 (place_of fds f x) == v);
  reply = λ atlas buffer.
      unless f (find atlas.request_uid sp.slicer_map) atlas.fragment_idx (get_or buffer x 0 == v);
}

unless-requested :
    (q : Request) (sp : Splicer) (f uid idx : ℕ) (good : Bool)
    → IsSound sp
    → find (uint32 sp.request_counter) sp.slicer_map ≡ none
    → unless f (find uid (requested q sp).slicer_map) idx good
      ≤ unless f (find uid sp.slicer_map) idx good
        + (if uid == uint32 sp.request_counter then 1 else 0)
unless-requested q sp f uid idx good sound unused =
    elim (ℕ_discrete (uint32 sp.request_counter) uid) [
      | yes mine ↦ ground (arith, requested-find q sp sound unused uid, mine)
      | no other ↦ ground (arith, requested-find q sp sound unused uid, other)
    ]

pub requested-lapses :
    (fds : List ℕ) (f x v : ℕ) (q : Request) (sp : Splicer)
    → IsSound sp
    → find (uint32 sp.request_counter) sp.slicer_map ≡ none
    → IsBelow
        (lapses fds f x v (requested q sp))
        (lapses fds f x v sp)
        (of_request (uint32 sp.request_counter))
requested-lapses fds f x v q sp sound unused = record {
  request = λ y. omega arith;
  unsent = λ d. unless-requested q sp f d.request.request_uid d.request.fragment_idx _ sound unused;
  out =
      λ s. unless-requested q sp f s.1.request.request_uid s.1.request.fragment_idx _ sound unused;
  back =
      λ s. unless-requested q sp f s.1.request.request_uid s.1.request.fragment_idx _ sound unused;
  reply =
      λ atlas buffer. unless-requested q sp f atlas.request_uid atlas.fragment_idx _ sound unused;
}

module _ (r : Reply) (sp : Splicer) (mem : Memory) (slicer : Slicer) (sound : IsSound sp)
    (found : find r.atlas.request_uid sp.slicer_map ≡ some slicer)
    (some_left : 0 < slicer.count_slices) where
  unless-replied :
      (f uid idx : ℕ) (good : Bool)
      → unless f (find uid (after r sp mem slicer sound found some_left).slicer_map) idx good
        ≤ unless f (find uid sp.slicer_map) idx good + unless f (find uid sp.slicer_map) idx good
  unless-replied f uid idx good = elim (ℕ_discrete r.atlas.request_uid uid) [
    | yes mine ↦
        let there : find uid sp.slicer_map ≡ some slicer =
          ap (λ u. find u sp.slicer_map) (sym mine) ∙ found in
        ground (arith, replied-find r sp mem slicer sound found some_left uid, mine, there)
    | no other ↦ ground (arith, replied-find r sp mem slicer sound found some_left uid, other)
  ]

  pub replied-lapses :
      (fds : List ℕ) (f x v : ℕ)
      → IsBelow
          (lapses fds f x v (after r sp mem slicer sound found some_left))
          (lapses fds f x v sp)
          (lapses fds f x v sp)
  replied-lapses fds f x v = record {
    request = λ y. omega arith;
    unsent = λ d. unless-replied f d.request.request_uid d.request.fragment_idx _;
    out = λ s. unless-replied f s.1.request.request_uid s.1.request.fragment_idx _;
    back = λ s. unless-replied f s.1.request.request_uid s.1.request.fragment_idx _;
    reply = λ atlas buffer. unless-replied f atlas.request_uid atlas.fragment_idx _;
  }
