-- ===== src/System/Strays.antt =====
-- Fragments whose header does not fit a request that waits, as weights.
use privately_distributed_cl.Common.{
  ℕ, zero, suc, ◌+◌, ◌*◌, ◌/◌, ◌≤◌, ◌<◌, ◌≡◌, refl, sym, ap, ◌∙◌, arith, Bool, false, ◌&&◌, List,
  Option, none, some, length, ltb, ◌==◌, if◌then◌else◌, tabulate,
}
use native.Mathlib.Decide.{ℕ_discrete}
use privately_distributed_cl.Common.Memory.{Memory, length-read_bytes}
use privately_distributed_cl.Common.Words.{uint32, size_of_int32}
use privately_distributed_cl.Common.Sums.{sum_by}
use privately_distributed_cl.Common.Dict.{find, nat_key}
use privately_distributed_cl.Atlas.{AtlasHeader}
use privately_distributed_cl.Nbd.{Request}
use privately_distributed_cl.Slicer.{Slicer, DeviceRequest, fragment_size}
use privately_distributed_cl.Slicer.ClosedForm.{striped}
use privately_distributed_cl.Splicer.{Splicer, Reply}
use privately_distributed_cl.Splicer.Requests.{slicer_for, requested}
use privately_distributed_cl.Splicer.Registry.{fragments, IsSound, requested-find}
use privately_distributed_cl.Splicer.Replied.{replied-find, after}
use privately_distributed_cl.Daemon.{reply_wrapper}
use privately_distributed_cl.System.Wires.{buffer_for}
use privately_distributed_cl.System.Loads.{Weights, IsBelow, weight_of_task}
use privately_distributed_cl.System.Invariant.{of_request}

-- Whether a header is of a fragment of the request that waits under its uid.
abbrev pub is_home_of : AtlasHeader → Option Slicer → Bool
is_home_of atlas none = false
is_home_of atlas (some slicer) =
    ltb atlas.fragment_idx (fragments slicer.full_request) && atlas.data_len == fragment_size

abbrev pub stray : Splicer → AtlasHeader → ℕ
stray sp atlas = if is_home_of atlas (find atlas.request_uid sp.slicer_map) then 0 else 1

abbrev pub strays : Splicer → Weights
strays sp = record {
  request = λ q. 0;
  unsent = λ d. stray sp d.request;
  out = λ x. stray sp x.1.request;
  back = λ x. stray sp x.1.request;
  reply = λ atlas buffer. stray sp atlas + (if length buffer == atlas.data_len then 0 else 1);
}

-- A new request takes the home of none.
stray-requested :
    (q : Request) (sp : Splicer) (atlas : AtlasHeader)
    → IsSound sp
    → find (uint32 sp.request_counter) sp.slicer_map ≡ none
    → stray (requested q sp) atlas ≤ stray sp atlas
stray-requested q sp atlas sound unused =
    elim (ℕ_discrete (uint32 sp.request_counter) atlas.request_uid) [
      | yes mine ↦
          let missing : find atlas.request_uid sp.slicer_map ≡ none =
            ap (λ u. find u sp.slicer_map) (sym mine) ∙ unused in
          ground (arith, missing)
      | no other ↦ ground (arith, requested-find q sp sound unused atlas.request_uid, other)
    ]

-- A reply takes the home of the others of its request at most, and only if it is the last.
stray-replied :
    (r : Reply) (sp : Splicer) (mem : Memory) (slicer : Slicer) (sound : IsSound sp)
    (found : find r.atlas.request_uid sp.slicer_map ≡ some slicer)
    (some_left : 0 < slicer.count_slices) (atlas : AtlasHeader)
    → stray (after r sp mem slicer sound found some_left) atlas
      ≤ stray sp atlas
        + (if slicer.count_slices == 1
            then (if atlas.request_uid == r.atlas.request_uid then 1 else 0)
            else 0)
stray-replied r sp mem slicer sound found some_left atlas =
    elim (ℕ_discrete r.atlas.request_uid atlas.request_uid) [
      | yes mine ↦
          let there : find atlas.request_uid sp.slicer_map ≡ some slicer =
            ap (λ u. find u sp.slicer_map) (sym mine) ∙ found in
          ground (
            arith,
            replied-find r sp mem slicer sound found some_left atlas.request_uid,
            mine,
            there,
          )
      | no other ↦
          ground
            (arith, replied-find r sp mem slicer sound found some_left atlas.request_uid, other)
    ]

-- The fragments of a request that was entered are at home.
pub striped-at_home :
    (q : Request) (sp : Splicer) (n j : ℕ)
    → IsSound sp
    → find (uint32 sp.request_counter) sp.slicer_map ≡ none
    → j + n ≤ fragments q
    → sum_by
        (λ (d : DeviceRequest). stray (requested q sp) d.request)
        (tabulate n j (striped (slicer_for q sp) (q.from / fragment_size)))
      ≡ 0
striped-at_home q sp zero j sound unused le = refl
striped-at_home q sp (suc n) j sound unused le =
    let small : uint32 j < fragments q = omega (arith, le) in
    let home : find (uint32 sp.request_counter) (requested q sp).slicer_map
        ≡ some (slicer_for q sp) =
      ground (arith, requested-find q sp sound unused (uint32 sp.request_counter)) in
    ground (arith, home, small, striped-at_home q sp n (suc j) sound unused (omega (arith, le)))

pub requested-IsBelow :
    (q : Request) (sp : Splicer)
    → IsSound sp
    → find (uint32 sp.request_counter) sp.slicer_map ≡ none
    → IsBelow (strays (requested q sp)) (strays sp) (strays sp)
requested-IsBelow q sp sound unused =
    let less = λ (a : AtlasHeader). stray-requested q sp a sound unused in
    record {
      request = λ x. omega arith;
      unsent = λ d. omega (arith, less d.request);
      out = λ x. omega (arith, less x.1.request);
      back = λ x. omega (arith, less x.1.request);
      reply = λ atlas buffer. omega (arith, less atlas);
    }

-- The fragments of the request that a reply is to, if it is the last.
abbrev pub left_behind : Reply → Splicer → Slicer → Weights
left_behind r sp slicer =
    if slicer.count_slices == 1 then of_request r.atlas.request_uid else strays sp

pub replied-IsBelow :
    (r : Reply) (sp : Splicer) (mem : Memory) (slicer : Slicer) (sound : IsSound sp)
    (found : find r.atlas.request_uid sp.slicer_map ≡ some slicer)
    (some_left : 0 < slicer.count_slices)
    → IsBelow
        (strays (after r sp mem slicer sound found some_left))
        (strays sp)
        (left_behind r sp slicer)
replied-IsBelow r sp mem slicer sound found some_left =
    let less = stray-replied r sp mem slicer sound found some_left in
    record {
      request = λ x. omega arith;
      unsent = λ d. ground (arith, less d.request);
      out = λ x. ground (arith, less x.1.request);
      back = λ x. ground (arith, less x.1.request);
      reply = λ atlas buffer. ground (arith, less atlas);
    }

pub whole_buffer :
    (fresh : ℕ → List ℕ) (st : Memory) (d : DeviceRequest)
    → length (fresh d.request.data_len) ≡ d.request.data_len
    → ◌≡◌ {A = ℕ} (if length (buffer_for fresh st d) == d.request.data_len then 0 else 1) 0
whole_buffer fresh st d ample =
    ground (arith, ample, length-read_bytes st d.request.iot_offset d.request.data_len)

pub home_place :
    (sp : Splicer) (slicer : Slicer) (atlas : AtlasHeader) (buffer : List ℕ)
    → find atlas.request_uid sp.slicer_map ≡ some slicer
    → weight_of_task (strays sp) (reply_wrapper atlas buffer) ≡ 0
    → (length buffer ≡ atlas.data_len)
      × (uint32 (atlas.data_len * atlas.fragment_idx) + atlas.data_len
          ≤ size_of_int32 slicer.full_request.len)
home_place sp slicer atlas buffer found at_home =
    let whole : length buffer ≡ atlas.data_len = ground (arith, found, at_home) in
    let size : atlas.data_len ≡ fragment_size = ground (arith, found, at_home) in
    let before : atlas.fragment_idx < fragments slicer.full_request =
      ground (arith, found, at_home) in
    (whole, omega (arith, before, size, ap (λ n. n * atlas.fragment_idx) size))
