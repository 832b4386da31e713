-- ===== src/Slicer.antt =====
-- concrete/slicer/slicer.cpp, `Slicer`: a request on the whole device is cut into fragments of
-- 1024 bytes, which go round the IoT devices.
pub mod Stripe
pub mod ClosedForm
pub mod Placement
use privately_distributed_cl.Common.{
  ℕ, zero, suc, ◌+◌, ◌*◌, ◌/◌, ◌%◌, ◌^◌, Bool, List, [], ◌∷◌, Option, none, some, Outcome, ok,
  fault, out_of_range, division_by_zero, ◌>>=◌, length, get_elem?, ◌==◌, if◌then◌else◌,
}
use privately_distributed_cl.Common.Words.{uint32, size_t, size_t_pred, size_of_int32}
use privately_distributed_cl.Atlas.{AtlasHeader}
use privately_distributed_cl.Nbd.{Request}

abbrev pub fragment_size : ℕ
fragment_size = 1024

-- `m_deviceFd` is the socket of an IoT, and `m_data` the address of the fragment's bytes.
pub record DeviceRequest : Type 0 where
  pub request : AtlasHeader
  pub device_fd : ℕ
  pub m_data : ℕ

pub record Slicer : Type 0 where
  pub fds_vector : List ℕ
  pub full_request : Request
  pub count_slices : ℕ
  pub request_uid : ℕ

-- The constructor leaves `m_countSlices` and `m_requestUid` as they are in memory: `Slice` sets
-- both before anything reads them, so any value will do.
unfoldable pub new_slicer : List ℕ → Request → Slicer
new_slicer fds full_request = record {
  fds_vector = fds;
  full_request = full_request;
  count_slices = 0;
  request_uid = 0;
}

-- `vector::at`.
abbrev pub at {ℓ} : {A : Type ℓ} → List A → ℕ → Outcome A
at xs i = elim (get_elem? xs i) [ none ↦ fault out_of_range | some x ↦ ok x ]

-- What one round of the loop fills in.
unfoldable pub device_request : Slicer → ℕ → ℕ → ℕ → DeviceRequest
device_request s fragment_counter starting_offset fd = record {
  request = record {
    request_uid = s.request_uid;
    fragment_idx = uint32 fragment_counter;
    alarm_uid = 0;
    iot_offset = uint32 starting_offset;
    type = s.full_request.type;
    data_len = fragment_size;
  };
  device_fd = fd;
  m_data = s.full_request.m_data + fragment_counter * fragment_size;
}

-- The loop of `Slice`, with the rounds that are left.
unfoldable pub slice_loop : Slicer → ℕ → ℕ → ℕ → ℕ → Outcome (List DeviceRequest)
slice_loop s zero fragment_counter curr_iot starting_offset = ok []
slice_loop s (suc rounds) fragment_counter curr_iot starting_offset = do
  fd ← at s.fds_vector curr_iot
  let next_iot = size_t (curr_iot + 1) % length s.fds_vector
  let next_offset =
      if next_iot == 0 then size_t (starting_offset + fragment_size) else starting_offset
  rest ← slice_loop s rounds (fragment_counter + 1) next_iot next_offset
  ok (device_request s fragment_counter starting_offset fd ∷ rest)

-- `Slice()`, with the static `request_counter` before and after. The requests, the slicer with its
-- two members set, and the counter.
unfoldable pub slice : ℕ → Slicer → Outcome (ℕ × Slicer × List DeviceRequest)
slice request_counter s0 =
    let num_of_fragment = size_of_int32 s0.full_request.len / fragment_size in
    let num_of_iots = length s0.fds_vector in
    let first_frag_idx = s0.full_request.from / fragment_size in
    let s = record s0 { request_uid = uint32 request_counter; count_slices = num_of_fragment } in
    let starting_iot = first_frag_idx % num_of_iots in
    let starting_offset = size_t (first_frag_idx / num_of_iots * fragment_size) in
    if num_of_iots == 0 then fault division_by_zero else (do
      requests ← slice_loop s num_of_fragment 0 starting_iot starting_offset
      ok (size_t (request_counter + 1), s, requests))

-- `IsReplyReady()`: the count goes down by one, and the request is complete at 0.
unfoldable pub is_reply_ready : Slicer → Bool × Slicer
is_reply_ready s =
    let count = size_t_pred s.count_slices in (count == 0, record s { count_slices = count })
