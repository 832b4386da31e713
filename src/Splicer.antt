-- ===== src/Splicer.antt =====
-- concrete/communication_manager/communication_manager.cpp, `Splicer`: the requests that wait for
-- replies, and the two handlers. `g_mutex` makes each update of the map one step.
pub mod Counting
pub mod Buffer
pub mod Requests
pub mod Registry
pub mod Replied
use privately_distributed_cl.Common.{
  ℕ, ◌+◌, ◌*◌, Bool, true, false, List, [], ◌∷◌, ◌++◌, Option, none, some, Outcome, ok, fault,
  null_dereference, ◌>>=◌, take, if◌then◌else◌,
}
use privately_distributed_cl.Common.Words.{uint32}
use privately_distributed_cl.Common.Memory.{Memory, write_bytes}
use privately_distributed_cl.Common.Dict.{Dict, find, assign, erase, nat_key}
use privately_distributed_cl.Atlas.{AtlasHeader}
use privately_distributed_cl.Nbd.{Request}
use privately_distributed_cl.Slicer.{Slicer, DeviceRequest, new_slicer, slice, is_reply_ready}

-- With the static `request_counter` of `Slicer::Slice`, which `Splicer` alone calls.
pub record Splicer : Type 0 where
  pub fds_vector : List ℕ
  pub slicer_map : Dict ℕ Slicer
  pub request_counter : ℕ

-- `RaidedMessage`, with its constructor and `GetVector`.
pub record RaidedMessage : Type 0 where
  pub request_vector : List DeviceRequest

pub raided_message : List DeviceRequest → RaidedMessage
raided_message requests = record { request_vector = requests }

unfoldable pub get_vector : RaidedMessage → List DeviceRequest
get_vector m = m.request_vector

-- The constructor; the counter is that of the program.
unfoldable pub new_splicer : List ℕ → ℕ → Splicer
new_splicer fds counter = record { fds_vector = fds; slicer_map = []; request_counter = counter }

-- `Splicer::Request`.
unfoldable pub request : Request → Splicer → Outcome (Splicer × RaidedMessage)
unfolding new_slicer raided_message
request r s = do
  (counter, slicer, requests) ← slice s.request_counter (new_slicer s.fds_vector r)
  let map' = assign slicer.request_uid slicer s.slicer_map
  ok (record s { slicer_map = map'; request_counter = counter }, raided_message requests)

-- What `Reply` does once it has the slicer. The buffer behind `data` is the list of its bytes. With
-- the entry of a complete request goes the last reference to the request, whose deleter answers
-- the kernel: the second part of the result is the entry that goes.
pub reply_to :
    AtlasHeader → List ℕ → Slicer → Splicer → Memory → Splicer × Option (ℕ × Request) × Memory
reply_to atlas buffer slicer s mem =
    let dst = slicer.full_request.m_data + uint32 (atlas.data_len * atlas.fragment_idx) in
    let mem' = write_bytes mem dst (take atlas.data_len buffer) in
    let (ready, slicer') = is_reply_ready slicer in
    if ready
    then (
      record s { slicer_map = erase atlas.request_uid s.slicer_map },
      some (atlas.request_uid, slicer.full_request),
      mem',
    )
    else (record s { slicer_map = assign atlas.request_uid slicer' s.slicer_map }, none, mem')

-- `Splicer::Reply`. For an unknown uid `m_slicerMap[uid]` makes a null entry, whose use is a fault.
unfoldable pub reply :
    AtlasHeader → List ℕ → Splicer → Memory → Outcome (Splicer × Option (ℕ × Request) × Memory)
reply atlas buffer s mem = elim (find atlas.request_uid s.slicer_map) [
  | none ↦ fault null_dereference
  | some slicer ↦ ok (reply_to atlas buffer slicer s mem)
]

-- A reply of an IoT, with the bytes behind its header.
pub record Reply : Type 0 where
  pub atlas : AtlasHeader
  pub buffer : List ℕ

-- The entry that goes, if any, before the others.
abbrev pub gone_with : Option (ℕ × Request) → List (ℕ × Request) → List (ℕ × Request)
gone_with none rest = rest
gone_with (some q) rest = q ∷ rest

-- Replies one after the other, with the requests that they complete.
pub reply_all : List Reply → Splicer → Memory → Outcome (Splicer × List (ℕ × Request) × Memory)
reply_all [] s mem = ok (s, [], mem)
reply_all (r ∷ rs) s mem = do
  (s', done, mem') ← reply r.atlas r.buffer s mem
  (s'', rest, mem'') ← reply_all rs s' mem'
  ok (s'', gone_with done rest, mem'')
