-- ===== src/Disk/Read.antt =====
-- A read of the whole device, made of the fragments of `Slice` and put together by `Reply`.
use privately_distributed_cl.Common.{
  ℕ, ◌+◌, ◌*◌, ◌/◌, ◌%◌, ◌^◌, ◌≤◌, ◌<◌, ◌≡◌, sym, ap, ap₂, ◌∙◌, arith, List, [], ◌∷◌, true, eq→==,
  if_yes, none, ◌==◌, length, get_or, some, Option, ok, All,
}
use privately_distributed_cl.Common.Memory.{Memory, read_bytes, get_or-read_bytes, read_bytes-congr}
use privately_distributed_cl.Common.Words.{uint32, size_of_int32, size_of_int32_nonneg}
use privately_distributed_cl.Common.Dict.{find, nat_key, find-assign_self}
use privately_distributed_cl.Nbd.{Request}
use privately_distributed_cl.Slicer.{Slicer, fragment_size}
use privately_distributed_cl.Slicer.ClosedForm.{striped}
use privately_distributed_cl.Slicer.Placement.{Fits, offset_small}
use privately_distributed_cl.Splicer.{Splicer, Reply, reply_all, RaidedMessage, request}
use privately_distributed_cl.Splicer.Requests.{slicer_for, requested, request_ok}
use privately_distributed_cl.Splicer.Counting.{
  reply_all_runs, reply_all_counts, count_to-length, completed, count_to,
}
use privately_distributed_cl.Splicer.Buffer.{IsFragment, answered, filled_at, reply_all_fills}
use privately_distributed_cl.Disk.{offset_of, disk}

-- The bytes that the IoTs hold for fragment `i` of a request.
abbrev pub fragment_bytes : (ℕ → Memory) → Slicer → ℕ → List ℕ
fragment_bytes storages s i =
    let d = striped s (s.full_request.from / fragment_size) i in
    read_bytes (storages d.device_fd) d.request.iot_offset fragment_size

module _ (s : Slicer) (rows : ℕ) (fits : Fits s rows) (pos : 0 < length s.fds_vector)
    (storages : ℕ → Memory) (aligned : s.full_request.from % fragment_size ≡ 0) where
  -- Byte `k` of the covered part of a request is byte `from + k` of the device.
  fragment_byte :
      (k : ℕ)
      → k < size_of_int32 s.full_request.len / fragment_size * fragment_size
      → get_or (fragment_bytes storages s (k / fragment_size)) (k % fragment_size) 0
        ≡ disk s.fds_vector storages (s.full_request.from + k)
  fragment_byte k lt =
      get_or-read_bytes (storages fd) offset fragment_size (k % fragment_size) (omega arith)
      ∙ ap₂ (λ a b. storages a b) (ap (λ f. get_or s.fds_vector (f % length s.fds_vector) 0) here)
          place
    where
      f : ℕ
      f = s.full_request.from / fragment_size + k / fragment_size

      fd : ℕ
      fd = (striped s (s.full_request.from / fragment_size) (k / fragment_size)).device_fd

      offset : ℕ
      offset =
          (striped s (s.full_request.from / fragment_size) (k / fragment_size)).request.iot_offset

      here : f ≡ (s.full_request.from + k) / fragment_size
      here = omega arith

      place : offset + k % fragment_size ≡ offset_of s.fds_vector (s.full_request.from + k)
      place =
          ap₂ ◌+◌
            (offset_small (length s.fds_vector) rows f pos (omega (arith, fits.inside))
                fits.addressable
              ∙ ap (λ t. t / length s.fds_vector * fragment_size) here)
            (omega arith)

same_buffer :
    (found : Option Slicer) {a b : Slicer}
    → found ≡ some a
    → found ≡ some b
    → b.full_request.m_data ≡ a.full_request.m_data
same_buffer found ea eb = ground arith

IsFragment-mine :
    (uid count : ℕ) (payload : ℕ → List ℕ) (rs : List Reply)
    → All (IsFragment uid count payload) rs
    → All (λ r. r.atlas.request_uid ≡ uid) rs
IsFragment-mine uid count payload [] vs = tt
IsFragment-mine uid count payload (r ∷ rs) vs =
    (vs.0.mine, IsFragment-mine uid count payload rs vs.1)

module _ (q : Request) (sp : Splicer) (rows : ℕ) (storages : ℕ → Memory) (rs : List Reply)
    (fits : Fits (slicer_for q sp) rows) (pos : 0 < length sp.fds_vector)
    (aligned : q.from % fragment_size ≡ 0) (nonneg : q.len < 2 ^ 31)
    (vs : All
      (IsFragment
        (uint32 sp.request_counter)
        (q.len / fragment_size)
        (fragment_bytes storages (slicer_for q sp)))
      rs) where
  waits : find (uint32 sp.request_counter) (requested q sp).slicer_map ≡ some (slicer_for q sp)
  waits = find-assign_self (uint32 sp.request_counter) (slicer_for q sp) sp.slicer_map

  buffer_byte :
      (mem : Memory) (k : ℕ) {sp'' : Splicer} {done : List (ℕ × Request)} {mem' : Memory}
      → ((i : ℕ) → i < q.len / fragment_size → answered i rs ≡ true)
      → reply_all rs (requested q sp) mem ≡ ok (sp'', done, mem')
      → k < q.len / fragment_size * fragment_size
      → mem' (q.m_data + k) ≡ disk sp.fds_vector storages (q.from + k)
  buffer_byte mem k all run lt =
      reply_all_fills (uint32 sp.request_counter) (q.len / fragment_size) q.m_data
        (fragment_bytes storages (slicer_for q sp)) (omega arith) rs _ mem (q.m_data + k) vs
        (λ slicer there. same_buffer _ waits there) run
      ∙ filled_at q.m_data (fragment_bytes storages (slicer_for q sp)) rs mem k
          (all (k / fragment_size) (omega arith))
      ∙ fragment_byte (slicer_for q sp) rows fits pos storages aligned k
          (rw (size_of_int32_nonneg q.len nonneg) lt)

  -- A request of at least one fragment, of less than 2 ^ 31 bytes, aligned and within the rows of the
  -- IoTs, is split by `Request`, and each fragment is answered
  -- once, in any order, with what its IoT holds. Then every `Reply` succeeds; the request is done,
  -- once, and gone from the map; and its buffer has the bytes of the whole device from `from` on,
  -- as far as the fragments reach.
  pub read_lem :
      (mem : Memory)
      → fragment_size ≤ q.len
      → length rs ≡ q.len / fragment_size
      → ((i : ℕ) → i < q.len / fragment_size → answered i rs ≡ true)
      → let uid = uint32 sp.request_counter in
        let covered = q.len / fragment_size * fragment_size in
        (m : RaidedMessage) × (request q sp ≡ ok (requested q sp, m))
        × ((out : Splicer × List (ℕ × Request) × Memory) × (reply_all rs (requested q sp) mem
              ≡ ok out)
            × (find uid out.0.slicer_map ≡ none)
            × (completed uid out.1 ≡ q ∷ [])
            × (read_bytes out.2 q.m_data covered
                ≡ read_bytes (disk sp.fds_vector storages) q.from covered))
  read_lem mem some_fragment once all =
      let e = request_ok q sp fits.few pos in
      let slices : size_of_int32 q.len / fragment_size ≡ q.len / fragment_size =
        ap (λ t. t / fragment_size) (size_of_int32_nonneg q.len nonneg) in
      let mine = IsFragment-mine _ _ _ rs vs in
      let (out, run) =
        reply_all_runs (uint32 sp.request_counter) rs (requested q sp) mem (slicer_for q sp) waits
          (omega (arith, slices)) mine (omega (arith, slices)) in
      let (_, left, dones) =
        reply_all_counts (uint32 sp.request_counter) rs (requested q sp) mem (slicer_for q sp) waits
          (omega (arith, slices)) (omega (arith, slices)) run in
      let full : (count_to (uint32 sp.request_counter) rs == (slicer_for q sp).count_slices)
          ≡ true =
        eq→== _ _ (count_to-length _ rs mine ∙ once ∙ sym slices) in
      (
        _,
        e,
        (
          out,
          run,
          left ∙ if_yes _ _ full,
          dones ∙ if_yes _ _ full,
          read_bytes-congr _ _ _ _ _ λ k lt. buffer_byte mem k all run lt,
        ),
      )
