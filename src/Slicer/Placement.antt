-- ===== src/Slicer/Placement.antt =====
-- Where the bytes of a request go: which IoT, which offset of its storage, which part of the buffer.
use privately_distributed_cl.Common.{
  ℕ, ◌⊎◌, ◌+◌, ◌*◌, ◌/◌, ◌%◌, ◌^◌, ◌≤◌, ◌<◌, ◌≡◌, ◌≢◌, refl, ap, ◌∙◌, arith, List, ok, length,
  get_or, get_elem?, inl, inr, some, get_elem?-tabulate_inv, get_elem?-tabulate,
}
use native.Mathlib.Nat.{mod-lt}
use privately_distributed_cl.Common.Words.{uint32, size_of_int32}
use privately_distributed_cl.Slicer.{Slicer, DeviceRequest, slice, fragment_size}
use privately_distributed_cl.Slicer.Stripe.{fragment_unique, row_bound}
use privately_distributed_cl.Slicer.ClosedForm.{striped, striped_requests, sliced, slice_lem}

-- No socket stands twice in the vector.
abbrev pub IsDistinct : List ℕ → Type 0
IsDistinct fds =
    (a b : ℕ) → a < length fds → b < length fds → get_or fds a 0 ≡ get_or fds b 0 → a ≡ b

-- A successful `Slice` is the striping.
pub slice_inv :
    (c : ℕ) (s : Slicer) {c' : ℕ} {s' : Slicer} {requests : List DeviceRequest}
    → length s.fds_vector < 2 ^ 64
    → slice c s ≡ ok (c', s', requests)
    → (0 < length s.fds_vector) × (s' ≡ sliced c s) × (requests ≡ striped_requests c s)
slice_inv c s few e = elim (slice_lem c s few) [ inl (p, q) ↦ (p, cc, cc) | inr (p, q) ↦ cc ]

-- What a slicer needs for its requests to fit: at most 2 ^ 64 sockets, and the fragments of the
-- request within `rows` rows.
pub record Fits (s : Slicer) (rows : ℕ) : Type 0 where
  pub few : length s.fds_vector < 2 ^ 64
  pub inside :
      s.full_request.from / fragment_size + size_of_int32 s.full_request.len / fragment_size
      ≤ length s.fds_vector * rows
  pub addressable : rows * fragment_size ≤ 2 ^ 32

pub offset_small :
    (n rows f : ℕ)
    → 0 < n
    → f < n * rows
    → rows * fragment_size ≤ 2 ^ 32
    → uint32 (f / n * fragment_size) ≡ f / n * fragment_size
offset_small n rows f h lt fit = omega (arith, row_bound n f rows h lt)

pub rows_apart :
    (p q : ℕ)
    → p ≢ q
    → (p * fragment_size + fragment_size ≤ q * fragment_size)
      ⊎ (q * fragment_size + fragment_size ≤ p * fragment_size)
rows_apart p q ne = omega arith

-- Two fragments in the same storage do not overlap there.
module _ (s : Slicer) (rows first count : ℕ) where
  striped-disjoint :
      (i j : ℕ)
      → 0 < length s.fds_vector
      → first + count ≤ length s.fds_vector * rows
      → rows * fragment_size ≤ 2 ^ 32
      → i < count
      → j < count
      → i ≢ j
      → IsDistinct s.fds_vector
      → (striped s first i).device_fd ≡ (striped s first j).device_fd
      → ((striped s first i).request.iot_offset + fragment_size
          ≤ (striped s first j).request.iot_offset)
        ⊎ ((striped s first j).request.iot_offset + fragment_size
            ≤ (striped s first i).request.iot_offset)
  striped-disjoint i j pos inside fit hi hj ne distinct same =
      rw
        (
          offset_small n rows (first + i) pos (omega arith) fit,
          offset_small n rows (first + j) pos (omega arith) fit,
        )
        (rows_apart ((first + i) / n) ((first + j) / n) λ q. ne (
          omega (
            arith,
            fragment_unique n (first + i) (first + j) pos
                (distinct _ _ (mod-lt (first + i) pos) (mod-lt (first + j) pos) same) q,
          )))
    where
      n : ℕ
      n = length s.fds_vector

module _ (c : ℕ) (s : Slicer) (rows : ℕ) (fits : Fits s rows) {c' : ℕ} {s' : Slicer}
    {requests : List DeviceRequest} (e : slice c s ≡ ok (c', s', requests)) where
  pub request_at :
      (i : ℕ) {a : DeviceRequest}
      → get_elem? requests i ≡ some a
      → (i < size_of_int32 s.full_request.len / fragment_size)
        × (a ≡ striped (sliced c s) (s.full_request.from / fragment_size) i)
  request_at i {a} h =
      let (_, _, r) = slice_inv c s fits.few e in
      let (lt, p) =
        get_elem?-tabulate_inv (size_of_int32 s.full_request.len / fragment_size) 0 i
          (striped (sliced c s) (s.full_request.from / fragment_size)) (rw r at h) in
      let z : 0 + i ≡ i = omega arith in
      (lt, p ∙ ap (striped (sliced c s) (s.full_request.from / fragment_size)) z)

  -- Two different requests of one successful `Slice` that go to the same IoT, over distinct sockets
  -- and within the rows, have ranges of its storage that do not overlap.
  pub slice-disjoint :
      (i j : ℕ) {a b : DeviceRequest}
      → IsDistinct s.fds_vector
      → get_elem? requests i ≡ some a
      → get_elem? requests j ≡ some b
      → i ≢ j
      → a.device_fd ≡ b.device_fd
      → (a.request.iot_offset + a.request.data_len ≤ b.request.iot_offset)
        ⊎ (b.request.iot_offset + b.request.data_len ≤ a.request.iot_offset)
  slice-disjoint i j {a} {b} distinct ha hb ne same =
      let (pos, _, _) = slice_inv c s fits.few e in
      let (hi, ea) = request_at i ha in
      let (hj, eb) = request_at j hb in
      rw (ea, eb)
        (striped-disjoint (sliced c s) rows (s.full_request.from / fragment_size)
          (size_of_int32 s.full_request.len / fragment_size) i j pos fits.inside fits.addressable hi
          hj ne distinct (rw (ea, eb) at same))

  -- After a successful `Slice` of a request that fits into the rows of the IoTs and is aligned, byte `x`
  -- of the request, of the part that `Slice` covers, is byte `from + x` of the
  -- whole device: it is in the request of fragment `x / 1024`, on the IoT and at the offset of the
  -- striping, within the IoT's rows, and at its own place in the buffer.
  pub slice_locates :
      (x : ℕ)
      → s.full_request.from % fragment_size ≡ 0
      → x < size_of_int32 s.full_request.len / fragment_size * fragment_size
      → let n = length s.fds_vector in
        let p = s.full_request.from + x in
        (a : DeviceRequest) × (get_elem? requests (x / fragment_size) ≡ some a)
        × (a.device_fd ≡ get_or s.fds_vector (p / fragment_size % n) 0)
        × (a.request.iot_offset + x % fragment_size
            ≡ p / fragment_size / n * fragment_size + p % fragment_size)
        × (a.request.iot_offset + a.request.data_len ≤ rows * fragment_size)
        × (x % fragment_size < a.request.data_len)
        × (a.m_data + x % fragment_size ≡ s.full_request.m_data + x)
  slice_locates x aligned lt = (
    striped (sliced c s) first i,
    rw r (get_elem?-tabulate count 0 i _ small ∙ ap (λ t. some (striped (sliced c s) first t)) z),
    rw (← fragment) refl,
    rw (offset_small n rows (first + i) pos (omega arith) fits.addressable, ← fragment)
        (omega arith),
    rw (offset_small n rows (first + i) pos (omega arith) fits.addressable)
        (omega (arith, row_bound n (first + i) rows pos (omega arith))),
    omega arith,
    omega arith,
  )
    where
      n : ℕ
      n = length s.fds_vector

      first : ℕ
      first = s.full_request.from / fragment_size

      count : ℕ
      count = size_of_int32 s.full_request.len / fragment_size

      i : ℕ
      i = x / fragment_size

      pos : 0 < n
      pos = (slice_inv c s fits.few e).0

      r : requests ≡ striped_requests c s
      r = (slice_inv c s fits.few e).2

      z : 0 + i ≡ i
      z = omega arith

      small : i < count
      small = omega arith

      fragment : first + i ≡ (s.full_request.from + x) / fragment_size
      fragment = omega arith
