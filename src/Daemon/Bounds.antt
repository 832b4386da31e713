-- ===== src/Daemon/Bounds.antt =====
-- A request within the size of the device stays within the storage of each IoT and within its buffer.
use privately_distributed_cl.Common.{
  ℕ, ◌+◌, ◌*◌, ◌/◌, ◌%◌, ◌^◌, ◌≤◌, ◌<◌, ◌≡◌, refl, arith, List, ok, length, get_or, get_elem?, some,
}
use native.Mathlib.Nat.{mod-lt}
use privately_distributed_cl.Common.Words.{size_of_int32_nonneg}
use privately_distributed_cl.Slicer.{Slicer, DeviceRequest, slice, fragment_size}
use privately_distributed_cl.Slicer.Stripe.{row_bound}
use privately_distributed_cl.Slicer.Placement.{Fits, slice_inv, request_at, offset_small}
use privately_distributed_cl.IotServer.{storage_size}
use privately_distributed_cl.Daemon.{size}

-- A request for an IoT with the parts of the storage and of the buffer that it is about.
pub record InBounds (s : Slicer) (d : DeviceRequest) : Type 0 where
  pub stored : d.request.iot_offset + d.request.data_len ≤ storage_size
  pub placed : d.m_data ≡ s.full_request.m_data + d.request.fragment_idx * fragment_size
  pub ends : d.m_data + d.request.data_len ≤ s.full_request.m_data + s.full_request.len
  pub counted : (d.request.fragment_idx + 1) * fragment_size ≤ s.full_request.len
  pub device : ℕ
  pub device_in : device < length s.fds_vector
  pub device_is : d.device_fd ≡ get_or s.fds_vector device 0

-- How many fragments the storage of an IoT has.
abbrev rows : ℕ
rows = 524288

module _ (c : ℕ) (s : Slicer) {c' : ℕ} {s' : Slicer} {requests : List DeviceRequest}
    (few : length s.fds_vector < 2 ^ 64) (e : slice c s ≡ ok (c', s', requests))
    (inside : s.full_request.from + s.full_request.len ≤ size) where
  device-Fits : Fits s rows
  device-Fits =
      let (pos, _, _) = slice_inv c s few e in
      let same = size_of_int32_nonneg s.full_request.len (omega (arith, inside)) in
      record { few = few; inside = rw same (omega (arith, pos, inside)); addressable = omega arith }

  -- Each request of a successful `Slice`, over fewer than 2 ^ 64 sockets, of a request that ends within the
  -- size of the device, has a range within the storage of its IoT, and bytes within the buffer, at
  -- the place that its number gives, which is within the request; and it goes to one of the sockets.
  pub slice-InBounds : (i : ℕ) {d : DeviceRequest} → get_elem? requests i ≡ some d → InBounds s d
  slice-InBounds i {d} at =
      let (pos, _, _) = slice_inv c s few e in
      let same = size_of_int32_nonneg s.full_request.len (omega (arith, inside)) in
      let (lt, is) = request_at c s rows device-Fits e i at in
      let lt1 : i < s.full_request.len / fragment_size = rw same at lt in
      let n = length s.fds_vector in
      let first = s.full_request.from / fragment_size in
      let f_in : first + i < n * rows = omega (arith, pos, lt1, inside) in
      let row = row_bound n (first + i) rows pos f_in in
      let offset = offset_small n rows (first + i) pos f_in (omega arith) in
      rw is (record {
        stored = rw offset (omega (arith, row));
        placed = omega (arith, lt1, inside);
        ends = omega (arith, lt1);
        counted = omega (arith, lt1, inside);
        device = (first + i) % n;
        device_in = mod-lt (first + i) pos;
        device_is = refl;
      })
