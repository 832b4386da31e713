-- ===== src/Examples/Slices.antt =====
-- `Slice` at concrete requests.
use privately_distributed_cl.Common.{
  ℕ, ◌+◌, ◌≡◌, ◌≤◌, ◌<◌, ◌⊎◌, refl, List, [], ◌∷◌, some, Outcome, ok, fault, division_by_zero,
  length, get_elem?, arith, map,
}
use privately_distributed_cl.Slicer.{Slicer, DeviceRequest, slice, slice_loop, device_request}
use privately_distributed_cl.Slicer.ClosedForm.{slice_lem, slice-ok, sliced, striped_requests}
use privately_distributed_cl.Slicer.Placement.{slice_locates, slice-disjoint, Fits}
use privately_distributed_cl.Examples.{write_slicer, two_fds, two_fds-IsDistinct}

placed : DeviceRequest → ℕ × ℕ × ℕ
placed d = (d.device_fd, d.request.iot_offset, d.m_data)

abbrev places : Outcome (ℕ × Slicer × List DeviceRequest) → List (ℕ × ℕ × ℕ)
places (ok (c, s, requests)) = map placed requests
places (fault f) = []

-- The second fragment of the device is on the second IoT, the third in the second row.
slice_test :
    places (slice 7 write_slicer)
    ≡ (6, 0, 100) ∷ (5, 1024, 1124) ∷ (6, 1024, 2148) ∷ (5, 2048, 3172) ∷ []
unfolding slice slice_loop device_request placed
slice_test = refl

slice_lem_example :
    ((0 < 2)
      × (slice 7 write_slicer ≡ ok (8, sliced 7 write_slicer, striped_requests 7 write_slicer)))
    ⊎ ((length two_fds ≡ 0) × (slice 7 write_slicer ≡ fault division_by_zero))
slice_lem_example = slice_lem 7 write_slicer (omega arith)

sliced_two : slice 7 write_slicer ≡ ok (8, sliced 7 write_slicer, striped_requests 7 write_slicer)
sliced_two = slice-ok 7 write_slicer (omega arith) (omega arith)

write_slicer-Fits : Fits write_slicer 4
write_slicer-Fits = omega arith

-- Byte 1500 of the request is in its second fragment, on socket 5.
slice_locates_example :
    (a : DeviceRequest) × (get_elem? (striped_requests 7 write_slicer) 1 ≡ some a)
    × (a.device_fd ≡ 5)
    × (a.request.iot_offset + 476 ≡ 1500)
    × (a.request.iot_offset + a.request.data_len ≤ 4096)
    × (476 < a.request.data_len)
    × (a.m_data + 476 ≡ 1600)
slice_locates_example =
    slice_locates 7 write_slicer 4 write_slicer-Fits sliced_two 1500 refl (omega arith)

-- Fragments 0 and 2 are both on socket 6.
slice-disjoint_example : (0 + 1024 ≤ 1024) ⊎ (1024 + 1024 ≤ 0)
slice-disjoint_example =
    slice-disjoint 7 write_slicer 4 write_slicer-Fits sliced_two 0 2 two_fds-IsDistinct refl refl
      (λ e. omega arith) refl
