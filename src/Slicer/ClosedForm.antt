-- ===== src/Slicer/ClosedForm.antt =====
-- `Slice` against a description without a loop: fragment `i` of the request is fragment
-- `from / 1024 + i` of the whole device.
use privately_distributed_cl.Common.{
  ℕ, ◌⊎◌, zero, suc, ◌+◌, ◌*◌, ◌/◌, ◌%◌, ◌^◌, ◌<◌, ◌≡◌, refl, sym, ap, ◌∙◌, arith, List, ◌==◌,
  if◌then◌else◌, ok, fault, division_by_zero, length, get_or, tabulate, inl, inr, ne→==,
  get_elem?-eq-get_or,
}
use native.Mathlib.Nat.{mod-lt}
use native.Mathlib.Decide.{ℕ_discrete, dec_lt}
use privately_distributed_cl.Common.Words.{uint32, size_t, size_of_int32}
use privately_distributed_cl.Slicer.{
  Slicer, DeviceRequest, device_request, slice_loop, slice, fragment_size,
}
use privately_distributed_cl.Slicer.Stripe.{next_device, next_row_wrap, next_row_same}

-- The request for fragment `first + i` of the device, on the IoT and the row of the striping.
abbrev pub striped : Slicer → ℕ → ℕ → DeviceRequest
striped s first i =
    let n = length s.fds_vector in
    record {
      request = record {
        request_uid = s.request_uid;
        fragment_idx = uint32 i;
        alarm_uid = 0;
        iot_offset = uint32 ((first + i) / n * fragment_size);
        type = s.full_request.type;
        data_len = fragment_size;
      };
      device_fd = get_or s.fds_vector ((first + i) % n) 0;
      m_data = s.full_request.m_data + i * fragment_size;
    }

module _ (s : Slicer) (first : ℕ) (some_iot : 0 < length s.fds_vector)
    (few : length s.fds_vector < 2 ^ 64) where
  curr_iot-eq :
      (c : ℕ)
      → size_t ((first + c) % length s.fds_vector + 1) % length s.fds_vector
        ≡ (first + suc c) % length s.fds_vector
  curr_iot-eq c =
      let small : size_t ((first + c) % length s.fds_vector + 1)
          ≡ (first + c) % length s.fds_vector + 1 =
        omega (arith, mod-lt (first + c) some_iot) in
      rw small (
        next_device (length s.fds_vector) (first + c)
        ∙ ap (λ t. t % length s.fds_vector) (omega arith))

  offset-eq :
      (c : ℕ)
      → (if (first + suc c) % length s.fds_vector == 0
          then size_t (size_t ((first + c) / length s.fds_vector * fragment_size) + fragment_size)
          else size_t ((first + c) / length s.fds_vector * fragment_size))
        ≡ size_t ((first + suc c) / length s.fds_vector * fragment_size)
  offset-eq c = elim (ℕ_discrete ((first + suc c) % length s.fds_vector) 0) [
    | yes p ↦ rw p (
        let q : (first + suc c) / length s.fds_vector ≡ (first + c) / length s.fds_vector + 1 =
          ap (λ t. t / length s.fds_vector) (omega arith)
          ∙ next_row_wrap (length s.fds_vector) (first + c) some_iot
              (ap (λ t. t % length s.fds_vector) (omega arith) ∙ p) in
        rw q (omega arith))
    | no p ↦ rw (ne→== _ _ p) (
        ap (λ t. size_t (t * fragment_size))
          (sym (
            ap (λ t. t / length s.fds_vector) (omega arith)
            ∙ next_row_same (length s.fds_vector) (first + c) some_iot
                (λ e. p (ap (λ t. t % length s.fds_vector) (omega arith) ∙ e)))))
  ]

  pub slice_loop_lem :
      (rounds c : ℕ)
      → slice_loop s rounds c
          ((first + c) % length s.fds_vector)
          (size_t ((first + c) / length s.fds_vector * fragment_size))
        ≡ ok (tabulate rounds c (striped s first))
  unfolding slice_loop device_request
  slice_loop_lem zero c = refl
  slice_loop_lem (suc rounds) c = ground (
    arith,
    get_elem?-eq-get_or s.fds_vector ((first + c) % length s.fds_vector) 0
        (mod-lt (first + c) some_iot),
    curr_iot-eq c,
    offset-eq c,
    slice_loop_lem rounds (suc c),
  )

-- `Slice` sets the two members before its loop.
abbrev pub sliced : ℕ → Slicer → Slicer
sliced request_counter s = record s {
  request_uid = uint32 request_counter;
  count_slices = size_of_int32 s.full_request.len / fragment_size;
}

-- The requests that `Slice` means to make.
abbrev pub striped_requests : ℕ → Slicer → List DeviceRequest
striped_requests request_counter s =
    tabulate (size_of_int32 s.full_request.len / fragment_size) 0
      (striped (sliced request_counter s) (s.full_request.from / fragment_size))

pub slice-ok :
    (request_counter : ℕ) (s : Slicer)
    → 0 < length s.fds_vector
    → length s.fds_vector < 2 ^ 64
    → slice request_counter s
      ≡ ok (
        size_t (request_counter + 1),
        sliced request_counter s,
        striped_requests request_counter s,
      )
unfolding slice
slice-ok request_counter s some_iot few = ground (
  arith,
  slice_loop_lem (sliced request_counter s) (s.full_request.from / fragment_size) some_iot few
      (size_of_int32 s.full_request.len / fragment_size) 0,
)

slice-no_iots :
    (request_counter : ℕ) (s : Slicer)
    → length s.fds_vector ≡ 0
    → slice request_counter s ≡ fault division_by_zero
unfolding slice
slice-no_iots request_counter s e = rw e

-- With any IoT, and fewer than 2 ^ 64 of them, `Slice` succeeds with the fragments of the striping, in order, sets the two
-- members and steps the counter; with none it stops at a division by zero. `at` never throws.
pub slice_lem :
    (request_counter : ℕ) (s : Slicer)
    → length s.fds_vector < 2 ^ 64
    → ((0 < length s.fds_vector)
        × (slice request_counter s
            ≡ ok (
              size_t (request_counter + 1),
              sliced request_counter s,
              striped_requests request_counter s,
            )))
      ⊎ ((length s.fds_vector ≡ 0) × (slice request_counter s ≡ fault division_by_zero))
slice_lem request_counter s few = elim (dec_lt 0 (length s.fds_vector)) [
  | yes p ↦ inl (p, slice-ok request_counter s p few)
  | no p ↦ inr (omega arith, slice-no_iots request_counter s (omega arith))
]
