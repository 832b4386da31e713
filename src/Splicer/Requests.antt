-- ===== src/Splicer/Requests.antt =====
-- What `Splicer::Request` leaves in the map.
use privately_distributed_cl.Common.{
  ◌+◌, ◌^◌, ◌<◌, ◌≡◌, arith, ◌⊎◌, inl, inr, ok, fault, division_by_zero, length,
}
use privately_distributed_cl.Common.Words.{uint32, size_t}
use privately_distributed_cl.Common.Dict.{assign, nat_key}
use privately_distributed_cl.Nbd.{Request}
use privately_distributed_cl.Slicer.{Slicer}
use privately_distributed_cl.Slicer.ClosedForm.{striped_requests, sliced, slice_lem}
use privately_distributed_cl.Splicer.{Splicer, request}

-- The slicer that `Request` makes.
abbrev pub slicer_for : Request → Splicer → Slicer
slicer_for q s =
    sliced s.request_counter
      (record { fds_vector = s.fds_vector; full_request = q; count_slices = 0; request_uid = 0 })

abbrev pub requested : Request → Splicer → Splicer
requested q s = record s {
  slicer_map = assign (uint32 s.request_counter) (slicer_for q s) s.slicer_map;
  request_counter = size_t (s.request_counter + 1);
}

-- With any IoT, and fewer than 2 ^ 64 of them, `Request` succeeds: the request waits under the next uid, as many replies as it has
-- fragments, and the message holds the fragments of the striping. With none it stops at a division
-- by zero.
pub request_lem :
    (q : Request) (s : Splicer)
    → length s.fds_vector < 2 ^ 64
    → ((0 < length s.fds_vector)
        × (request q s
            ≡ ok (
              requested q s,
              record {
                request_vector = striped_requests s.request_counter (record {
                  fds_vector = s.fds_vector;
                  full_request = q;
                  count_slices = 0;
                  request_uid = 0;
                });
              },
            )))
      ⊎ ((length s.fds_vector ≡ 0) × (request q s ≡ fault division_by_zero))
unfolding request
request_lem q s few =
    elim (slice_lem s.request_counter
      (record { fds_vector = s.fds_vector; full_request = q; count_slices = 0; request_uid = 0 })
      few) [
        | inl (pos, e) ↦ inl (pos, rw (e, request))
        | inr (empty, e) ↦ inr (empty, rw (e, request))
      ]

pub request_ok :
    (q : Request) (s : Splicer)
    → length s.fds_vector < 2 ^ 64
    → 0 < length s.fds_vector
    → request q s
      ≡ ok (
        requested q s,
        record {
          request_vector = striped_requests s.request_counter (record {
            fds_vector = s.fds_vector;
            full_request = q;
            count_slices = 0;
            request_uid = 0;
          });
        },
      )
request_ok q s few pos = elim (request_lem q s few) [
  | inl (_, e) ↦ e
  | inr (empty, _) ↦ absurd (omega arith)
]
