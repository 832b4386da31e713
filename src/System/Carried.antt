-- ===== src/System/Carried.antt =====
-- The byte of a fragment of a read, from its start to the task of its answer.
use privately_distributed_cl.Common.{
  ℕ, zero, suc, ◌+◌, ◌*◌, ◌/◌, ◌%◌, ◌^◌, ◌≤◌, ◌<◌, ◌≡◌, ◌≢◌, refl, ap, ◌∙◌, arith, false,
  Bool-cases, inl, inr, ◌&&◌, List, Option, none, some, length, get_or, ◌==◌, tabulate, true,
}
use native.Mathlib.Decide.{ℕ_discrete, dec_lt}
use privately_distributed_cl.Common.Memory.{Memory, read_bytes, get_or-read_bytes}
use privately_distributed_cl.Common.Words.{uint32}
use privately_distributed_cl.Common.Sums.{sum_by}
use privately_distributed_cl.Common.Dict.{find, nat_key}
use privately_distributed_cl.Nbd.{Request, code, read}
use privately_distributed_cl.Slicer.{Slicer, DeviceRequest, fragment_size}
use privately_distributed_cl.Slicer.ClosedForm.{striped}
use privately_distributed_cl.Slicer.Placement.{offset_small}
use privately_distributed_cl.Splicer.{Splicer}
use privately_distributed_cl.Splicer.Requests.{slicer_for, requested}
use privately_distributed_cl.Splicer.Registry.{fragments, IsSound, requested-find}
use privately_distributed_cl.System.Wires.{buffer_for}
use privately_distributed_cl.System.Misses.{socket_of, place_of}
use privately_distributed_cl.System.Carries.{is_there, lapses, unless}

module _ (fds : List ℕ) (rows f x v : ℕ) (pos : 0 < length fds) (inside : f < length fds * rows)
    (addressable : rows * fragment_size ≤ 2 ^ 32) (within : x < fragment_size) where
  -- Fragment `i` of a read is where it should be.
  striped_there :
      (q : Request) (sp : Splicer) (i : ℕ)
      → sp.fds_vector ≡ fds
      → q.type ≡ code read
      → q.from / fragment_size + i ≡ f
      → is_there fds f (striped (slicer_for q sp) (q.from / fragment_size) i) ≡ true
  striped_there q sp i same kind at =
      let socket : get_or sp.fds_vector ((q.from / fragment_size + i) % length sp.fds_vector) 0
          ≡ socket_of fds f =
        rw (same, at) refl in
      let place : uint32 ((q.from / fragment_size + i) / length sp.fds_vector * fragment_size)
          ≡ place_of fds f 0 =
        rw (same, at) (omega (arith, offset_small (length fds) rows f pos inside addressable)) in
      ground (arith, kind, socket, place)

  pub striped_carries :
      (q : Request) (sp : Splicer) (n j : ℕ)
      → IsSound sp
      → find (uint32 sp.request_counter) sp.slicer_map ≡ none
      → sp.fds_vector ≡ fds
      → j + n ≤ fragments q
      → sum_by
          (lapses fds f x v (requested q sp)).unsent
          (tabulate n j (striped (slicer_for q sp) (q.from / fragment_size)))
        ≡ 0
  striped_carries q sp zero j sound unused same le = refl
  striped_carries q sp (suc n) j sound unused same le =
      let home : find (uint32 sp.request_counter) (requested q sp).slicer_map
          ≡ some (slicer_for q sp) =
        ground (arith, requested-find q sp sound unused (uint32 sp.request_counter)) in
      let rest = striped_carries q sp n (suc j) sound unused same (omega (arith, le)) in
      elim (ℕ_discrete q.type (code read)) [
        | no other ↦ ground (arith, home, other, rest)
        | yes kind ↦ elim (dec_lt q.len (2 ^ 31)) [
          | no long ↦ ground (arith, home, long, rest)
          | yes short ↦
              let small : uint32 j ≡ j = ground (arith, le, short) in
              elim (ℕ_discrete (q.from / fragment_size + j) f) [
                | no other ↦ ground (arith, home, small, other, rest)
                | yes at ↦ ground (arith, home, striped_there q sp j same kind at, rest)
              ]
        ]
      ]

  -- A server that has the byte answers with it.
  pub answer_carries :
      (sp : Splicer) (m st : Memory) (d : DeviceRequest)
      → (d.device_fd ≡ socket_of fds f → st (place_of fds f x) ≡ v)
      → (lapses fds f x v sp).back (st, d) ≤ (lapses fds f x v sp).out (m, d)
  answer_carries sp m st d has = elim (ℕ_discrete d.device_fd (socket_of fds f)) [
    | no other ↦ elsewhere (find d.request.request_uid sp.slicer_map) other
    | yes mine ↦ known (find d.request.request_uid sp.slicer_map) (has mine)
  ]
    where
      elsewhere :
          (o : Option Slicer)
          → d.device_fd ≢ socket_of fds f
          → unless f o d.request.fragment_idx (is_there fds f d && st (place_of fds f x) == v)
            ≤ unless f o d.request.fragment_idx (is_there fds f d)
      elsewhere none other = omega arith
      elsewhere (some slicer) other = ground (arith, other)

      known :
          (o : Option Slicer)
          → st (place_of fds f x) ≡ v
          → unless f o d.request.fragment_idx (is_there fds f d && st (place_of fds f x) == v)
            ≤ unless f o d.request.fragment_idx (is_there fds f d)
      known none it = omega arith
      known (some slicer) it = ground (arith, it)

  -- The task of an answer has the byte that the answer brought.
  pub task_carries :
      (sp : Splicer) (fresh : ℕ → List ℕ) (st : Memory) (d : DeviceRequest)
      → (lapses fds f x v sp).reply d.request (buffer_for fresh st d)
        ≤ (lapses fds f x v sp).back (st, d)
  task_carries sp fresh st d = elim (Bool-cases (is_there fds f d)) [
    | inr away ↦ elsewhere (find d.request.request_uid sp.slicer_map) away
    | inl there ↦
        let kind : d.request.type ≡ code read = ground (arith, there) in
        let place : d.request.iot_offset ≡ place_of fds f 0 = ground (arith, there) in
        let size : d.request.data_len ≡ fragment_size = ground (arith, there) in
        let bytes : buffer_for fresh st d ≡ read_bytes st d.request.iot_offset d.request.data_len =
          rw kind refl in
        let at : get_or (read_bytes st d.request.iot_offset d.request.data_len) x 0
            ≡ st (d.request.iot_offset + x) =
          get_or-read_bytes st d.request.iot_offset d.request.data_len x
            (omega (arith, within, size)) in
        let byte : get_or (buffer_for fresh st d) x 0 ≡ st (place_of fds f x) =
          ap (λ b. get_or b x 0) bytes ∙ at ∙ ap st (omega (arith, place)) in
        known (find d.request.request_uid sp.slicer_map) byte
  ]
    where
      elsewhere :
          (o : Option Slicer)
          → is_there fds f d ≡ false
          → unless f o d.request.fragment_idx (get_or (buffer_for fresh st d) x 0 == v)
            ≤ unless f o d.request.fragment_idx (is_there fds f d && st (place_of fds f x) == v)
      elsewhere none away = omega arith
      elsewhere (some slicer) away = rw away (ground arith)

      known :
          (o : Option Slicer)
          → get_or (buffer_for fresh st d) x 0 ≡ st (place_of fds f x)
          → unless f o d.request.fragment_idx (get_or (buffer_for fresh st d) x 0 == v)
            ≤ unless f o d.request.fragment_idx (is_there fds f d && st (place_of fds f x) == v)
      known none byte = omega arith
      known (some slicer) byte = rw byte (ground arith)
