-- ===== src/System/Misses.antt =====
-- Requests that do not write one byte of an IoT's storage, as weights.
use privately_distributed_cl.Common.{
  ℕ, zero, suc, ◌+◌, ◌*◌, ◌/◌, ◌%◌, ◌^◌, ◌≤◌, ◌<◌, ◌≡◌, ◌⊎◌, inl, inr, refl, sym, ap, ◌∙◌, arith,
  ◌&&◌, ◌||◌, List, length, get_or, ltb, leb, ◌==◌, if◌then◌else◌, tabulate, Bool-cases,
}
use native.Mathlib.Decide.{ℕ_discrete, dec_lt}
use native.Mathlib.Nat.{mod-lt}
use privately_distributed_cl.Common.Words.{uint32}
use privately_distributed_cl.Common.Memory.{
  Memory, read_bytes, write_bytes_outside, length-read_bytes,
}
use privately_distributed_cl.Common.Sums.{sum_by}
use privately_distributed_cl.Nbd.{Request, code, write}
use privately_distributed_cl.Slicer.{DeviceRequest, fragment_size}
use privately_distributed_cl.Slicer.Stripe.{fragment_unique}
use privately_distributed_cl.Slicer.Placement.{IsDistinct, offset_small}
use privately_distributed_cl.Slicer.ClosedForm.{striped}
use privately_distributed_cl.Splicer.{Splicer}
use privately_distributed_cl.Splicer.Requests.{slicer_for}
use privately_distributed_cl.Splicer.Registry.{fragments}
use privately_distributed_cl.Disk.{perform}
use privately_distributed_cl.System.Loads.{Weights}

-- Byte `x` of fragment `f` of the device: its socket and its place in the storage.
abbrev pub socket_of : List ℕ → ℕ → ℕ
socket_of fds f = get_or fds (f % length fds) 0

abbrev pub place_of : List ℕ → ℕ → ℕ → ℕ
place_of fds f x = f / length fds * fragment_size + x

-- One for a write of the byte, and 0 otherwise.
abbrev pub hits : ℕ → ℕ → DeviceRequest → ℕ
hits fd o d =
    if d.request.type == code write
      && (d.device_fd == fd
          && (leb d.request.iot_offset o && ltb o (d.request.iot_offset + d.request.data_len)))
    then 1
    else 0

hits_cases :
    (fd o : ℕ) (d : DeviceRequest)
    → (hits fd o d ≡ 0)
      ⊎ ((d.request.type ≡ code write)
          × (d.device_fd ≡ fd)
          × (d.request.iot_offset ≤ o)
          × (o < d.request.iot_offset + d.request.data_len))
hits_cases fd o d =
    elim (Bool-cases (
      d.request.type == code write
      && (d.device_fd == fd
          && (leb d.request.iot_offset o && ltb o (d.request.iot_offset + d.request.data_len))))) [
            | inl e ↦
                inr (ground (arith, e), ground (arith, e), ground (arith, e), ground (arith, e))
            | inr e ↦ inl (rw e refl)
          ]

-- A write that fits into the rows leaves fragment `f` alone if it ends before it or begins behind it.
abbrev pub covers : List ℕ → ℕ → ℕ → Request → ℕ
covers fds rows f q =
    let first = q.from / fragment_size in
    if q.type == code write
    then (if leb (first + fragments q) (length fds * rows)
          && (leb (first + fragments q) f || ltb f first)
        then 0
        else 1)
    else 0

abbrev pub harms : List ℕ → ℕ → ℕ → ℕ → Weights
harms fds rows f x = record {
  request = covers fds rows f;
  unsent = hits (socket_of fds f) (place_of fds f x);
  out = λ m. hits (socket_of fds f) (place_of fds f x) m.1;
  back = λ m. 0;
  reply = λ atlas buffer. 0;
}

module _ (fds : List ℕ) (rows f x : ℕ) (pos : 0 < length fds) (distinct : IsDistinct fds)
    (addressable : rows * fragment_size ≤ 2 ^ 32) (within : x < fragment_size) where
  -- Two fragments of the device that have a byte of the same storage in common are the same.
  same_fragment :
      (g : ℕ)
      → g < length fds * rows
      → get_or fds (g % length fds) 0 ≡ socket_of fds f
      → uint32 (g / length fds * fragment_size) ≤ place_of fds f x
      → place_of fds f x < uint32 (g / length fds * fragment_size) + fragment_size
      → g ≡ f
  same_fragment g fits same low high =
      let there = offset_small (length fds) rows g pos fits addressable in
      fragment_unique (length fds) g f pos (distinct _ _ (mod-lt g pos) (mod-lt f pos) same)
        (omega (arith, there, low, high, within))

  fragment_misses :
      (q : Request) (sp : Splicer) (i : ℕ)
      → sp.fds_vector ≡ fds
      → covers fds rows f q ≡ 0
      → i < fragments q
      → hits
          (socket_of fds f)
          (place_of fds f x)
          (striped (slicer_for q sp) (q.from / fragment_size) i)
        ≡ 0
  fragment_misses q sp i same spared lt =
      let first = q.from / fragment_size in
      elim (hits_cases (socket_of fds f) (place_of fds f x)
        (striped (slicer_for q sp) (q.from / fragment_size) i)) [
          | inl missed ↦ missed
          | inr (w, socket, low, high) ↦
              let fits : first + fragments q ≤ length fds * rows = ground (arith, w, spared) in
              let apart : (first + fragments q ≤ f) ⊎ (f < first) = elim (dec_lt f first) [
                | yes lower ↦ inr lower
                | no higher ↦ inl (ground (arith, w, spared, higher))
              ] in
              let there =
                ap (λ (l : List ℕ). uint32 ((first + i) / length l * fragment_size)) same in
              let is : first + i ≡ f =
                same_fragment (first + i) (omega (arith, fits, lt))
                  (ap (λ (l : List ℕ). get_or l ((first + i) % length l) 0) (sym same) ∙ socket)
                  (omega (arith, low, there)) (omega (arith, high, there)) in
              absurd (omega (arith, apart, is, lt))
        ]

  pub striped_misses :
      (q : Request) (sp : Splicer) (n j : ℕ)
      → sp.fds_vector ≡ fds
      → covers fds rows f q ≡ 0
      → j + n ≤ fragments q
      → sum_by
          (hits (socket_of fds f) (place_of fds f x))
          (tabulate n j (striped (slicer_for q sp) (q.from / fragment_size)))
        ≡ 0
  striped_misses q sp zero j same spared le = refl
  striped_misses q sp (suc n) j same spared le = omega (
    arith,
    fragment_misses q sp j same spared (omega (arith, le)),
    striped_misses q sp n (suc j) same spared (omega (arith, le)),
  )

-- What misses a byte leaves it.
pub perform_misses :
    (m : Memory) (d : DeviceRequest) (storage : Memory) (fd o : ℕ)
    → d.device_fd ≡ fd
    → hits fd o d ≡ 0
    → perform m d storage o ≡ storage o
unfolding perform
perform_misses m d storage fd o mine missed = elim (ℕ_discrete d.request.type (code write)) [
  | no other ↦ ground (arith, other)
  | yes w ↦
      let payload = read_bytes m d.m_data d.request.data_len in
      let outside : (o < d.request.iot_offset) ⊎ (d.request.iot_offset + length payload ≤ o) =
        elim (dec_lt o d.request.iot_offset) [
          | yes before ↦ inl before
          | no behind ↦ inr (
              ground
                (arith, length-read_bytes m d.m_data d.request.data_len, w, mine, missed, behind))
        ] in
      ground (arith, w, write_bytes_outside storage d.request.iot_offset payload o outside)
]
