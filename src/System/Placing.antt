-- ===== src/System/Placing.antt =====
-- What a reply leaves at an address of the memory.
use privately_distributed_cl.Common.{
  ℕ, ◌+◌, ◌*◌, ◌/◌, ◌^◌, ◌≤◌, ◌<◌, ◌≡◌, ◌⊎◌, sym, ap, ◌∙◌, arith, inl, inr, List, some, length,
  get_or, take, take_all, ◌≢◌,
}
use native.Mathlib.Decide.{ℕ_discrete, dec_lt}
use privately_distributed_cl.Common.Memory.{
  Memory, write_bytes, write_bytes_inside, write_bytes_outside,
}
use privately_distributed_cl.Common.Words.{uint32}
use privately_distributed_cl.Common.Dict.{find, nat_key}
use privately_distributed_cl.Nbd.{Request, code, read}
use privately_distributed_cl.Slicer.{Slicer, fragment_size}
use privately_distributed_cl.Splicer.{Splicer, Reply, reply_to}
use privately_distributed_cl.Splicer.Registry.{fragments}
use privately_distributed_cl.Splicer.Buffer.{reply_to-write}
use privately_distributed_cl.System.Strays.{strays}
use privately_distributed_cl.System.Carries.{lapses}
use privately_distributed_cl.System.Brings.{hands, misuses, touches}

-- Within the buffer of a read with the byte, a fragment that has the address is the one with the byte.
same_byte :
    (a f x idx : ℕ) (q : Request)
    → misuses a f x q ≡ 0
    → idx < fragments q
    → x < fragment_size
    → q.m_data + uint32 (fragment_size * idx) ≤ a
    → a < q.m_data + uint32 (fragment_size * idx) + fragment_size
    → (q.type ≡ code read)
      × (q.len < 2 ^ 31)
      × (q.from / fragment_size + idx ≡ f)
      × (a ≡ q.m_data + uint32 (fragment_size * idx) + x)
same_byte a f x idx q used before within low high =
    let touched : touches a q ≡ 1 = ground (arith, before, low, high) in
    let kind : q.type ≡ code read = ground (arith, touched, used) in
    let short : q.len < 2 ^ 31 = ground (arith, touched, used) in
    let at : q.m_data + f * fragment_size + x ≡ a + q.from / fragment_size * fragment_size =
      ground (arith, touched, used) in
    let small : uint32 (fragment_size * idx) ≡ fragment_size * idx =
      ground (arith, before, short) in
    (
      kind,
      short,
      omega (arith, at, small, low, high, within),
      omega (arith, at, small, low, high, within),
    )

-- A fragment that has the address writes there.
hands_within :
    (a f x idx : ℕ) (slicer : Slicer)
    → misuses a f x slicer.full_request ≡ 0
    → idx < fragments slicer.full_request
    → hands a (some slicer) idx ≢ 0
    → (slicer.full_request.m_data + uint32 (fragment_size * idx) ≤ a)
      × (a < slicer.full_request.m_data + uint32 (fragment_size * idx) + fragment_size)
hands_within a f x idx slicer used before handed =
    let low : slicer.full_request.m_data + idx * fragment_size ≤ a = ground (arith, handed) in
    let high : a < slicer.full_request.m_data + idx * fragment_size + fragment_size =
      ground (arith, handed) in
    let touched : touches a slicer.full_request ≡ 1 = ground (arith, before, low, high) in
    let short : slicer.full_request.len < 2 ^ 31 = ground (arith, touched, used) in
    let small : uint32 (fragment_size * idx) ≡ fragment_size * idx =
      ground (arith, before, short) in
    (omega (arith, low, small), omega (arith, high, small))

-- What a reply leaves at the address: the byte, or what was there, if it does not bring it.
pub replied-memory :
    (a f x v : ℕ) (fds : List ℕ) (r : Reply) (sp : Splicer) (mem : Memory) (slicer : Slicer)
    → find r.atlas.request_uid sp.slicer_map ≡ some slicer
    → (strays sp).reply r.atlas r.buffer ≡ 0
    → (lapses fds f x v sp).reply r.atlas r.buffer ≡ 0
    → misuses a f x slicer.full_request ≡ 0
    → x < fragment_size
    → let mem' = (reply_to r.atlas r.buffer slicer sp mem).2 in
      (mem' a ≡ v) ⊎ ((mem' a ≡ mem a) × (hands a (some slicer) r.atlas.fragment_idx ≡ 0))
replied-memory a f x v fds r sp mem slicer found at_home no_lapse used within =
    let idx = r.atlas.fragment_idx in
    let q = slicer.full_request in
    let dst = q.m_data + uint32 (r.atlas.data_len * idx) in
    let whole : length r.buffer ≡ r.atlas.data_len = ground (arith, found, at_home) in
    let size : r.atlas.data_len ≡ fragment_size = ground (arith, found, at_home) in
    let before : idx < fragments q = ground (arith, found, at_home) in
    let bytes : take r.atlas.data_len r.buffer ≡ r.buffer =
      ap (λ n. take n r.buffer) (sym whole) ∙ take_all r.buffer in
    let place : dst ≡ q.m_data + uint32 (fragment_size * idx) =
      ap (λ n. q.m_data + uint32 (n * idx)) size in
    let new : (reply_to r.atlas r.buffer slicer sp mem).2 a ≡ write_bytes mem dst r.buffer a =
      ap (λ (m : Memory). m a) (reply_to-write r sp mem slicer)
      ∙ ap (λ b. write_bytes mem dst b a) bytes in
    let outside : (a < dst) ⊎ (dst + length r.buffer ≤ a)
        → ((reply_to r.atlas r.buffer slicer sp mem).2 a ≡ mem a)
          × (hands a (some slicer) idx ≡ 0) =
      λ out. (
        new ∙ write_bytes_outside mem dst r.buffer a out,
        elim (ℕ_discrete (hands a (some slicer) idx) 0) [
          | yes none_there ↦ none_there
          | no handed ↦
              let (low, high) = hands_within a f x idx slicer used before handed in
              absurd (omega (arith, out, low, high, place, whole, size))
        ],
      ) in
    elim (dec_lt a dst) [
      | yes lower ↦ inr (outside (inl lower))
      | no low ↦ elim (dec_lt a (dst + length r.buffer)) [
        | no higher ↦ inr (outside (inr (omega (arith, higher))))
        | yes high ↦
            let (kind, short, at, there) =
              same_byte a f x idx q used before within (omega (arith, place, low))
                (omega (arith, place, high, whole, size)) in
            let byte : get_or r.buffer x 0 ≡ v = ground (arith, found, no_lapse, kind, short, at) in
            inl (
              new
              ∙ write_bytes_inside mem dst r.buffer a (omega (arith, low)) high
              ∙ ap (λ k. get_or r.buffer k 0) (omega (arith, there, place))
              ∙ byte)
      ]
    ]
