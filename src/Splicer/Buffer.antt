-- ===== src/Splicer/Buffer.antt =====
-- What the replies put into the buffer of a request.
use privately_distributed_cl.Common.{
  ℕ, ◌+◌, ◌-◌, ◌*◌, ◌/◌, ◌%◌, ◌^◌, ◌≤◌, ◌<◌, ◌≡◌, sym, ap, ap₂, ◌∙◌, arith, Bool, true, false, List,
  [], ◌∷◌, some, ok, ◌&&◌, ◌||◌, take, take_all, if◌then◌else◌, ◌==◌, leb, length, get_or, All,
}
use privately_distributed_cl.Common.Words.{uint32, size_t_pred}
use privately_distributed_cl.Common.Memory.{Memory, write_bytes}
use privately_distributed_cl.Common.Dict.{find, nat_key, find-assign, find-erase}
use privately_distributed_cl.Nbd.{Request}
use privately_distributed_cl.Slicer.{Slicer, fragment_size, is_reply_ready}
use privately_distributed_cl.Splicer.{Splicer, Reply, reply_to, reply_all}
use privately_distributed_cl.Splicer.Counting.{reply_all_inv, reply_all_nil}

-- A reply to fragment `fragment_idx` of request `uid`, of `count` fragments, with the bytes that
-- `payload` gives the fragment.
pub record IsFragment (uid count : ℕ) (payload : ℕ → List ℕ) (r : Reply) : Type 0 where
  pub mine : r.atlas.request_uid ≡ uid
  pub whole : r.atlas.data_len ≡ fragment_size
  pub bytes : r.buffer ≡ payload r.atlas.fragment_idx
  pub full : length r.buffer ≡ fragment_size
  pub inside : r.atlas.fragment_idx < count

-- Whether some replies have one to fragment `i`.
unfoldable pub answered : ℕ → List Reply → Bool
answered i [] = false
answered i (r ∷ rs) = (r.atlas.fragment_idx == i) || answered i rs

-- A buffer at `base` in which the fragments that are answered have their bytes.
abbrev pub filled : ℕ → (ℕ → List ℕ) → List Reply → Memory → Memory
filled base payload rs mem x =
    let i = (x - base) / fragment_size in
    if leb base x && answered i rs then get_or (payload i) ((x - base) % fragment_size) 0 else mem x

-- `Reply` copies the bytes to the place of their fragment.
pub reply_to-write :
    (r : Reply) (s : Splicer) (mem : Memory) (slicer : Slicer)
    → (reply_to r.atlas r.buffer slicer s mem).2
      ≡ write_bytes mem
          (slicer.full_request.m_data + uint32 (r.atlas.data_len * r.atlas.fragment_idx))
          (take r.atlas.data_len r.buffer)
unfolding reply_to
reply_to-write r s mem slicer = ground arith

module _ (uid count base : ℕ) (payload : ℕ → List ℕ) (small : count * fragment_size ≤ 2 ^ 32) where
  abbrev IsBased : Splicer → Type 0
  IsBased s =
      (slicer : Slicer) → find uid s.slicer_map ≡ some slicer → slicer.full_request.m_data ≡ base

  reply_to-IsBased :
      (r : Reply) (s : Splicer) (mem : Memory) (slicer : Slicer)
      → r.atlas.request_uid ≡ uid
      → slicer.full_request.m_data ≡ base
      → IsBased (reply_to r.atlas r.buffer slicer s mem).0
  unfolding reply_to is_reply_ready
  reply_to-IsBased r s mem slicer mine based slicer' found = ground (
    arith,
    find-assign r.atlas.request_uid uid
        (record slicer { count_slices = size_t_pred slicer.count_slices }) s.slicer_map,
    find-erase r.atlas.request_uid uid s.slicer_map,
  )

  reply_to-memory :
      (r : Reply) (s : Splicer) (mem : Memory) (slicer : Slicer)
      → IsFragment uid count payload r
      → slicer.full_request.m_data ≡ base
      → (reply_to r.atlas r.buffer slicer s mem).2
        ≡ write_bytes mem
            (base + r.atlas.fragment_idx * fragment_size)
            (payload r.atlas.fragment_idx)
  reply_to-memory r s mem slicer v based =
      reply_to-write r s mem slicer
      ∙ ap₂ (write_bytes mem) place
          (ap (λ n. take n r.buffer) (v.whole ∙ sym v.full) ∙ take_all r.buffer ∙ v.bytes)
    where
      product : r.atlas.data_len * r.atlas.fragment_idx ≡ fragment_size * r.atlas.fragment_idx
      product = ap (λ n. n * r.atlas.fragment_idx) v.whole

      place :
          slicer.full_request.m_data + uint32 (r.atlas.data_len * r.atlas.fragment_idx)
          ≡ base + r.atlas.fragment_idx * fragment_size
      place = ap₂ ◌+◌ based (ap uint32 product ∙ omega (arith, v.inside))

  one_reply :
      (r : Reply) (mem : Memory) (x : ℕ)
      → IsFragment uid count payload r
      → write_bytes mem
          (base + r.atlas.fragment_idx * fragment_size)
          (payload r.atlas.fragment_idx)
          x
        ≡ filled base payload (r ∷ []) mem x
  unfolding write_bytes answered
  one_reply r mem x v = ground (arith, len)
    where
      len : length (payload r.atlas.fragment_idx) ≡ fragment_size
      len = ap length (sym v.bytes) ∙ v.full

  filled-cons :
      (r : Reply) (rs : List Reply) (mem mem' : Memory) (x : ℕ)
      → mem' x ≡ filled base payload (r ∷ []) mem x
      → filled base payload rs mem' x ≡ filled base payload (r ∷ rs) mem x
  unfolding answered
  filled-cons r rs mem mem' x e = ground (arith, e)

  -- After a run without a fault of replies to fragments of one request, whose buffer is at `base` and whose
  -- fragments are within 2 ^ 32 bytes, in any order, the request's buffer has the bytes of
  -- each fragment that is answered, at its place, and no other byte of memory is changed.
  pub reply_all_fills :
      (rs : List Reply) (s : Splicer) (mem : Memory) (x : ℕ) {s' : Splicer}
      {done : List (ℕ × Request)} {mem' : Memory}
      → All (IsFragment uid count payload) rs
      → IsBased s
      → reply_all rs s mem ≡ ok (s', done, mem')
      → mem' x ≡ filled base payload rs mem x
  unfolding answered
  reply_all_fills [] s mem x vs based e =
      ap (λ (m : Memory). m x) (reply_all_nil s mem e).2 ∙ ground arith
  reply_all_fills (r ∷ rs) s mem x vs based e =
      let (slicer, found, (rest, next, _)) = reply_all_inv r rs s mem e in
      let at_base = based slicer (ap (λ u. find u s.slicer_map) (sym vs.0.mine) ∙ found) in
      let ih =
        reply_all_fills rs _ _ x vs.1 (reply_to-IsBased r s mem slicer vs.0.mine at_base) next in
      let now =
        ap (λ (m : Memory). m x) (reply_to-memory r s mem slicer vs.0 at_base)
        ∙ one_reply r mem x vs.0 in
      ih ∙ filled-cons r rs mem (reply_to r.atlas r.buffer slicer s mem).2 x now

pub filled_at :
    (base : ℕ) (payload : ℕ → List ℕ) (rs : List Reply) (mem : Memory) (k : ℕ)
    → answered (k / fragment_size) rs ≡ true
    → filled base payload rs mem (base + k)
      ≡ get_or (payload (k / fragment_size)) (k % fragment_size) 0
filled_at base payload rs mem k e =
    let z : base + k - base ≡ k = omega arith in rw z (ground (arith, e))
