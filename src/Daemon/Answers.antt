-- ===== src/Daemon/Answers.antt =====
-- The answers to the fragments of one request, in any order, are what `Reply` needs.
use privately_distributed_cl.Common.{
  ℕ, zero, suc, ◌+◌, ◌*◌, ◌/◌, ◌^◌, ◌≤◌, ◌<◌, ◌≡◌, refl, sym, ap, ◌∙◌, arith, List, [], ◌∷◌, ◌++◌,
  map, length, ◌||◌, true, All, tabulate, length-map,
}
use native.Mathlib.Decide.{ℕ_discrete}
use privately_distributed_cl.Common.Memory.{Memory, length-read_bytes}
use privately_distributed_cl.Common.Words.{uint32, size_of_int32, size_of_int32_nonneg}
use privately_distributed_cl.Common.Reorder.{
  Reorder, none_left, taken_next, Reorder-All, length-Reorder,
}
use privately_distributed_cl.Common.Dict.{nat_key}
use privately_distributed_cl.Nbd.{Request}
use privately_distributed_cl.Slicer.{Slicer, fragment_size}
use privately_distributed_cl.Slicer.ClosedForm.{striped, striped_requests}
use privately_distributed_cl.Splicer.{Splicer, Reply}
use privately_distributed_cl.Splicer.Requests.{slicer_for}
use privately_distributed_cl.Splicer.Buffer.{IsFragment, answered}
use privately_distributed_cl.Disk.Read.{fragment_bytes}
use privately_distributed_cl.Daemon.Callbacks.{answer_of}
use privately_distributed_cl.Daemon.Device.{unsliced, length-striped}

answered-append :
    (i : ℕ) (xs ys : List Reply) → answered i (xs ++ ys) ≡ (answered i xs || answered i ys)
unfolding answered
answered-append i [] ys = refl
answered-append i (x ∷ xs) ys = ground (arith, answered-append i xs ys)

-- Whether a fragment is answered does not depend on the order.
pub answered-Reorder : (i : ℕ) {xs ys : List Reply} → Reorder xs ys → answered i ys ≡ answered i xs
unfolding answered
answered-Reorder i none_left = refl
answered-Reorder i (taken_next xs ys a r) =
    ground (arith, answered-Reorder i r, answered-append i xs ys, answered-append i xs (a ∷ ys))

-- The answers to the fragments of one request.
module _ (s : Slicer) (count : ℕ) (storages : ℕ → Memory)
    (small : count * fragment_size ≤ 2 ^ 32) where
  fragments-IsFragment :
      (k j : ℕ)
      → j + k ≤ count
      → All (IsFragment s.request_uid count (fragment_bytes storages s)) (
          map (answer_of storages) (tabulate k j (striped s (s.full_request.from / fragment_size))))
  fragments-IsFragment zero j le = tt
  fragments-IsFragment (suc k) j le =
      let same : uint32 j ≡ j = omega (arith, le, small) in
      (
        record {
          mine = refl;
          whole = refl;
          bytes = ap (fragment_bytes storages s) (sym same);
          full = length-read_bytes _ _ fragment_size;
          inside = omega (arith, le, small);
        },
        fragments-IsFragment k (suc j) (omega (arith, le)),
      )

  fragments-answered :
      (k j i : ℕ)
      → j + k ≤ count
      → j ≤ i
      → i < j + k
      → answered i (
          map (answer_of storages) (tabulate k j (striped s (s.full_request.from / fragment_size))))
        ≡ true
  unfolding answered
  fragments-answered zero j i le ge lt = absurd (omega (arith, ge, lt))
  fragments-answered (suc k) j i le ge lt =
      let same : uint32 j ≡ j = omega (arith, le, small) in
      elim (ℕ_discrete j i) [
        | yes e ↦ ground (arith, same, e)
        | no ne ↦ ground (
          arith,
          fragments-answered k (suc j) i (omega (arith, le)) (omega (arith, ge, ne))
              (omega (arith, lt)),
        )
      ]

-- The answers to all fragments of a request, in any order, are what `Reply` needs.
module _ (q : Request) (sp : Splicer) (storages : ℕ → Memory) {rs : List Reply}
    (nonneg : q.len < 2 ^ 31)
    (order : Reorder
      (map (answer_of storages) (striped_requests sp.request_counter (unsliced q sp.fds_vector)))
      rs) where
  slices : size_of_int32 q.len / fragment_size ≡ q.len / fragment_size
  slices = ap (λ t. t / fragment_size) (size_of_int32_nonneg q.len nonneg)

  pub answers-IsFragment :
      All
        (IsFragment
          (uint32 sp.request_counter)
          (q.len / fragment_size)
          (fragment_bytes storages (slicer_for q sp)))
        rs
  answers-IsFragment = Reorder-All _ order (
      fragments-IsFragment (slicer_for q sp) (q.len / fragment_size) storages
        (omega (arith, nonneg)) (size_of_int32 q.len / fragment_size) 0 (omega (arith, slices)))

  pub answers-length : length rs ≡ q.len / fragment_size
  answers-length =
      length-Reorder order
      ∙ length-map (striped_requests sp.request_counter (unsliced q sp.fds_vector))
          (answer_of storages)
      ∙ length-striped sp.request_counter (unsliced q sp.fds_vector)
      ∙ slices

  pub answers-answered : (i : ℕ) → i < q.len / fragment_size → answered i rs ≡ true
  answers-answered i lt =
      answered-Reorder i order
      ∙ fragments-answered (slicer_for q sp) (q.len / fragment_size) storages
          (omega (arith, nonneg)) (size_of_int32 q.len / fragment_size) 0 i (omega (arith, slices))
          (omega arith) (omega (arith, lt, slices))
