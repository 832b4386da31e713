-- ===== src/Splicer/Replied.antt =====
-- The map of waiting requests after a `Reply`.
use privately_distributed_cl.Common.{
  ℕ, ◌+◌, ◌-◌, ◌^◌, ◌<◌, ◌≤◌, ◌≡◌, ◌⊎◌, refl, sym, ap, ◌∙◌, arith, inl, inr, [], Option, none, some,
  ◌==◌, if◌then◌else◌, Bool-cases,
}
use native.Mathlib.Decide.{ℕ_discrete}
use privately_distributed_cl.Common.Words.{size_t_pred}
use privately_distributed_cl.Common.Memory.{Memory}
use privately_distributed_cl.Common.Sums.{sum_by}
use privately_distributed_cl.Common.Dict.{find, assign, erase, nat_key, find-assign, find-erase}
use privately_distributed_cl.Common.Dict.Single.{
  IsSingle, assign_lem, assign-IsSingle, erase-IsSingle, sum_by-erase,
}
use privately_distributed_cl.Nbd.{Request}
use privately_distributed_cl.Slicer.{Slicer, is_reply_ready}
use privately_distributed_cl.Splicer.{Splicer, Reply, reply_to, gone_with}
use privately_distributed_cl.Splicer.Registry.{IsSound, entered, waits_for}

-- A request that waits is one of those that were entered.
pub entered-found :
    (p : Request → ℕ) (sp : Splicer) (uid : ℕ) {slicer : Slicer}
    → IsSound sp
    → find uid sp.slicer_map ≡ some slicer
    → p slicer.full_request ≤ entered p sp
entered-found p sp uid sound found = omega (
  arith,
  sum_by-erase (λ (e : ℕ × Slicer). p e.1.full_request) uid sp.slicer_map sound.single found,
)

-- What a `Reply` to a request that waits for one leaves.
module _ (r : Reply) (sp : Splicer) (mem : Memory) (slicer : Slicer) (sound : IsSound sp)
    (found : find r.atlas.request_uid sp.slicer_map ≡ some slicer)
    (some_left : 0 < slicer.count_slices) where
  abbrev pub after : Splicer
  after = (reply_to r.atlas r.buffer slicer sp mem).0

  abbrev pub gone : Option (ℕ × Request)
  gone = (reply_to r.atlas r.buffer slicer sp mem).1

  abbrev less_one : Slicer
  less_one = record slicer { count_slices = slicer.count_slices - 1 }

  pub last_one :
      slicer.count_slices ≡ 1
      → (after ≡ record sp { slicer_map = erase r.atlas.request_uid sp.slicer_map })
        × (gone ≡ some (r.atlas.request_uid, slicer.full_request))
  unfolding reply_to is_reply_ready
  last_one one = (ground (arith, one), ground (arith, one))

  not_last :
      1 < slicer.count_slices
      → slicer.count_slices < 2 ^ 64
      → (after ≡ record sp { slicer_map = assign r.atlas.request_uid less_one sp.slicer_map })
        × (gone ≡ none)
  unfolding reply_to is_reply_ready
  not_last more small =
      let pred : size_t_pred slicer.count_slices ≡ slicer.count_slices - 1 = omega arith in
      (ground (arith, more, pred), ground (arith, more, pred))

  bounded : slicer.count_slices < 2 ^ 64
  bounded = ground (arith, sound.small r.atlas.request_uid, found)

  -- The two ways in which it goes.
  abbrev Ends : Type 0
  Ends =
      (slicer.count_slices ≡ 1)
      × (after ≡ record sp { slicer_map = erase r.atlas.request_uid sp.slicer_map })
      × (gone ≡ some (r.atlas.request_uid, slicer.full_request))

  abbrev GoesOn : Type 0
  GoesOn =
      (1 < slicer.count_slices)
      × (after ≡ record sp { slicer_map = assign r.atlas.request_uid less_one sp.slicer_map })
      × (gone ≡ none)

  ways : Ends ⊎ GoesOn
  ways = elim (ℕ_discrete slicer.count_slices 1) [
    | yes one ↦ inl (one, (last_one one).0, (last_one one).1)
    | no ne ↦
        let more : 1 < slicer.count_slices = omega (arith, ne, some_left) in
        inr (more, (not_last more bounded).0, (not_last more bounded).1)
  ]

  pub replied-find :
      (uid : ℕ)
      → find uid after.slicer_map ≡ (
          if r.atlas.request_uid == uid
          then (if slicer.count_slices == 1 then none else some less_one)
          else find uid sp.slicer_map)
  replied-find uid = elim ways [
    | inl (one, e, _) ↦ rw e (ground (arith, one, find-erase r.atlas.request_uid uid sp.slicer_map))
    | inr (more, e, _) ↦
        rw e (ground (arith, more, find-assign r.atlas.request_uid uid less_one sp.slicer_map))
  ]

  replied-IsSingle : IsSingle after.slicer_map
  replied-IsSingle = elim ways [
    | inl (_, e, _) ↦ rw e (erase-IsSingle r.atlas.request_uid sp.slicer_map sound.single)
    | inr (_, e, _) ↦ rw e (assign-IsSingle r.atlas.request_uid less_one sp.slicer_map sound.single)
  ]

  pub replied-fds : after.fds_vector ≡ sp.fds_vector
  replied-fds = elim ways [ inl (_, e, _) ↦ rw e refl | inr (_, e, _) ↦ rw e refl ]

  pub replied-waits_for :
      (uid : ℕ)
      → waits_for uid after + (if r.atlas.request_uid == uid then 1 else 0) ≡ waits_for uid sp
  replied-waits_for uid = elim (ℕ_discrete r.atlas.request_uid uid) [
    | yes mine ↦
        let there : find uid sp.slicer_map ≡ some slicer =
          ap (λ u. find u sp.slicer_map) (sym mine) ∙ found in
        ground (arith, replied-find uid, mine, there, some_left)
    | no other ↦ ground (arith, replied-find uid, other)
  ]

  pub replied-IsSound : IsSound after
  replied-IsSound = record {
    some_iot = ground (arith, replied-fds, sound.some_iot);
    few = ground (arith, replied-fds, sound.few);
    single = replied-IsSingle;
    small = λ uid. omega (arith, replied-waits_for uid, sound.small uid);
    whole = λ uid left there none_left. elim (Bool-cases (r.atlas.request_uid == uid)) [
      | inl mine ↦ ground (arith, replied-find uid, mine, there, none_left, some_left)
      | inr other ↦ sound.whole uid left (ground (arith, replied-find uid, other, there)) none_left
    ];
  }

  pub replied-entered :
      (p : Request → ℕ)
      → entered p after + sum_by (λ (e : ℕ × Request). p e.1) (gone_with gone []) ≡ entered p sp
  replied-entered p =
      let f = λ (e : ℕ × Slicer). p e.1.full_request in
      let taken = sum_by-erase f r.atlas.request_uid sp.slicer_map sound.single found in
      elim ways [
        | inl (_, e, g) ↦ rw (e, g) (omega (arith, taken))
        | inr (_, e, g) ↦
            rw (e, g)
              (omega (
                arith,
                taken,
                ap (sum_by f) (assign_lem r.atlas.request_uid less_one sp.slicer_map),
              ))
      ]
