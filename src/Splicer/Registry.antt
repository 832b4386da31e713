-- ===== src/Splicer/Registry.antt =====
-- The map of waiting requests as a register, and what `Request` enters.
use privately_distributed_cl.Common.{
  ℕ, zero, suc, ◌+◌, ◌/◌, ◌^◌, ◌<◌, ◌≡◌, refl, sym, ap, ◌∙◌, arith, inl, inr, List, Option, none,
  some, ok, length, tabulate, ◌==◌, ==_iff, if◌then◌else◌, Bool-cases,
}
use privately_distributed_cl.Common.Words.{uint32, size_of_int32}
use privately_distributed_cl.Common.Sums.{sum_by}
use privately_distributed_cl.Common.Dict.{find, nat_key, find-assign}
use privately_distributed_cl.Common.Dict.Single.{
  IsSingle, assign_lem, assign-IsSingle, erase_missing,
}
use privately_distributed_cl.Nbd.{Request}
use privately_distributed_cl.Slicer.{Slicer, DeviceRequest, fragment_size}
use privately_distributed_cl.Slicer.ClosedForm.{striped, striped_requests}
use privately_distributed_cl.Splicer.{Splicer, RaidedMessage, request}
use privately_distributed_cl.Splicer.Requests.{slicer_for, requested, request_lem}

-- The fragments of a request.
abbrev pub fragments : Request → ℕ
fragments q = size_of_int32 q.len / fragment_size

-- The slicer of a request before `Slice`.
abbrev pub unsliced : Request → List ℕ → Slicer
unsliced q fds = record { fds_vector = fds; full_request = q; count_slices = 0; request_uid = 0 }

-- One for a fragment of a request, and 0 for one of another.
abbrev pub is_of : ℕ → DeviceRequest → ℕ
is_of uid d = if d.request.request_uid == uid then 1 else 0

abbrev pub count_in : Option Slicer → ℕ
count_in none = 0
count_in (some slicer) = slicer.count_slices

-- The replies that the request under a uid waits for.
abbrev pub waits_for : ℕ → Splicer → ℕ
waits_for uid sp = count_in (find uid sp.slicer_map)

-- The requests in the map, each with a number.
abbrev pub entered : (Request → ℕ) → Splicer → ℕ
entered p sp = sum_by (λ (e : ℕ × Slicer). p e.1.full_request) sp.slicer_map

pub record IsSound (sp : Splicer) : Type 0 where
  pub some_iot : 0 < length sp.fds_vector
  pub few : length sp.fds_vector < 2 ^ 64
  pub single : IsSingle sp.slicer_map
  pub small : (uid : ℕ) → waits_for uid sp < 2 ^ 64
  pub whole :
      (uid : ℕ) (slicer : Slicer)
      → find uid sp.slicer_map ≡ some slicer
      → slicer.count_slices ≡ 0
      → fragments slicer.full_request ≡ 0

striped-is_of :
    (uid : ℕ) (s : Slicer) (first n j : ℕ)
    → sum_by (is_of uid) (tabulate n j (striped s first)) ≡ (if s.request_uid == uid then n else 0)
striped-is_of uid s first zero j = ground arith
striped-is_of uid s first (suc n) j = ground (arith, striped-is_of uid s first n (suc j))

-- A successful `Request` makes the fragments of the striping.
pub request_inv :
    (q : Request) (sp : Splicer) {sp' : Splicer} {message : RaidedMessage}
    → length sp.fds_vector < 2 ^ 64
    → request q sp ≡ ok (sp', message)
    → (sp' ≡ requested q sp)
      × (message.request_vector ≡ striped_requests sp.request_counter (unsliced q sp.fds_vector))
request_inv q sp few e = elim (request_lem q sp few) [
  | inl (_, made) ↦ (cc, ap (λ (m : RaidedMessage). m.request_vector) (cc))
  | inr (_, made) ↦ cc
]

-- What a successful `Request` under a uid that is not in use leaves.
module _ (q : Request) (sp : Splicer) (sound : IsSound sp)
    (fresh : find (uint32 sp.request_counter) sp.slicer_map ≡ none) where
  pub requested-find :
      (uid : ℕ)
      → find uid (requested q sp).slicer_map ≡ (
          if uint32 sp.request_counter == uid
          then some (slicer_for q sp)
          else find uid sp.slicer_map)
  requested-find uid = find-assign (uint32 sp.request_counter) uid (slicer_for q sp) sp.slicer_map

  pub requested-IsSound : q.len < 2 ^ 32 → IsSound (requested q sp)
  requested-IsSound word = record {
    some_iot = sound.some_iot;
    few = sound.few;
    single =
        assign-IsSingle (uint32 sp.request_counter) (slicer_for q sp) sp.slicer_map sound.single;
    small = λ uid. ground (arith, requested-find uid, sound.small uid, word);
    whole = λ uid slicer found none_left. elim (Bool-cases (uint32 sp.request_counter == uid)) [
      | inl mine ↦
          let it : slicer ≡ slicer_for q sp = ground (arith, mine, found, requested-find uid) in
          ap (λ (t : Slicer). fragments t.full_request) it
          ∙ ap (λ (t : Slicer). t.count_slices) (sym it)
          ∙ none_left
      | inr other ↦
          sound.whole uid slicer (ground (arith, other, found, requested-find uid)) none_left
    ];
  }

  pub requested-waits_for :
      (uid : ℕ)
      → waits_for uid (requested q sp)
        ≡ waits_for uid sp
          + sum_by (is_of uid) (striped_requests sp.request_counter (unsliced q sp.fds_vector))
  requested-waits_for uid = ground (
    arith,
    requested-find uid,
    fresh,
    (==_iff (uint32 sp.request_counter) uid).0,
    striped-is_of uid (slicer_for q sp) (q.from / fragment_size) (fragments q) 0,
  )

  pub requested-entered : (p : Request → ℕ) → entered p (requested q sp) ≡ p q + entered p sp
  requested-entered p =
      ap (sum_by (λ (e : ℕ × Slicer). p e.1.full_request))
        (assign_lem (uint32 sp.request_counter) (slicer_for q sp) sp.slicer_map)
      ∙ rw (erase_missing (uint32 sp.request_counter) sp.slicer_map fresh) refl
