-- ===== src/Dispatcher/Links.antt =====
-- A dispatcher lists just the callbacks that point to it.
use privately_distributed_cl.Common.{
  ℕ, ◌≡◌, refl, sym, ap, ◌∙◌, true, Option, none, some, List, [], ◌∷◌, ok, fault, ◌==◌, eq→==,
  ==_iff, if◌then◌else◌, arith, Bool-cases, Option-cases, inl, inr, subst,
}
use privately_distributed_cl.Dispatcher.{
  times, insert, erase, update, Store, subscribe, un_subscribe, new_callback, destroy_callback,
  set_dispatcher, notify,
}

pub times-insert :
    (c x : ℕ) (xs : List ℕ)
    → times c xs ≡ 0
    → times x (insert c xs) ≡ (if c == x then 1 else times x xs)
unfolding times insert
times-insert c x xs e = elim (Bool-cases (c == x)) [
  | inl h ↦
      let same = (==_iff c x).0 h in
      let none_there : times x xs ≡ 0 = ap (λ k. times k xs) (sym same) ∙ e in
      ground (arith, e, h, none_there)
  | inr h ↦ ground (arith, e, h)
]

pub times-erase :
    (c x : ℕ) (xs : List ℕ) → times x (erase c xs) ≡ (if c == x then 0 else times x xs)
unfolding times erase
times-erase c x [] = ground arith
times-erase c x (y ∷ ys) = ground (arith, times-erase c x ys)

-- How often a callback is to stand in the list of a dispatcher.
abbrev pub points : Option ℕ → ℕ → ℕ
points none d = 0
points (some e) d = if e == d then 1 else 0

pub IsLinked : Store → Type 0
IsLinked s = (c d : ℕ) → times c (s.subscribers d) ≡ points (s.dispatcher_of c) d

set_dispatcher-IsLinked :
    (c d : ℕ) (s : Store) → s.dispatcher_of c ≡ none → IsLinked s → IsLinked (set_dispatcher c d s)
unfolding IsLinked set_dispatcher subscribe update
set_dispatcher-IsLinked c d s free v x e =
    let none_there : times c (s.subscribers d) ≡ 0 = v c d ∙ ap (λ o. points o d) free in
    let here = times-insert c x (s.subscribers d) none_there in
    elim (Bool-cases (d == e)) [
      | inl at ↦ elim (Bool-cases (c == x)) [
        | inl same ↦ ground (arith, at, same, here)
        | inr other ↦ rw (at, here, other) (let q : d ≡ e = (==_iff d e).0 at in rw q (v x e))
      ]
      | inr away ↦ elim (Bool-cases (c == x)) [
        | inl same ↦
            let none_here : times x (s.subscribers e) ≡ 0 =
              ap (λ k. times k (s.subscribers e)) (sym ((==_iff c x).0 same))
              ∙ v c e
              ∙ ap (λ o. points o e) free in
            ground (arith, away, same, none_here)
        | inr other ↦ rw (away, other) (v x e)
      ]
    ]

-- The destructor of a callback that has a dispatcher leaves no list with it.
destroy_callback-IsLinked :
    (c d : ℕ) (s : Store)
    → s.dispatcher_of c ≡ some d
    → IsLinked s
    → IsLinked (new_callback c (un_subscribe d c s))
unfolding IsLinked new_callback un_subscribe update
destroy_callback-IsLinked c d s bound v x e =
    let here = times-erase c x (s.subscribers d) in
    elim (Bool-cases (c == x)) [
      | inl same ↦
          let mine : times x (s.subscribers e) ≡ (if d == e then 1 else 0) =
            ap (λ k. times k (s.subscribers e)) (sym ((==_iff c x).0 same))
            ∙ v c e
            ∙ ap (λ o. points o e) bound in
          ground (arith, same, here, mine)
      | inr other ↦ elim (Bool-cases (d == e)) [
        | inl at ↦ rw (at, here, other) (let q : d ≡ e = (==_iff d e).0 at in rw q (v x e))
        | inr away ↦ rw (away, other) (v x e)
      ]
    ]

-- What the owner of the callbacks does.
pub data Use : Type 0 where
  attach : ℕ → ℕ → Use
  destroy : ℕ → Use

-- A callback is attached while it has no dispatcher, and destroyed while it has one.
unfoldable pub use_callback : Use → Store → Option Store
use_callback (attach c d) s = elim (s.dispatcher_of c) [
  | none ↦ some (set_dispatcher c d s)
  | some _ ↦ none
]
use_callback (destroy c) s = elim (destroy_callback c s) [ ok s' ↦ some s' | fault _ ↦ none ]

unfoldable pub use_callbacks : List Use → Store → Option Store
use_callbacks [] s = some s
use_callbacks (u ∷ us) s = elim (use_callback u s) [ none ↦ none | some s' ↦ use_callbacks us s' ]

use_callback-IsLinked :
    (u : Use) (s : Store) {s' : Store} → use_callback u s ≡ some s' → IsLinked s → IsLinked s'
unfolding use_callback destroy_callback
use_callback-IsLinked (attach c d) s {s'} e v = elim (Option-cases (s.dispatcher_of c)) [
  | inl free ↦
      let same : some (set_dispatcher c d s) ≡ some s' = rw (free, use_callback) at e in
      subst IsLinked {x = set_dispatcher c d s} (cc) (set_dispatcher-IsLinked c d s free v)
  | inr (d', bound) ↦ absurd (ground (arith, e, bound))
]
use_callback-IsLinked (destroy c) s {s'} e v = elim (Option-cases (s.dispatcher_of c)) [
  | inl free ↦ absurd (ground (arith, e, free))
  | inr (d, bound) ↦
      let same : some (new_callback c (un_subscribe d c s)) ≡ some s' =
        rw (bound, use_callback, destroy_callback) at e in
      subst IsLinked {x = new_callback c (un_subscribe d c s)} (cc)
        (destroy_callback-IsLinked c d s bound v)
]

-- While a callback is attached only when it has no dispatcher, and destroyed only when it has one, every
-- dispatcher notifies each callback that points to it, once, and no other: no callback that is
-- gone is called.
pub use_callbacks-IsLinked :
    (us : List Use) (s : Store) {s' : Store}
    → IsLinked s
    → use_callbacks us s ≡ some s'
    → (c d : ℕ) → times c (notify d s') ≡ points (s'.dispatcher_of c) d
unfolding use_callbacks IsLinked notify
use_callbacks-IsLinked [] s {s'} v e c d = let same : s ≡ s' = cc in rw (← same) (v c d)
use_callbacks-IsLinked (u ∷ us) s v e c d = elim (Option-cases (use_callback u s)) [
  | inl stops ↦ absurd (ground (arith, e, stops))
  | inr (s1, goes) ↦
      use_callbacks-IsLinked us s1 (use_callback-IsLinked u s goes v)
        (rw (goes, use_callbacks) at e) c d
]

pub set_dispatcher_points :
    (c d e : ℕ) (s : Store)
    → s.dispatcher_of c ≡ none
    → IsLinked s
    → times c (notify e (set_dispatcher c d s)) ≡ (if d == e then 1 else 0)
unfolding IsLinked notify set_dispatcher subscribe update
set_dispatcher_points c d e s free v =
    let self : (c == c) ≡ true = eq→== c c refl in
    set_dispatcher-IsLinked c d s free v c e ∙ rw self refl

-- A store without callbacks.
abbrev pub new_store : Store
new_store = record { subscribers = λ _. []; dispatcher_of = λ _. none }

pub new_store-IsLinked : IsLinked new_store
unfolding IsLinked times
new_store-IsLinked c d = refl

-- To insert an element that is not there and erase it again changes no count.
times-erase-insert :
    (c x : ℕ) (xs : List ℕ) → times c xs ≡ 0 → times x (erase c (insert c xs)) ≡ times x xs
times-erase-insert c x xs fresh =
    let out = times-erase c x (insert c xs) in
    let there = times-insert c x xs fresh in
    elim (Bool-cases (c == x)) [
      | inl e ↦
          let none_there : times x xs ≡ 0 = subst (λ k. times k xs ≡ 0) ((==_iff c x).0 e) fresh in
          ground (arith, out, e, none_there)
      | inr e ↦ ground (arith, out, e, there)
    ]

-- A callback that is attached, and destroyed then, leaves every dispatcher as it was.
pub destroy-set_dispatcher :
    (c d : ℕ) (s : Store)
    → times c (notify d s) ≡ 0
    → (s' : Store) × destroy_callback c (set_dispatcher c d s) ≡ ok s'
      × ((x e : ℕ) → times x (notify e s') ≡ times x (notify e s))
unfolding destroy_callback set_dispatcher subscribe un_subscribe new_callback update notify
destroy-set_dispatcher c d s fresh =
    let self : (c == c) ≡ true = eq→== c c refl in
    let same : (d == d) ≡ true = eq→== d d refl in
    (
      new_callback c (un_subscribe d c (set_dispatcher c d s)),
      rw (self, destroy_callback) refl,
      λ x e. elim (Bool-cases (d == e)) [
        | inl at ↦
            let p : d ≡ e = (==_iff d e).0 at in
            rw (at, same)
              (subst
                (λ k. times x (erase c (insert c (s.subscribers d))) ≡ times x (s.subscribers k)) p
                (times-erase-insert c x (s.subscribers d) fresh))
        | inr away ↦ rw away refl
      ],
    )
