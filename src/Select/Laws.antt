-- ===== src/Select/Laws.antt =====
-- `SelectMonitor` keeps what the reactor needs of a monitor.
use privately_distributed_cl.Common.{
  ℕ, zero, suc, ◌-◌, ◌≤◌, ◌<◌, ◌≡◌, refl, true, false, List, [], ◌∷◌, ◌==◌, ltb, ltb→lt,
  if◌then◌else◌, arith, Bool-cases, inl, inr, ◌⊎◌, ==_iff,
}
use privately_distributed_cl.Reactor.{first_from}
use privately_distributed_cl.Select.{
  SelectMonitor, new_select_monitor, fd_set, fd_clr, fd_setsize, insert, last_or, register_read,
  deregister, is_readable, next_loop, get_next_read_event,
}

-- The registered descriptors ascend, `m_maxfd` is the last of them and is within the set, and no
-- descriptor above it is watched.
pub Ascends : ℕ → List ℕ → Type 0
Ascends low [] = Unit
Ascends low (x ∷ xs) = (low ≤ x) × Ascends (suc x) xs

pub record IsSelectable (m : SelectMonitor) : Type 0 where
  pub ascends : Ascends 0 m.registered_fds
  pub maxfd_is : m.maxfd ≡ last_or 0 m.registered_fds
  pub maxfd_fits : m.maxfd < fd_setsize
  pub watched_below : (fd : ℕ) → m.watched_set fd ≡ true → fd ≤ m.maxfd

pub new_select_monitor-IsSelectable : IsSelectable new_select_monitor
unfolding Ascends last_or
new_select_monitor-IsSelectable = record {
  ascends = tt;
  maxfd_is = refl;
  maxfd_fits = omega arith;
  watched_below = λ fd on. absurd (ground (arith, on));
}

insert-cases :
    (fd x : ℕ) (xs : List ℕ)
    → ((insert fd (x ∷ xs) ≡ fd ∷ x ∷ xs) × (fd < x))
      ⊎ (((insert fd (x ∷ xs) ≡ x ∷ xs) × (fd ≡ x))
          ⊎ ((insert fd (x ∷ xs) ≡ x ∷ insert fd xs) × (x < fd)))
unfolding insert
insert-cases fd x xs = elim (Bool-cases (ltb fd x)) [
  | inl e ↦ inl (ground arith, ltb→lt fd x e)
  | inr e ↦ elim (Bool-cases (fd == x)) [
    | inl h ↦ inr (inl (ground arith, (==_iff fd x).0 h))
    | inr h ↦ inr (inr (ground arith, ground arith))
  ]
]

insert-nil : (fd : ℕ) → insert fd [] ≡ fd ∷ []
unfolding insert
insert-nil fd = refl

insert-Ascends : (fd low : ℕ) (xs : List ℕ) → low ≤ fd → Ascends low xs → Ascends low (insert fd xs)
unfolding Ascends
insert-Ascends fd low [] le a = rw insert-nil (le, tt)
insert-Ascends fd low (x ∷ xs) le a = elim (insert-cases fd x xs) [
  | inl (e, lt) ↦ rw e (le, (lt, a.1))
  | inr (inl (e, same)) ↦ rw e a
  | inr (inr (e, lt)) ↦ rw e (a.0, insert-Ascends fd (suc x) xs lt a.1)
]

last_or_lower : (d low : ℕ) (xs : List ℕ) → Ascends low xs → d ≤ low → d ≤ last_or d xs
unfolding Ascends last_or
last_or_lower d low [] a le = omega arith
last_or_lower d low (x ∷ xs) a le = omega (arith, last_or_lower x (suc x) xs a.1 (omega arith))

-- After an insertion the last one is the greater of the old last one and the new number.
last_or-insert :
    (fd d low : ℕ) (xs : List ℕ)
    → Ascends low xs
    → d ≤ low
    → d ≤ fd
    → (fd ≤ last_or d (insert fd xs))
      × (last_or d xs ≤ last_or d (insert fd xs))
      × ((bound : ℕ) → fd < bound → last_or d xs < bound → last_or d (insert fd xs) < bound)
unfolding Ascends last_or
last_or-insert fd d low [] a le le' = rw insert-nil (omega arith, omega arith, λ bound lt lt'. lt)
last_or-insert fd d low (x ∷ xs) a le le' = elim (insert-cases fd x xs) [
  | inl (e, lt) ↦ rw e (
    omega (arith, last_or_lower x (suc x) xs a.1 (omega arith)),
    omega arith,
    λ bound lt' lt''. lt'',
  )
  | inr (inl (e, same)) ↦ rw e (
    omega (arith, last_or_lower x (suc x) xs a.1 (omega arith)),
    omega arith,
    λ bound lt' lt''. lt'',
  )
  | inr (inr (e, lt)) ↦ rw e (last_or-insert fd x (suc x) xs a.1 (omega arith) (omega arith))
]

pub register_read-IsSelectable :
    (fd : ℕ) (m : SelectMonitor)
    → fd < fd_setsize
    → IsSelectable m
    → IsSelectable (register_read fd m)
unfolding register_read fd_set
register_read-IsSelectable fd m lt v =
    let (ge, grows, bounded) =
      last_or-insert fd 0 0 m.registered_fds v.ascends (omega arith) (omega arith) in
    let was = v.maxfd_is in
    record {
      ascends = insert-Ascends fd 0 m.registered_fds (omega arith) v.ascends;
      maxfd_is = refl;
      maxfd_fits = bounded fd_setsize lt (omega (arith, v.maxfd_fits, was));
      watched_below = λ x on. elim (Bool-cases (fd == x)) [
        | inl e ↦ let same = (==_iff fd x).0 e in omega (arith, same, ge)
        | inr e ↦ omega (arith, v.watched_below x (rw e at on), was, grows)
      ];
    }

pub deregister-IsSelectable :
    (fd : ℕ) (m : SelectMonitor) → IsSelectable m → IsSelectable (deregister fd m).1
unfolding deregister fd_clr
deregister-IsSelectable fd m v = record {
  ascends = v.ascends;
  maxfd_is = v.maxfd_is;
  maxfd_fits = v.maxfd_fits;
  watched_below = λ x on. elim (Bool-cases (fd == x)) [
    | inl e ↦ absurd (ground (arith, on, e))
    | inr e ↦ v.watched_below x (rw e at on)
  ];
}

next_loop_lem :
    (m : SelectMonitor) (left start : ℕ)
    → next_loop m left start ≡ first_from m.ready_set left start
unfolding next_loop first_from is_readable
next_loop_lem m zero start = refl
next_loop_lem m (suc left) start = rw (next_loop_lem m left (suc start)) refl

pub next_is_first :
    (m : SelectMonitor) (start : ℕ)
    → get_next_read_event m start ≡ first_from m.ready_set (fd_setsize - start) start
unfolding get_next_read_event
next_is_first m start = next_loop_lem m (fd_setsize - start) start

pub watched_after :
    (fd x : ℕ) (m : SelectMonitor)
    → (register_read fd m).watched_set x ≡ (if fd == x then true else m.watched_set x)
unfolding register_read fd_set
watched_after fd x m = refl

pub watched_without :
    (fd x : ℕ) (m : SelectMonitor)
    → (deregister fd m).1.watched_set x ≡ (if fd == x then false else m.watched_set x)
unfolding deregister fd_clr
watched_without fd x m = refl
