-- ===== src/Dispatcher.antt =====
-- framework/dispatcher/dispatcher.hpp: `Dispatcher` and `Callback`, which hold pointers to each other, in one
-- store. An object is its address. The order in which a dispatcher goes through its set is left open
-- by the standard; here it is that of a list.
pub mod Links
use privately_distributed_cl.Common.{
  ℕ, zero, suc, ◌+◌, ◌≡◌, Bool, true, false, Option, none, some, List, [], ◌∷◌, Outcome, ok, fault,
  null_dereference, ◌==◌, if◌then◌else◌, map,
}

-- How often an address stands in a list.
unfoldable pub times : ℕ → List ℕ → ℕ
times c [] = 0
times c (x ∷ xs) = let n = times c xs in if x == c then suc n else n

-- `insert` and `erase` of a set.
unfoldable pub insert : ℕ → List ℕ → List ℕ
insert c xs = if times c xs == 0 then c ∷ xs else xs

unfoldable pub erase : ℕ → List ℕ → List ℕ
erase c [] = []
erase c (x ∷ xs) = let rest = erase c xs in if x == c then rest else x ∷ rest

unfoldable pub update : {A : Type 0} → ℕ → A → (ℕ → A) → ℕ → A
update k v f x = if k == x then v else f x

-- `m_subscribers` of each dispatcher, and `m_dispatcher` of each callback, of which `none` is null.
pub record Store : Type 0 where
  pub subscribers : ℕ → List ℕ
  pub dispatcher_of : ℕ → Option ℕ

unfoldable pub subscribe : ℕ → ℕ → Store → Store
subscribe d c s = record s { subscribers = update d (insert c (s.subscribers d)) s.subscribers }

unfoldable pub un_subscribe : ℕ → ℕ → Store → Store
un_subscribe d c s = record s { subscribers = update d (erase c (s.subscribers d)) s.subscribers }

-- The constructor of a callback at an address, and its destructor, with which its pointer is gone.
unfoldable pub new_callback : ℕ → Store → Store
new_callback c s = record s { dispatcher_of = update c none s.dispatcher_of }

unfoldable pub destroy_callback : ℕ → Store → Outcome Store
destroy_callback c s = elim (s.dispatcher_of c) [
  | none ↦ fault null_dereference
  | some d ↦ ok (new_callback c (un_subscribe d c s))
]

unfoldable pub set_dispatcher : ℕ → ℕ → Store → Store
set_dispatcher c d s =
    subscribe d c (record s { dispatcher_of = update c (some d) s.dispatcher_of })

-- The callbacks that `Notify` calls, each with the arguments; the destructor of the dispatcher calls the
-- same ones for its death.
unfoldable pub notify : ℕ → Store → List ℕ
notify d s = s.subscribers d
