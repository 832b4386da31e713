-- ===== src/Select/Waits.antt =====
-- What `SelectMonitor::Wait` returns.
use privately_distributed_cl.Common.{
  ℕ, ◌+◌, ◌<◌, ◌≡◌, refl, sym, ap, ◌∙◌, none, some, length, ◌&&◌, ltb, lt→ltb, arith, Option-cases,
  Bool-cases, inl, inr, ◌⊎◌,
}
use privately_distributed_cl.Reactor.{MonitorLaws, up_from}
use privately_distributed_cl.Select.{
  System, SelectMonitor, FdSet, fd_setsize, wait_for_events, select_monitor,
}
use privately_distributed_cl.Select.Laws.{
  IsSelectable, deregister-IsSelectable, next_is_first, register_read-IsSelectable, watched_after,
  watched_without,
}

module _ {W : Type 0} (system : System W) where
  -- What a wait leaves: the two results of `select`.
  waited :
      (w : W) (m : SelectMonitor)
      → let out = system.select w (m.maxfd + 1) m.watched_set in
        (wait_for_events system w m ≡ (out.0, none, record m { ready_set = m.watched_set }))
        ⊎ ((p : ℕ × FdSet) × (out ≡ (out.0, some p))
            × (wait_for_events system w m ≡ (out.0, some p.0, record m { ready_set = p.1 })))
  unfolding wait_for_events
  waited w m =
      let out = system.select w (m.maxfd + 1) m.watched_set in
      elim (Option-cases out.1) [
        | inl e ↦ inl (rw (e, wait_for_events) refl)
        | inr (p, e) ↦ inr (p, ap (λ o. (out.0, o)) e, rw (e, wait_for_events) refl)
      ]

  with_ready_set :
      (m : SelectMonitor) (ready : FdSet)
      → IsSelectable m
      → IsSelectable (record m { ready_set = ready })
  with_ready_set m ready v = record {
    ascends = v.ascends;
    maxfd_is = v.maxfd_is;
    maxfd_fits = v.maxfd_fits;
    watched_below = v.watched_below;
  }

  pub wait-IsSelectable :
      (w : W) (m : SelectMonitor) → IsSelectable m → IsSelectable (wait_for_events system w m).2
  wait-IsSelectable w m v = elim (waited w m) [
    | inl e ↦ rw e (with_ready_set m _ v)
    | inr (p, _, e) ↦ rw e (with_ready_set m _ v)
  ]

  pub wait-watched :
      (w : W) (m : SelectMonitor) (x : ℕ)
      → (wait_for_events system w m).2.watched_set x ≡ m.watched_set x
  wait-watched w m x = elim (waited w m) [ inl e ↦ rw e refl | inr (p, _, e) ↦ rw e refl ]

  below :
      (w' : W) (m : SelectMonitor) (fd : ℕ)
      → IsSelectable m
      → (ltb fd (m.maxfd + 1) && m.watched_set fd && system.readable w' fd)
        ≡ (m.watched_set fd && system.readable w' fd)
  below w' m fd v = elim (Bool-cases (m.watched_set fd)) [
    | inl e ↦ rw (e, lt→ltb fd (m.maxfd + 1) (omega (arith, v.watched_below fd e))) refl
    | inr e ↦ ground (arith, e)
  ]

  pub wait_finds :
      (w : W) (m : SelectMonitor) {w' : W} {n : ℕ} {m' : SelectMonitor}
      → IsSelectable m
      → wait_for_events system w m ≡ (w', some n, m')
      → ((fd : ℕ) → fd < fd_setsize → m'.ready_set fd ≡ (m.watched_set fd && system.readable w' fd))
        × (n ≡ length (up_from m'.ready_set fd_setsize 0))
  wait_finds w m {w'} {n} {m'} v e = elim (waited w m) [
    | inl none_is ↦ absurd (cc)
    | inr (p, found, some_is) ↦
        let (ready, count) =
          system.select_law w (m.maxfd + 1) m.watched_set (omega (arith, v.maxfd_fits)) found in
        let here : (system.select w (m.maxfd + 1) m.watched_set).0 ≡ w' = cc in
        let many : p.0 ≡ n = cc in
        let set_is : p.1 ≡ m'.ready_set = cc in
        (
          λ fd lt. ap (λ (s : FdSet). s fd) (sym set_is) ∙ ready fd ∙ rw here (below w' m fd v),
          sym many ∙ count ∙ ap (λ s. length (up_from s fd_setsize 0)) set_is,
        )
  ]

  -- The monitor over `select` is a monitor for the reactor.
  unfoldable pub select_laws : MonitorLaws (select_monitor system)
  select_laws = record {
    limit = fd_setsize;
    readable = system.readable;
    watched = λ m. m.watched_set;
    found = λ m. m.ready_set;
    Valid = IsSelectable;
    watched-register_read = λ fd x m. watched_after fd x m;
    watched-deregister = λ fd x m. watched_without fd x m;
    register_read-Valid = register_read-IsSelectable;
    deregister-Valid = deregister-IsSelectable;
    wait_keeps = wait-IsSelectable;
    wait_watched = wait-watched;
    wait_finds = wait_finds;
    next_is_first = next_is_first;
  }
