-- ===== src/Reactor/Dispatch.antt =====
-- A round of the reactor calls the handlers of the ready descriptors.
use privately_distributed_cl.Common.{
  ℕ, zero, suc, ◌+◌, ◌-◌, ◌≤◌, ◌<◌, ◌≡◌, refl, sym, ap, ◌∙◌, true, none, some, List, [], ◌∷◌, arith,
  inl, inr, length, Outcome, ok, fault, ◌>>=◌, select_failed, ◌&&◌, Option-cases, bind_inv, subst,
  ok_inj, bind-congr,
}
use privately_distributed_cl.Common.Dict.{Dict, nat_key, find}
use privately_distributed_cl.Reactor.{
  up_from, IMonitor, MonitorLaws, Reactor, call_back_at, dispatch, run_round, run,
}
use privately_distributed_cl.Reactor.Scan.{up_from-congr, up_from-cons}

module _ {W H : Type 0} (call : H → W → Outcome W) where
  -- The handlers of some descriptors, in order.
  pub call_each : Dict ℕ H → List ℕ → W → Outcome W
  call_each call_backs [] w = ok w
  call_each call_backs (fd ∷ fds) w = elim (find fd call_backs) [
    | none ↦ call_each call_backs fds w
    | some h ↦ call h w >>= call_each call_backs fds
  ]

called :
    {W : Type 0} (o : Outcome W) (fd : ℕ) (k : ℕ × W → Outcome W) (g : W → Outcome W)
    → ((w' : W) → k (fd, w') ≡ g w')
    → let pair : W → Outcome (ℕ × W) = λ w'. ok (fd, w') in ((o >>= pair) >>= k) ≡ (o >>= g)
called (ok w') fd k g same = same w'
called (fault f) fd k g same = refl

module _ {W H : Type 0} (imonitor : IMonitor W) (laws : MonitorLaws imonitor)
    (call : H → W → Outcome W) where
  open laws use {limit, watched, found, readable, Valid}

  -- Every watched descriptor has a handler.
  pub record IsRegistered (r : Reactor imonitor call) : Type 0 where
    pub valid : Valid r.monitor
    pub handled :
        (fd : ℕ)
        → fd < limit
        → watched r.monitor fd ≡ true
        → (h : H) × (find fd r.call_backs ≡ some h)

  dispatch-call_each :
      (r : Reactor imonitor call) (fds : List ℕ) (start : ℕ) (w : W)
      → ((fd : ℕ)
          → fd < limit
          → found r.monitor fd ≡ true
          → (h : H) × (find fd r.call_backs ≡ some h))
      → start ≤ limit
      → up_from (found r.monitor) (limit - start) start ≡ fds
      → dispatch imonitor call r (length fds) start w ≡ call_each call r.call_backs fds w
  unfolding dispatch call_back_at call_each
  dispatch-call_each r [] start w handled le e = refl
  dispatch-call_each r (fd ∷ fds) start w handled le e =
      let (first, le', lt, ready, rest) =
        up_from-cons (found r.monitor) (limit - start) start fd fds e in
      let (h, there) = handled fd (omega arith) ready in
      let left : start + (limit - start) - (fd + 1) ≡ limit - (fd + 1) = omega arith in
      let next : imonitor.get_next_read_event r.monitor start ≡ some fd =
        laws.next_is_first r.monitor start ∙ first in
      rw (next, there, dispatch, call_back_at, call_each)
        (called (call h w) fd (λ s. dispatch imonitor call r (length fds) (s.0 + 1) s.1)
          (call_each call r.call_backs fds)
          λ w'.
            dispatch-call_each r fds (fd + 1) w' handled (omega arith)
              (ap (λ c. up_from (found r.monitor) c (fd + 1)) (sym left) ∙ rest))

  -- A round without the monitor's scan: the handlers of the descriptors that are watched and readable
  -- when the wait ends, each once and in ascending order.
  pub ready_round : Reactor imonitor call → W → Outcome (Reactor imonitor call × W)
  ready_round r w =
      let (w', ready_fds, monitor') = imonitor.wait_for_events w r.monitor in
      let ready = up_from (λ fd. watched r.monitor fd && readable w' fd) limit 0 in
      elim ready_fds [
        | none ↦ fault select_failed
        | some n ↦ call_each call r.call_backs ready w' >>= λ w''.
            ok (record r { monitor = monitor' }, w'')
      ]

  pub ready_rounds : ℕ → Reactor imonitor call → W → Outcome (Reactor imonitor call × W)
  ready_rounds zero r w = ok (r, w)
  ready_rounds (suc rounds) r w = do (r', w') ← ready_round r w; ready_rounds rounds r' w'

  pub run_round_lem :
      (r : Reactor imonitor call) (w : W)
      → IsRegistered r
      → run_round imonitor call r w ≡ ready_round r w
  unfolding run_round ready_round
  run_round_lem r w registered =
      let out = imonitor.wait_for_events w r.monitor in
      elim (Option-cases out.1) [
        | inl e ↦ rw (e, run_round, ready_round) refl
        | inr (n, e) ↦
            let (ready_is, count) =
              laws.wait_finds w r.monitor registered.valid (ap (λ o. (out.0, o, out.2)) e) in
            let same =
              up_from-congr (found out.2) (λ fd. watched r.monitor fd && readable out.0 fd) limit 0
                λ x lt. ready_is x (omega arith) in
            let whole : limit - 0 ≡ limit = omega arith in
            let n_is : n
                ≡ length (up_from (λ fd. watched r.monitor fd && readable out.0 fd) limit 0) =
              count ∙ ap length same in
            rw (e, n_is, run_round, ready_round)
              (ap (λ o. o >>= λ w''. ok (record r { monitor = out.2 }, w''))
                (dispatch-call_each (record r { monitor = out.2 }) _ 0 out.0
                  (λ fd lt h. registered.handled fd lt (ground (arith, ready_is fd lt)))
                  (omega arith) (ap (λ c. up_from (found out.2) c 0) whole ∙ same)))
      ]

  ready_round-IsRegistered :
      (r : Reactor imonitor call) (w : W) {out : Reactor imonitor call × W}
      → IsRegistered r
      → ready_round r w ≡ ok out
      → IsRegistered out.0
  unfolding ready_round
  ready_round-IsRegistered r w {out} registered e =
      let waited = imonitor.wait_for_events w r.monitor in
      let kept : IsRegistered (record r { monitor = waited.2 }) = record {
        valid = laws.wait_keeps w r.monitor registered.valid;
        handled = λ fd lt h. registered.handled fd lt (sym (laws.wait_watched w r.monitor fd) ∙ h);
      } in
      elim (Option-cases waited.1) [
        | inl none_is ↦ absurd (ground (arith, e, none_is))
        | inr (n, some_is) ↦
            let ready = up_from (λ fd. watched r.monitor fd && readable waited.0 fd) limit 0 in
            let next : W → Outcome (Reactor imonitor call × W) =
              λ w'. ok (record r { monitor = waited.2 }, w') in
            let (w', _, same) =
              bind_inv (call_each call r.call_backs ready waited.0) next
                (rw (some_is, ready_round) at e) in
            subst (λ (o : Reactor imonitor call × W). IsRegistered o.0)
              {x = (record r { monitor = waited.2 }, w')} (ok_inj same) kept
      ]

  -- `Run`, round by round, on a reactor that has a handler for every watched descriptor: it calls the
  -- handlers of just the descriptors that are watched and readable, each once and in ascending order,
  -- and always finds them. It throws only when the wait fails, or when a handler does.
  pub run_lem :
      (rounds : ℕ) (r : Reactor imonitor call) (w : W)
      → IsRegistered r
      → run imonitor call rounds r w ≡ ready_rounds rounds r w
  unfolding run ready_rounds
  run_lem zero r w registered = refl
  run_lem (suc rounds) r w registered = rw (run_round_lem r w registered) (
      bind-congr (ready_round r w) _ _
        λ out e. run_lem rounds out.0 out.1 (ready_round-IsRegistered r w registered e))
