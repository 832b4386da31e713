-- ===== src/Reactor/Registered.antt =====
-- Registrations and deregistrations: what they leave watched, and with which handler.
use privately_distributed_cl.Common.{
  ℕ, ◌<◌, refl, List, [], ◌∷◌, All, arith, Bool-cases, Option-cases, inl, inr, ◌==◌, Outcome,
}
use privately_distributed_cl.Common.Dict.{nat_key, find, find-emplace, find-erase}
use privately_distributed_cl.Reactor.{
  IMonitor, MonitorLaws, Reactor, register_read_event_handler, deregister_event_handler,
}
use privately_distributed_cl.Reactor.Dispatch.{IsRegistered}

-- A change of what the reactor waits for.
pub data Change (H : Type 0) : Type 0 where
  register : ℕ → H → Change H
  deregister : ℕ → Change H

abbrev pub descriptor : {H : Type 0} → Change H → ℕ
descriptor (register fd h) = fd
descriptor (deregister fd) = fd

module _ {W H : Type 0} (imonitor : IMonitor W) (call : H → W → Outcome W) where
  unfoldable pub change : Change H → Reactor imonitor call → Reactor imonitor call
  change (register fd h) = register_read_event_handler imonitor call fd h
  change (deregister fd) = deregister_event_handler imonitor call fd

  unfoldable pub changes : List (Change H) → Reactor imonitor call → Reactor imonitor call
  changes [] r = r
  changes (c ∷ cs) r = changes cs (change c r)

module _ {W H : Type 0} (imonitor : IMonitor W) (laws : MonitorLaws imonitor)
    (call : H → W → Outcome W) where
  open laws use {limit, watched}

  change-IsRegistered :
      (c : Change H) (r : Reactor imonitor call)
      → descriptor c < limit
      → IsRegistered imonitor laws call r
      → IsRegistered imonitor laws call (change imonitor call c r)
  unfolding change register_read_event_handler deregister_event_handler
  change-IsRegistered (register fd h) r lt v = record {
    valid = laws.register_read-Valid fd r.monitor lt v.valid;
    handled = λ x small on.
        let here = laws.watched-register_read fd x r.monitor in
        let entry = find-emplace fd x h r.call_backs in
        elim (Bool-cases (fd == x)) [
          | inl e ↦ elim (Option-cases (find fd r.call_backs)) [
            | inl missing ↦ (h, rw (entry, e, missing) refl)
            | inr (old, there) ↦ (old, rw (entry, e, there) refl)
          ]
          | inr e ↦
              let (old, there) = v.handled x small (ground (arith, on, here, e)) in
              (old, rw (entry, e) there)
        ];
  }
  change-IsRegistered (deregister fd) r lt v = record {
    valid = laws.deregister-Valid fd r.monitor v.valid;
    handled = λ x small on.
        let here = laws.watched-deregister fd x r.monitor in
        let entry = find-erase fd x r.call_backs in
        elim (Bool-cases (fd == x)) [
          | inl e ↦ absurd (ground (arith, on, here, e))
          | inr e ↦
              let (old, there) = v.handled x small (ground (arith, on, here, e)) in
              (old, rw (entry, e) there)
        ];
  }

  -- However descriptors below the limit are registered and deregistered, every descriptor that the
  -- monitor watches has a handler.
  pub changes-IsRegistered :
      (cs : List (Change H)) (r : Reactor imonitor call)
      → All (λ c. descriptor c < limit) cs
      → IsRegistered imonitor laws call r
      → IsRegistered imonitor laws call (changes imonitor call cs r)
  unfolding changes
  changes-IsRegistered [] r lts v = v
  changes-IsRegistered (c ∷ cs) r lts v =
      changes-IsRegistered cs (change imonitor call c r) lts.1 (change-IsRegistered c r lts.0 v)
