-- ===== src/WaitableQueue/Timeouts.antt =====
-- `Pop` with a timeout.
use privately_distributed_cl.Common.{◌≡◌, refl, none, List, [], ◌∷◌, ◌++◌, All, map}
use privately_distributed_cl.WaitableQueue.{
  Container, CvStatus, timeout, no_timeout, timed_out, pop, pop_within,
}

module _ {A : Type 0} (c : Container A) where
  abbrev pub woken : c.State → CvStatus × c.State
  woken t = (no_timeout, t)

  -- Woken any number of times to find nothing, the call goes on waiting. The first wait that times
  -- out ends it with `false`, even if an element has come in the meantime; a wait that does not lets
  -- it look again.
  pub pop_within_lem :
      (idle : List c.State) (s s1 : c.State) (status : CvStatus) (rest : List (CvStatus × c.State))
      → pop c s ≡ none
      → All (λ t. pop c t ≡ none) idle
      → pop_within c (map woken idle ++ ((status, s1) ∷ rest)) s
        ≡ elim status [ timeout ↦ timed_out s1 | no_timeout ↦ pop_within c rest s1 ]
  unfolding pop_within
  pop_within_lem [] s s1 status rest e es = rw (e, pop_within) refl
  pop_within_lem (t ∷ idle) s s1 status rest e es =
      rw (e, pop_within) (pop_within_lem idle t s1 status rest es.0 es.1)
