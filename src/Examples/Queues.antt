-- ===== src/Examples/Queues.antt =====
-- Queues and pools at concrete inputs.
use privately_distributed_cl.Common.{ℕ, ◌+◌, ◌≡◌, refl, List, [], ◌∷◌, ◌++◌, leb}
use privately_distributed_cl.WaitableQueue.{count_if, push, pop}
use privately_distributed_cl.WaitableQueue.Histories.{
  History, Event, pushed, popped, pushes, pops, done, push_step, pop_step, History-conserves,
}
use privately_distributed_cl.WaitableQueue.Fifo.{std_queue, nil, tail, head, History-in_order}
use privately_distributed_cl.WaitableQueue.FrontablePq.{
  frontable_pq, frontable_pq_laws, Descending, History-descends,
}
use privately_distributed_cl.WaitableQueue.Keyed.{keyed_pq, best, less}
use privately_distributed_cl.WaitableQueue.Keyed

abbrev in_and_out : List (Event ℕ)
in_and_out = pushed 1 ∷ pushed 2 ∷ popped 1 ∷ []

queue-History : History (std_queue {A = ℕ}) [] in_and_out (2 ∷ [])
unfolding push pop nil tail head
queue-History =
    push_step 1 [] (push_step 2 (1 ∷ []) (pop_step 1 (1 ∷ 2 ∷ []) (2 ∷ []) refl (done (2 ∷ []))))

History-in_order_example : pushes in_and_out ≡ pops in_and_out ++ (2 ∷ [])
unfolding pushes pops
History-in_order_example = History-in_order queue-History

abbrev by_value : ℕ → ℕ
by_value n = n

abbrev outs : List (Event ℕ)
outs = popped 3 ∷ popped 2 ∷ []

pq-History : History (frontable_pq (keyed_pq by_value)) (1 ∷ 3 ∷ 2 ∷ []) outs (1 ∷ [])
unfolding pop Keyed.nil Keyed.top Keyed.pop best
pq-History =
    pop_step 3 (1 ∷ 3 ∷ 2 ∷ []) (1 ∷ 2 ∷ []) refl
      (pop_step 2 (1 ∷ 2 ∷ []) (1 ∷ []) refl (done (1 ∷ [])))

History-descends_example : Descending (keyed_pq by_value) (3 ∷ 2 ∷ [])
unfolding pushes pops
History-descends_example = History-descends (keyed_pq by_value) pq-History refl

History-conserves_example :
    count_if (leb 2) (1 ∷ 3 ∷ 2 ∷ []) + 0
    ≡ count_if (leb 2) (3 ∷ 2 ∷ []) + count_if (leb 2) (1 ∷ [])
unfolding pushes pops count_if
History-conserves_example =
    History-conserves (frontable_pq (keyed_pq by_value)) (frontable_pq_laws (keyed_pq by_value))
      (leb 2) pq-History
