-- ===== src/ThreadPool/Progress.antt =====
-- A pool that is set running goes on while there is something to do, and comes to an end.
use privately_distributed_cl.Common.{
  ℕ, suc, ◌+◌, ◌*◌, ◌≤◌, ◌<◌, ◌≡◌, ◌⊎◌, refl, ap, ◌∙◌, arith, Bool, true, false, List, [], ◌∷◌,
  ◌++◌, if◌then◌else◌, All, inl, inr, Bool-cases,
}
use native.Mathlib.Decide.{ℕ_discrete}
use privately_distributed_cl.Common.Dict.{Dict}
use privately_distributed_cl.WaitableQueue.{count_if}
use privately_distributed_cl.WaitableQueue.FrontablePq.{
  PriorityQueue, frontable_pq, frontable_pq_laws,
}
use privately_distributed_cl.WaitableQueue.Histories.{pop-some, pop-cases}
use privately_distributed_cl.ThreadPool.{
  Entry, begin, check_priority, Status, idle, running, paused1, paused2, exited, ThreadPool, Event,
  Step, takes, finishes, throws, resumes1, resumes2, adds,
}
use privately_distributed_cl.ThreadPool.Tokens.{is_live, count_if-middle}

module _ {T : Type 0} where
  -- A thread that has something to finish.
  pub is_busy : ℕ × Status T → Bool
  is_busy (id, idle) = false
  is_busy (id, running t) = true
  is_busy (id, paused1) = true
  is_busy (id, paused2) = true
  is_busy (id, exited) = false

  abbrev pub any : Entry T → Bool
  any e = true

busy-is_live :
    {T : Type 0} (id : ℕ) (st : Status T) → is_busy (id, st) ≡ true → is_live (id, st) ≡ true
unfolding is_busy is_live
busy-is_live id idle e = refl
busy-is_live id (running t) e = refl
busy-is_live id paused1 e = refl
busy-is_live id paused2 e = refl
busy-is_live id exited e = e

at_most : (b : Bool) → (if b then 1 else 0) ≤ 1
at_most true = omega arith
at_most false = omega arith

-- Whether some element passes a test, and where.
split_on :
    {A : Type 0} (p : A → Bool) (xs : List A)
    → (All (λ x. p x ≡ false) xs × count_if p xs ≡ 0)
      ⊎ ((ys : List A) × (zs : List A) × (x : A) × xs ≡ ys ++ (x ∷ zs) × p x ≡ true)
unfolding count_if
split_on p [] = inl (tt, refl)
split_on p (x ∷ xs) = elim (Bool-cases (p x)) [
  | inl e ↦ inr ([], xs, x, refl, e)
  | inr e ↦ elim (split_on p xs) [
    | inl (rest, none_there) ↦ inl ((e, rest), rw e none_there)
    | inr (ys, zs, y, there, f) ↦ inr (x ∷ ys, zs, y, ap (◌∷◌ x) there, f)
  ]
]

module _ {T : Type 0} (queue : PriorityQueue (check_priority T)) where
  -- A step of a thread, rather than of the user.
  abbrev pub IsWork : {p p' : ThreadPool queue} {e : Event queue} → Step queue p e p' → Type 0
  IsWork (takes p xs ys id task priority q at taken) = Unit {0}
  IsWork (finishes p xs ys id t at) = Unit {0}
  IsWork (throws p xs ys id t at) = Unit {0}
  IsWork (resumes1 p xs ys id at on) = Unit {0}
  IsWork (resumes2 p xs ys id at on) = Unit {0}
  IsWork (adds p t priority low) = ⊥

  pub data Works : ℕ → ThreadPool queue → ThreadPool queue → Type 0 where
    rests : (p : ThreadPool queue) → Works 0 p p
    works :
        (p : ThreadPool queue) {e : Event queue} {p1 p2 : ThreadPool queue} {n : ℕ}
        (s : Step queue p e p1)
        → IsWork s
        → Works n p1 p2
        → Works (suc n) p p2

  -- What there is to do: two steps for each task in the queue, and one for each busy thread.
  abbrev pub left_to_do : ThreadPool queue → ℕ
  left_to_do p = 2 * count_if any (queue.elements p.thread_queue) + count_if is_busy p.threads

  moved_busy :
      (xs ys threads : Dict ℕ (Status T)) (x y : ℕ × Status T)
      → threads ≡ xs ++ (x ∷ ys)
      → (if is_busy x then 1 else 0) + count_if is_busy (xs ++ (y ∷ ys))
        ≡ (if is_busy y then 1 else 0) + count_if is_busy threads
  moved_busy xs ys threads x y e =
      rw (e, count_if-middle is_busy xs ys x, count_if-middle is_busy xs ys y) (omega arith)

  work-lessens :
      {p p' : ThreadPool queue} {e : Event queue} (s : Step queue p e p')
      → IsWork s
      → left_to_do p' + 1 ≤ left_to_do p
  unfolding is_busy count_if
  work-lessens (takes p xs ys id task priority q at taken) w =
      let went : count_if any (queue.elements p.thread_queue)
          ≡ count_if any ((task, priority) ∷ queue.elements q) =
        pop-some (frontable_pq queue) (frontable_pq_laws queue) p.thread_queue taken any in
      omega (
        arith,
        went,
        moved_busy xs ys p.threads (id, idle) (id, begin task) at,
        at_most (is_busy (id, begin task)),
      )
  work-lessens (finishes p xs ys id t at) w =
      omega (arith, moved_busy xs ys p.threads (id, running t) (id, idle) at)
  work-lessens (throws p xs ys id t at) w =
      omega (arith, moved_busy xs ys p.threads (id, running t) (id, exited) at)
  work-lessens (resumes1 p xs ys id at on) w =
      omega (arith, moved_busy xs ys p.threads (id, paused1) (id, idle) at)
  work-lessens (resumes2 p xs ys id at on) w =
      omega (arith, moved_busy xs ys p.threads (id, paused2) (id, idle) at)
  work-lessens (adds p t priority low) w = absurd w

  abbrev pub CanWork : ThreadPool queue → Type 0
  CanWork p = (e : Event queue) × (p' : ThreadPool queue) × (s : Step queue p e p') × IsWork s

  -- A thread that is busy, or that is idle while the queue has a task, can work.
  thread-CanWork :
      (p : ThreadPool queue) (xs ys : Dict ℕ (Status T)) (id : ℕ) (st : Status T)
      → p.threads ≡ xs ++ ((id, st) ∷ ys)
      → is_live (id, st) ≡ true
      → p.is_running1 ≡ true
      → p.is_running2 ≡ true
      → (0 < count_if any (queue.elements p.thread_queue)) ⊎ (is_busy (id, st) ≡ true)
      → CanWork p
  unfolding is_live is_busy count_if
  thread-CanWork p xs ys id idle at live on1 on2 (inr busy) = absurd (ground (arith, busy))
  thread-CanWork p xs ys id idle at live on1 on2 (inl more) =
      elim (pop-cases (frontable_pq queue) (frontable_pq_laws queue) p.thread_queue) [
        | inl (_, nil) ↦
            let none_there : count_if any (queue.elements p.thread_queue) ≡ 0 =
              ap (count_if any) nil in
            absurd (omega (arith, more, none_there))
        | inr ((task, priority), _, taken, _) ↦
            (_, _, takes p xs ys id task priority (queue.pop p.thread_queue) at taken, tt)
      ]
  thread-CanWork p xs ys id (running t) at live on1 on2 why = (_, _, finishes p xs ys id t at, tt)
  thread-CanWork p xs ys id paused1 at live on1 on2 why = (_, _, resumes1 p xs ys id at on1, tt)
  thread-CanWork p xs ys id paused2 at live on1 on2 why = (_, _, resumes2 p xs ys id at on2, tt)
  thread-CanWork p xs ys id exited at live on1 on2 why = absurd (ground (arith, live))

  -- Nothing is to be done, or every thread has ended.
  abbrev pub IsAtRest : ThreadPool queue → Type 0
  IsAtRest p = (left_to_do p ≡ 0) ⊎ All (λ x. is_live x ≡ false) p.threads

  rest-or-CanWork :
      (p : ThreadPool queue) → p.is_running1 ≡ true → p.is_running2 ≡ true → IsAtRest p ⊎ CanWork p
  rest-or-CanWork p on1 on2 = elim (split_on is_busy p.threads) [
    | inr (xs, ys, (id, st), at, busy) ↦
        inr (thread-CanWork p xs ys id st at (busy-is_live id st busy) on1 on2 (inr busy))
    | inl (_, none_busy) ↦ elim (ℕ_discrete (count_if any (queue.elements p.thread_queue)) 0) [
      | yes nil ↦ inl (inl (omega (arith, nil, none_busy)))
      | no more ↦ elim (split_on is_live p.threads) [
        | inl (none_live, _) ↦ inl (inr none_live)
        | inr (xs, ys, (id, st), at, live) ↦
            inr (thread-CanWork p xs ys id st at live on1 on2 (inl (omega (arith, more))))
      ]
    ]
  ]

  work-running :
      {p p' : ThreadPool queue} {e : Event queue} (s : Step queue p e p')
      → IsWork s
      → p'.is_running1 ≡ p.is_running1 × p'.is_running2 ≡ p.is_running2
  work-running (takes p xs ys id task priority q at taken) w = (refl, refl)
  work-running (finishes p xs ys id t at) w = (refl, refl)
  work-running (throws p xs ys id t at) w = (refl, refl)
  work-running (resumes1 p xs ys id at on) w = (refl, refl)
  work-running (resumes2 p xs ys id at on) w = (refl, refl)
  work-running (adds p t priority low) w = absurd w

  -- The threads of a pool that is set running, and to which nothing is added, take at most two steps for
  -- each task in the queue and one for each thread that is busy; and whenever they have taken some of
  -- them there is a next one, unless the queue is empty and no thread is busy, or every thread has
  -- ended.
  pub Works-end :
      {n : ℕ} {p p' : ThreadPool queue}
      → Works n p p'
      → p.is_running1 ≡ true
      → p.is_running2 ≡ true
      → n + left_to_do p' ≤ left_to_do p × (IsAtRest p' ⊎ CanWork p')
  Works-end (rests p) on1 on2 = (omega arith, rest-or-CanWork p on1 on2)
  Works-end (works p s w more) on1 on2 =
      let (same1, same2) = work-running s w in
      let (bound, next) = Works-end more (same1 ∙ on1) (same2 ∙ on2) in
      (omega (arith, bound, work-lessens s w), next)
