-- ===== src/Logger/Records.antt =====
-- What is logged and what is written.
use privately_distributed_cl.Common.{
  ℕ, ◌+◌, ◌≡◌, refl, ap, subst, arith, Bool, true, false, none, some, List, [], ◌∷◌, ◌++◌, not,
  if◌then◌else◌, Bool-cases, Option-cases, inl, inr,
}
use privately_distributed_cl.WaitableQueue.{Container, ContainerLaws, count_if, push, pop, is_empty}
use privately_distributed_cl.WaitableQueue.Histories.{pop-some, count_if-append}
use privately_distributed_cl.Logger.{
  work, Worker, testing, popping, ended, writing, Logger, logger, log, stop, Joins, thread_function,
  Step, logs, stops, works, Steps, done, step,
}

module _ {Line : Type 0} (c : Container Line) (laws : ContainerLaws c) where
  open laws use {contents}

  -- The line that the thread has popped and not yet written.
  abbrev pub in_hand : Worker c → List Line
  in_hand testing = []
  in_hand popping = []
  in_hand ended = []
  in_hand (writing line) = line ∷ []

  -- How many lines that pass a test are in the file, in hand or in the queue.
  abbrev pub kept : (Line → Bool) → Logger c → ℕ
  kept p s = count_if p s.file + count_if p (in_hand s.worker) + count_if p (contents s.queue)

  -- A thread that has ended found the queue empty, and the logger stopped.
  abbrev pub IsDrained : Worker c → Logger c → Type 0
  IsDrained testing s = Unit {0}
  IsDrained popping s = Unit {0}
  IsDrained ended s = s.is_running ≡ false × contents s.queue ≡ []
  IsDrained (writing line) s = Unit {0}

  -- The lines are as many as before, for every test, and the thread has not ended too early.
  abbrev pub Keeps : Logger c → Logger c → Type 0
  Keeps s s' = ((p : Line → Bool) → kept p s' ≡ kept p s) × IsDrained s'.worker s'

  test-Keeps :
      (s : Logger c)
      → s.worker ≡ testing
      → Keeps s (record s {
        worker =
            if (if s.is_running then true else not (is_empty c s.queue)) then popping else ended;
      })
  unfolding is_empty count_if
  test-Keeps s at = elim (Bool-cases s.is_running) [
    | inl on ↦ (λ p. simp (on, at) refl, simp on tt)
    | inr off ↦ elim (Bool-cases (c.empty s.queue)) [
      | inl nil ↦
          (λ p. simp (off, nil, at) refl, simp (off, nil) (refl, laws.empty_nil s.queue nil))
      | inr more ↦ (λ p. simp (off, more, at) refl, simp (off, more) tt)
    ]
  ]

  work-Keeps :
      (w : Worker c) (s : Logger c) {s' : Logger c}
      → s.worker ≡ w
      → work c w s ≡ some s'
      → Keeps s s'
  unfolding work count_if
  work-Keeps testing s {s'} at e =
      let next = record s {
        worker =
            if (if s.is_running then true else not (is_empty c s.queue)) then popping else ended;
      } in
      let q : next ≡ s' = cc in subst (λ x. Keeps s x) q (test-Keeps s at)
  work-Keeps popping s {s'} at e = elim (Option-cases (pop c s.queue)) [
    | inl waits ↦ absurd (ground (arith, e, waits))
    | inr ((line, queue), taken) ↦
        let next : Logger c = record s { queue = queue; worker = writing line } in
        let went : some next ≡ some s' = rw (taken, work) at e in
        let q : next ≡ s' = cc in
        subst (λ x. Keeps s x) q
          ((λ p. rw at (ground (arith, pop-some c laws s.queue taken p))), tt)
  ]
  work-Keeps (writing line) s {s'} at e =
      let next : Logger c = record s { file = s.file ++ (line ∷ []); worker = testing } in
      let q : next ≡ s' = cc in
      subst (λ x. Keeps s x) q
        ((λ p. rw at (ground (arith, count_if-append p s.file (line ∷ [])))), tt)
  work-Keeps ended s at e = absurd (cc)

  logged-IsDrained :
      (line : Line) (s : Logger c) (w : Worker c)
      → s.is_running ≡ true
      → IsDrained w s
      → IsDrained w (log c line s)
  unfolding log
  logged-IsDrained line s testing on v = tt
  logged-IsDrained line s popping on v = tt
  logged-IsDrained line s ended on v = absurd (ground (arith, on, v.0))
  logged-IsDrained line s (writing l) on v = tt

  stopped-IsDrained : (s : Logger c) (w : Worker c) → IsDrained w s → IsDrained w (stop c s)
  unfolding stop
  stopped-IsDrained s testing v = tt
  stopped-IsDrained s popping v = tt
  stopped-IsDrained s ended v = (refl, v.1)
  stopped-IsDrained s (writing l) v = tt

  -- What a step does: the lines that it logs are added, and the thread has still not ended too early.
  Step-keeps :
      (p : Line → Bool) {s s' : Logger c} {lines : List Line}
      → Step c s lines s'
      → IsDrained s.worker s
      → kept p s' ≡ count_if p lines + kept p s × IsDrained s'.worker s'
  unfolding log stop push count_if thread_function
  Step-keeps p (logs s line on) v =
      (ground (arith, laws.push_adds line s.queue p), logged-IsDrained line s s.worker on v)
  Step-keeps p (stops s) v = (omega arith, stopped-IsDrained s s.worker v)
  Step-keeps p (works s e) v =
      let (same, drained) = work-Keeps s.worker s refl e in (omega (arith, same p), drained)

  Steps-keeps :
      (p : Line → Bool) {s s' : Logger c} {lines : List Line}
      → Steps c s lines s'
      → IsDrained s.worker s
      → kept p s' ≡ count_if p lines + kept p s × IsDrained s'.worker s'
  unfolding count_if
  Steps-keeps p (done s) v = (omega arith, v)
  Steps-keeps p (step s {lines} {rest} one more) v =
      let (first, v1) = Step-keeps p one v in
      let (after, v2) = Steps-keeps p more v1 in
      (omega (arith, first, after, count_if-append p lines rest), v2)

  -- Whatever the thread and the callers of `Log` do, no line of a new logger is lost and none comes twice:
  -- for every test, those that were logged are as many as those that are in the file, that the thread
  -- has popped and not yet written, and that are in the queue.
  pub Steps-conserve :
      (p : Line → Bool) (empty : c.State) {s : Logger c} {lines : List Line}
      → contents empty ≡ []
      → Steps c (logger c empty) lines s
      → kept p s ≡ count_if p lines
  unfolding logger count_if
  Steps-conserve p empty nil steps =
      let (all, _) = Steps-keeps p steps tt in
      let none_yet : count_if p (contents empty) ≡ 0 = ap (count_if p) nil in
      omega (arith, all, none_yet)

  -- When the destructor's `join` returns, the file has just the lines that were logged.
  pub Steps-write :
      (p : Line → Bool) (empty : c.State) {s : Logger c} {lines : List Line}
      → contents empty ≡ []
      → Steps c (logger c empty) lines s
      → Joins c s
      → count_if p s.file ≡ count_if p lines
  unfolding logger count_if
  Steps-write p empty {s} nil steps over =
      let total = Steps-conserve p empty nil steps in
      let (_, drained) = Steps-keeps p steps tt in
      let left : contents s.queue ≡ [] = (subst (λ w. IsDrained w s) over drained).1 in
      let queue_left : count_if p (contents s.queue) ≡ 0 = ap (count_if p) left in
      let hand : count_if p (in_hand s.worker) ≡ 0 = rw over refl in
      omega (arith, total, queue_left, hand)

  -- A thread that waits for a line when the destructor has begun and the queue is empty goes on to wait.
  stop-waits :
      (s : Logger c)
      → s.worker ≡ popping
      → c.empty s.queue ≡ true
      → thread_function c (stop c s) ≡ none
  unfolding thread_function work stop pop
  stop-waits s at nil = rw (at, work, nil, pop) refl
