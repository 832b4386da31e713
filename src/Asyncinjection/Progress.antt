-- ===== src/Asyncinjection/Progress.antt =====
-- An object that is to call its function until it says true comes to its end.
use privately_distributed_cl.Common.{
  ℕ, zero, suc, ◌≡◌, ap, subst, ◌∙◌, ◌≢◌, refl, Bool, true, false, none, some, List, [], ◌∷◌, ◌++◌,
  length, Outcome, ok, ◌>>=◌, arith,
}
use privately_distributed_cl.Callable.{callable_function, call, invoke}
use privately_distributed_cl.Scheduler.{
  Timers, Timer, Scheduler, schedule, arm, runs_out, it_value, Timespec,
}
use privately_distributed_cl.Scheduler.Times.{arm_lem, runs_out_last}
use privately_distributed_cl.Asyncinjection.{
  Asyncinjection, World, put, go_on, execute, task, create_instance, timer_callback,
}

-- A function says false some times, and then true.
pub data Until {Sys : Type 0} (f : Sys → Bool × Sys) : ℕ → Sys → Sys → Type 0 where
  now : {s s' : Sys} → f s ≡ (true, s') → Until f 0 s s'
  later : {n : ℕ} {s s1 s' : Sys} → f s ≡ (false, s1) → Until f n s1 s' → Until f (suc n) s s'

-- The system has timers, and sets them.
pub record HasTimers (timers : Timers) : Type 0 where
  pub created : (ids : List ℕ) → (id : ℕ) × (timers.timer_create ids ≡ some id)
  pub set : (id : ℕ) (value : Timespec) → timers.timer_settime id value ≡ true

schedule-sets :
    (timers : Timers) (s : Scheduler ℕ) (obj interval : ℕ)
    → HasTimers timers
    → interval ≢ 0
    → (s' : Scheduler ℕ) × (timer : Timer ℕ) × schedule timers obj interval s ≡ ok s'
      × s'.armed ≡ s.armed ++ (timer ∷ [])
      × timer.task ≡ obj
unfolding schedule
schedule-sets timers s obj interval has long =
    let (id, there) = has.created s.timer_ids in
    let timer : Timer ℕ = record { id = id; value = it_value interval; task = obj } in
    (
      record { timer_ids = s.timer_ids ++ (id ∷ []); armed = arm timer s.armed },
      timer,
      rw (there, schedule, has.set id (it_value interval)) refl,
      arm_lem id interval obj s.armed long,
      refl,
    )

module _ {Sys : Type 0} (timers : Timers) where
  -- The timer at one place runs out some times.
  pub fire : ℕ → ℕ → World Sys → Outcome (World Sys)
  fire zero place w = ok w
  fire (suc n) place w = timer_callback timers place w >>= fire n place

  -- What the object's end leaves: the object is gone, and nothing else of the store; no timer of it is set.
  pub record IsOver (obj : ℕ) (w : World Sys) (s : Sys) (w' : World Sys) : Type 0 where
    pub sys_is : w'.sys ≡ s
    pub gone : w'.objects obj ≡ none
    pub others : (x : ℕ) → x ≢ obj → w'.objects x ≡ w.objects x
    pub armed_is : w'.scheduler.armed ≡ w.scheduler.armed

  callback-last :
      (w : World Sys) (rest : List (Timer ℕ)) (timer : Timer ℕ) (obj : ℕ)
      → w.scheduler.armed ≡ rest ++ (timer ∷ [])
      → timer.task ≡ obj
      → timer_callback timers (length rest) w
        ≡ execute timers obj (record w { scheduler = record w.scheduler { armed = rest } })
  unfolding timer_callback task callable_function call invoke
  callback-last w rest timer obj armed_is task_is =
      let out : runs_out (length rest) w.scheduler.armed ≡ some (timer, rest) =
        rw armed_is (runs_out_last rest timer) in
      rw (out, timer_callback, task_is) refl

  execute-now :
      (obj : ℕ) (o : Asyncinjection Sys) (w : World Sys) (s : Sys)
      → w.objects obj ≡ some o
      → o.to_execute w.sys ≡ (true, s)
      → (w' : World Sys) × execute timers obj w ≡ ok w' × IsOver obj w s w'
  unfolding execute go_on put
  execute-now obj o w s there e = (
    put obj none (record w { sys = s }),
    rw (there, execute, e) refl,
    record {
      sys_is = refl;
      gone = ground (arith);
      others = λ x apart. ground (arith, apart);
      armed_is = refl;
    },
  )

  -- An execution that goes on, and then the timer that it sets, is one in a world that differs in what
  -- the function has changed.
  execute-later :
      (obj n : ℕ) (o : Asyncinjection Sys) (w : World Sys) (s : Sys)
      → HasTimers timers
      → o.interval ≢ 0
      → w.objects obj ≡ some o
      → o.to_execute w.sys ≡ (false, s)
      → (w1 : World Sys) × (execute timers obj w >>= fire (suc n) (length w.scheduler.armed))
          ≡ (execute timers obj w1 >>= fire n (length w.scheduler.armed))
        × w1.sys ≡ s
        × w1.objects ≡ w.objects
        × w1.scheduler.armed ≡ w.scheduler.armed
  unfolding execute go_on fire timer_callback task callable_function call invoke
  execute-later obj n o w s has long there e =
      let (s1, timer, scheduled, armed_is, task_is) =
        schedule-sets timers w.scheduler obj o.interval has long in
      let next : World Sys = record w { sys = s; scheduler = s1 } in
      let first : execute timers obj w ≡ ok next = rw (there, execute, e, go_on, scheduled) refl in
      let fired : timer_callback timers (length w.scheduler.armed) next
          ≡ execute timers obj
              (record next { scheduler = record s1 { armed = w.scheduler.armed } }) =
        callback-last next w.scheduler.armed timer obj armed_is task_is in
      (
        record next { scheduler = record s1 { armed = w.scheduler.armed } },
        ap (λ m. m >>= fire (suc n) (length w.scheduler.armed)) first
            ∙ ap (λ m. m >>= fire n (length w.scheduler.armed)) fired,
        refl,
        refl,
        refl,
      )

  execute-ends :
      (obj : ℕ) (o : Asyncinjection Sys) (w : World Sys) {n : ℕ} {s : Sys} {s' : Sys}
      → HasTimers timers
      → o.interval ≢ 0
      → w.objects obj ≡ some o
      → w.sys ≡ s
      → Until o.to_execute n s s'
      → (w' : World Sys) × (execute timers obj w >>= fire n (length w.scheduler.armed)) ≡ ok w'
        × IsOver obj w s' w'
  unfolding fire
  execute-ends obj o w has long there at (now {s' = s'} e) =
      let (w', ran, over) = execute-now obj o w s' there (rw at e) in (w', rw ran refl, over)
  execute-ends obj o w has long there at (later {n} {s1 = s1} e u) =
      let (w1, ran, sys_is, same, armed_is) = execute-later obj n o w s1 has long there (rw at e) in
      let (w', ends, over) = execute-ends obj o w1 has long (rw same there) sys_is u in
      (
        w',
        ran ∙ subst (λ a. (execute timers obj w1 >>= fire n (length a)) ≡ ok w') armed_is ends,
        record {
          sys_is = over.sys_is;
          gone = over.gone;
          others = λ x apart. over.others x apart ∙ ap (λ f. f x) same;
          armed_is = over.armed_is ∙ armed_is;
        },
      )

  -- If the system has timers, an object that is made with an interval that is not zero, and whose
  -- function says true at its last of n + 1 calls and false before, runs without a fault until
  -- its timer has run out n times; it is gone then, no timer is set for it, the function has been
  -- called n + 1 times, and other objects and timers are as they were.
  pub create_instance-ends :
      {n : ℕ} (functor : Sys → Bool × Sys) (interval : ℕ) (w : World Sys) {s : Sys}
      → HasTimers timers
      → interval ≢ 0
      → Until functor n w.sys s
      → (w' : World Sys) × (create_instance timers functor interval w
            >>= fire n (length w.scheduler.armed))
          ≡ ok w'
        × w'.sys ≡ s
        × w'.objects w.next ≡ none
        × ((x : ℕ) → x ≢ w.next → w'.objects x ≡ w.objects x)
        × w'.scheduler.armed ≡ w.scheduler.armed
  unfolding create_instance put
  create_instance-ends functor interval w has long u =
      let o : Asyncinjection Sys = record { to_execute = functor; interval = interval } in
      let start = put w.next (some o) (record w { next = suc w.next }) in
      let (w', ran, over) = execute-ends w.next o start has long (ground (arith)) refl u in
      (
        w',
        ran,
        over.sys_is,
        over.gone,
        (λ x apart. over.others x apart ∙ (ground (arith, apart))),
        over.armed_is,
      )
