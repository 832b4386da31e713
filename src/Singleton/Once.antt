-- ===== src/Singleton/Once.antt =====
-- One object is made, and every caller gets it.
use privately_distributed_cl.Common.{
  ℕ, ◌≡◌, suc, ap, sym, ◌∙◌, subst, Bool-cases, inl, inr, ==_iff, ◌≢◌, refl, Bool, true, false,
  none, some, [], ◌∷◌, ◌==◌, if◌then◌else◌, arith,
}
use privately_distributed_cl.Singleton.{
  update, Pc, outside, first_test, locking, second_test, registering, constructing, publishing,
  unlocking, returning, returned, Statics, State, start, goes, Step, calls, calls_again, tests,
  locks, tests_again, registers, constructs, throws, publishes, unlocks, returns, Steps, done, step,
  cleanup, dead,
}

-- What each thread may be at, given the statics: one that is in the lock holds it; before the object is
-- published there is none but for the thread that is to publish it; and what is returned is the object.
abbrev pub Fits : ℕ → Pc → Statics → Type 0
Fits t outside s = Unit {0}
Fits t first_test s = Unit {0}
Fits t locking s = Unit {0}
Fits t second_test s = s.mutex ≡ some t × (s.is_ready ≡ false → s.made ≡ 0)
Fits t registering s = s.mutex ≡ some t × s.is_ready ≡ false × s.made ≡ 0
Fits t constructing s = s.mutex ≡ some t × s.is_ready ≡ false × s.made ≡ 0
Fits t publishing s = s.mutex ≡ some t × s.is_ready ≡ false × s.made ≡ 1 × s.obj ≡ some 1
Fits t unlocking s = s.mutex ≡ some t × s.is_ready ≡ true
Fits t returning s = s.is_ready ≡ true
Fits t (returned o) s = s.is_ready ≡ true × o ≡ 1

pub record IsSound (s : Statics) : Type 0 where
  pub ready : s.is_ready ≡ true → s.made ≡ 1 × s.obj ≡ some 1
  pub free : s.mutex ≡ none → s.is_ready ≡ false → s.made ≡ 0

pub record IsOnce (s : State) : Type 0 where
  pub each : (t : ℕ) → Fits t (s.pcs t) s.statics
  pub sound : IsSound s.statics

at_Pc : (t : ℕ) {pc : Pc} (s : State) → IsOnce s → s.pcs t ≡ pc → Fits t pc s.statics
at_Pc t s v at = subst (λ p. Fits t p s.statics) at (v.each t)

-- A thread goes on, and what the others are at still fits.
goes-IsOnce :
    (t : ℕ) (pc : Pc) (statics : Statics) (s : State)
    → IsOnce s
    → Fits t pc statics
    → ((u : ℕ) (p : Pc) → t ≢ u → Fits u p s.statics → Fits u p statics)
    → IsSound statics
    → IsOnce (goes t pc statics s)
unfolding goes update
goes-IsOnce t pc statics s v mine others sound = record {
  each = λ u. elim (Bool-cases (t == u)) [
    | inl e ↦ let p : t ≡ u = (==_iff t u).0 e in rw e (subst (λ x. Fits x pc statics) p mine)
    | inr e ↦ rw e (others u (s.pcs u) (λ p. ground (arith, p, e)) (v.each u))
  ];
  sound = sound;
}

-- A thread that does not hold the lock is not concerned by what changes, if what is ready stays so.
others-fit :
    (s s' : Statics) (u : ℕ) (p : Pc)
    → (s.mutex ≡ some u → ⊥)
    → (s.is_ready ≡ true → s'.is_ready ≡ true)
    → Fits u p s
    → Fits u p s'
others-fit s s' u outside free ready f = tt
others-fit s s' u first_test free ready f = tt
others-fit s s' u locking free ready f = tt
others-fit s s' u second_test free ready f = absurd (free f.0)
others-fit s s' u registering free ready f = absurd (free f.0)
others-fit s s' u constructing free ready f = absurd (free f.0)
others-fit s s' u publishing free ready f = absurd (free f.0)
others-fit s s' u unlocking free ready f = absurd (free f.0)
others-fit s s' u returning free ready f = ready f
others-fit s s' u (returned o) free ready f = (ready f.0, f.1)

not_mine : (s : Statics) (t u : ℕ) → s.mutex ≡ some t → t ≢ u → s.mutex ≡ some u → ⊥
not_mine s t u mine apart other = apart (ground (arith, mine, other))

-- A step of a thread that changes no static.
quiet-IsOnce :
    (t : ℕ) (pc : Pc) (s : State) → IsOnce s → Fits t pc s.statics → IsOnce (goes t pc s.statics s)
quiet-IsOnce t pc s v mine = goes-IsOnce t pc s.statics s v mine (λ u p apart f. f) v.sound

-- A step of the thread in the lock.
held-IsOnce :
    (t : ℕ) (pc : Pc) (statics : Statics) (s : State)
    → IsOnce s
    → s.statics.mutex ≡ some t
    → Fits t pc statics
    → (s.statics.is_ready ≡ true → statics.is_ready ≡ true)
    → IsSound statics
    → IsOnce (goes t pc statics s)
held-IsOnce t pc statics s v held mine ready sound =
    goes-IsOnce t pc statics s v mine
      (λ u p apart. others-fit s.statics statics u p (not_mine s.statics t u held apart) ready)
      sound

-- What a test chooses fits.
chosen-Fits :
    (t : ℕ) (then_pc else_pc : Pc) (b : Bool) (s : Statics)
    → (b ≡ true → Fits t then_pc s)
    → (b ≡ false → Fits t else_pc s)
    → Fits t (if b then then_pc else else_pc) s
chosen-Fits t then_pc else_pc true s y n = y refl
chosen-Fits t then_pc else_pc false s y n = n refl

Step-IsOnce : {s s' : State} → Step s s' → IsOnce s → IsOnce s'
Step-IsOnce (calls s t at) v = quiet-IsOnce t first_test s v tt
Step-IsOnce (calls_again s t o at) v = quiet-IsOnce t first_test s v tt
Step-IsOnce (tests s t at) v =
    quiet-IsOnce t _ s v
      (chosen-Fits t returning locking s.statics.is_ready s.statics (λ on. on) (λ off. tt))
Step-IsOnce (locks s t at free) v =
    goes-IsOnce t second_test _ s v (refl, v.sound.free free)
      (λ u p apart. others-fit s.statics _ u p (λ held. ground (arith, held, free)) (λ r. r))
      (record { ready = v.sound.ready; free = λ e. ground (arith, e) })
Step-IsOnce (tests_again s t at) v =
    let f = at_Pc t s v at in
    quiet-IsOnce t _ s v (
      chosen-Fits t unlocking registering s.statics.is_ready s.statics (λ on. (f.0, on))
        (λ off. (f.0, off, f.1 off)))
Step-IsOnce (registers s t at) v =
    let f = at_Pc t s v at in
    held-IsOnce t constructing _ s v f.0 f (λ r. r)
      (record { ready = v.sound.ready; free = v.sound.free })
Step-IsOnce (constructs s t at) v =
    let (held, off, none_made) = at_Pc t s v at in
    held-IsOnce t publishing _ s v held
      (held, off, ap suc none_made, ap (λ n. some (suc n)) none_made) (λ r. r)
      (record {
        ready = λ on. absurd (ground (arith, on, off));
        free = λ free. absurd (ground (arith, free, held));
      })
Step-IsOnce (throws s t at) v =
    let (held, off, none_made) = at_Pc t s v at in
    held-IsOnce t outside _ s v held tt (λ r. r)
      (record { ready = v.sound.ready; free = λ _ _. none_made })
Step-IsOnce (publishes s t at) v =
    let (held, off, one_made, there) = at_Pc t s v at in
    held-IsOnce t unlocking _ s v held (held, refl) (λ r. refl)
      (record {
        ready = λ on. (one_made, there);
        free = λ free. absurd (ground (arith, free, held));
      })
Step-IsOnce (unlocks s t at) v =
    let (held, on) = at_Pc t s v at in
    held-IsOnce t returning _ s v held on (λ r. r)
      (record { ready = v.sound.ready; free = λ _ off. absurd (ground (arith, on, off)) })
Step-IsOnce (returns s t o at there) v =
    let on : s.statics.is_ready ≡ true = at_Pc t s v at in
    let one = (v.sound.ready on).1 in
    quiet-IsOnce t (returned o) s v (on, ground (arith, one, there))

Steps-IsOnce : {s s' : State} → Steps s s' → IsOnce s → IsOnce s'
Steps-IsOnce (done s) v = v
Steps-IsOnce (step s one rest) v = Steps-IsOnce rest (Step-IsOnce one v)

start-IsOnce : IsOnce start
start-IsOnce = record {
  each = λ t. tt;
  sound = record { ready = λ on. absurd (ground (arith, on)); free = λ _ _. refl };
}

-- However the steps of the threads come, and whichever constructors throw, two calls of `getInstance`
-- that have returned gave the same object, which is the only one that was made.
pub getters-agree :
    {s : State} (t u o o' : ℕ)
    → Steps start s
    → s.pcs t ≡ returned o
    → s.pcs u ≡ returned o'
    → o ≡ o' × s.statics.made ≡ 1 × s.statics.obj ≡ some o
getters-agree {s} t u o o' steps here there =
    let v = Steps-IsOnce steps start-IsOnce in
    let (on, mine) = at_Pc t s v here in
    let (_, other) = at_Pc u s v there in
    let (one, obj) = v.sound.ready on in (mine ∙ sym other, one, obj ∙ ap some (sym mine))

Step-deleted : {s s' : State} → Step s s' → s'.statics.deleted ≡ s.statics.deleted
unfolding goes
Step-deleted (calls s t at) = refl
Step-deleted (calls_again s t o at) = refl
Step-deleted (tests s t at) = refl
Step-deleted (locks s t at free) = refl
Step-deleted (tests_again s t at) = refl
Step-deleted (registers s t at) = refl
Step-deleted (constructs s t at) = refl
Step-deleted (throws s t at) = refl
Step-deleted (publishes s t at) = refl
Step-deleted (unlocks s t at) = refl
Step-deleted (returns s t o at there) = refl

Steps-deleted : {s s' : State} → Steps s s' → s'.statics.deleted ≡ s.statics.deleted
Steps-deleted (done s) = refl
Steps-deleted (step s one rest) = Steps-deleted rest ∙ Step-deleted one

-- When the object is ready, the first `cleanup` deletes it, and nothing else; what `s_obj` is then is no
-- object, though `s_isReady` is still set.
pub cleanup_lem :
    {s : State}
    → Steps start s
    → s.statics.is_ready ≡ true
    → (cleanup s.statics).deleted ≡ 1 ∷ []
      × (cleanup s.statics).is_ready ≡ true
      × (cleanup s.statics).obj ≡ some dead
unfolding cleanup
cleanup_lem {s} steps on =
    let v = Steps-IsOnce steps start-IsOnce in
    let none_yet : s.statics.deleted ≡ [] = Steps-deleted steps in
    (rw (cleanup, (v.sound.ready on).1, none_yet) refl, on, refl)
