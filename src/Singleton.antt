-- ===== src/Singleton.antt =====
-- framework/singleton/singleton.hpp: `Singleton`, an object that the first call of `getInstance` makes. Each
-- statement of a call is a step of its thread, and the steps of the threads come in one order: what
-- C++ says of a read of `s_isReady` outside the lock, which is a race, is not modelled.
pub mod Once
use privately_distributed_cl.Common.{
  ℕ, suc, ◌+◌, ◌≡◌, Bool, true, false, Option, none, some, List, [], ◌∷◌, ◌==◌, if◌then◌else◌,
}

unfoldable pub update : {A : Type 0} → ℕ → A → (ℕ → A) → ℕ → A
update k v f x = if k == x then v else f x

-- What a thread is at in `getInstance`: the first test, the lock, the second test, `atexit`, `new T`,
-- the assignment of `s_isReady`, the end of the lock, the return; or it has a reference.
pub data Pc : Type 0 where
  outside first_test locking second_test registering constructing publishing unlocking returning :
      Pc
  returned : ℕ → Pc

-- `s_is_ready`, `s_obj`, of which `none` is null, and the thread that holds `s_mutex`; how often `cleanup`
-- is registered, how many objects were made, the last of which has the number `made`, and which were
-- deleted.
pub record Statics : Type 0 where
  pub is_ready : Bool
  pub obj : Option ℕ
  pub mutex : Option ℕ
  pub registered : ℕ
  pub made : ℕ
  pub deleted : List ℕ

pub record State : Type 0 where
  pub statics : Statics
  pub pcs : ℕ → Pc

-- Before the first call.
abbrev pub start : State
start = record {
  statics = record {
    is_ready = false;
    obj = none;
    mutex = none;
    registered = 0;
    made = 0;
    deleted = [];
  };
  pcs = λ t. outside;
}

-- Thread t goes on to a place, with the statics as they are then.
unfoldable pub goes : ℕ → Pc → Statics → State → State
goes t pc statics s = record { statics = statics; pcs = update t pc s.pcs }

-- What thread t does next.
pub data Step : State → State → Type 0 where
  calls : (s : State) (t : ℕ) → s.pcs t ≡ outside → Step s (goes t first_test s.statics s)
  calls_again :
      (s : State) (t o : ℕ) → s.pcs t ≡ returned o → Step s (goes t first_test s.statics s)
  tests :
      (s : State) (t : ℕ)
      → s.pcs t ≡ first_test
      → Step s (goes t (if s.statics.is_ready then returning else locking) s.statics s)
  locks :
      (s : State) (t : ℕ)
      → s.pcs t ≡ locking
      → s.statics.mutex ≡ none
      → Step s (goes t second_test (record s.statics { mutex = some t }) s)
  tests_again :
      (s : State) (t : ℕ)
      → s.pcs t ≡ second_test
      → Step s (goes t (if s.statics.is_ready then unlocking else registering) s.statics s)
  registers :
      (s : State) (t : ℕ)
      → s.pcs t ≡ registering
      → Step s (goes t constructing (record s.statics { registered = suc s.statics.registered }) s)
  constructs :
      (s : State) (t : ℕ)
      → s.pcs t ≡ constructing
      → Step s (
          goes t publishing
            (record s.statics { made = suc s.statics.made; obj = some (suc s.statics.made) })
            s)
  -- `new T` throws: the lock goes, and the caller gets the exception.
  throws :
      (s : State) (t : ℕ)
      → s.pcs t ≡ constructing
      → Step s (goes t outside (record s.statics { mutex = none }) s)
  publishes :
      (s : State) (t : ℕ)
      → s.pcs t ≡ publishing
      → Step s (goes t unlocking (record s.statics { is_ready = true }) s)
  unlocks :
      (s : State) (t : ℕ)
      → s.pcs t ≡ unlocking
      → Step s (goes t returning (record s.statics { mutex = none }) s)
  returns :
      (s : State) (t o : ℕ)
      → s.pcs t ≡ returning
      → s.statics.obj ≡ some o
      → Step s (goes t (returned o) s.statics s)

pub data Steps : State → State → Type 0 where
  done : (s : State) → Steps s s
  step : (s : State) {s1 s2 : State} → Step s s1 → Steps s1 s2 → Steps s s2

-- `0xDEADBEEF`, as the number of no object.
abbrev pub dead : ℕ
dead = 3735928559

-- `cleanup`.
pub cleanup : Statics → Statics
cleanup s = record s {
  obj = some dead;
  deleted = elim s.obj [ none ↦ s.deleted | some o ↦ o ∷ s.deleted ];
}
