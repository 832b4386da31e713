-- ===== src/Common/Faults.antt =====
-- The result of C++ code: a value, or the way in which the run stops.
use mathlib.Core.Path.{◌≡◌, refl}

-- An exception that the code throws, or a fault of the machine.
pub data Fault : Type 0 where
  out_of_range : Fault
  runtime_error : Fault
  select_failed : Fault
  double_add : Fault
  division_by_zero : Fault
  null_dereference : Fault
  exit_failure : Fault

pub data Outcome {ℓ} (A : Type ℓ) : Type ℓ where
  ok : A → Outcome A
  fault : Fault → Outcome A

infixl 5 ◌>>=◌ ◌>>◌
abbrev pub ◌>>=◌ {ℓ κ} : {A : Type ℓ} {B : Type κ} → Outcome A → (A → Outcome B) → Outcome B
ok a >>= f = f a
fault e >>= f = fault e

abbrev pub ◌>>◌ {ℓ} : {B : Type ℓ} → Outcome (Unit {0}) → Outcome B → Outcome B
m >> k = m >>= λ _. k

-- A run that succeeds has a first part that does.
pub bind_inv {ℓ κ} :
    {A : Type ℓ} {B : Type κ} (m : Outcome A) (f : A → Outcome B) {b : B}
    → (m >>= f) ≡ ok b
    → (a : A) × (m ≡ ok a) × (f a ≡ ok b)
bind_inv (ok a) f e = (a, refl, e)
bind_inv (fault x) f e = cc

pub ok_inj {ℓ} : {A : Type ℓ} {a b : A} → ok a ≡ ok b → a ≡ b
ok_inj e = cc

-- Two ways to go on that agree on the result of the first part.
pub bind-congr {ℓ κ} :
    {A : Type ℓ} {B : Type κ} (m : Outcome A) (f g : A → Outcome B)
    → ((a : A) → m ≡ ok a → f a ≡ g a)
    → (m >>= f) ≡ (m >>= g)
bind-congr (ok a) f g same = same a refl
bind-congr (fault x) f g same = refl
