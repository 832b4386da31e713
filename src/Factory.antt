-- ===== src/Factory.antt =====
-- framework/factory/factory.hpp: `Factory`, from keys to functions that make objects.
pub mod Creators
use privately_distributed_cl.Common.{
  Option, none, some, Outcome, ok, fault, out_of_range, runtime_error, double_add,
}
use privately_distributed_cl.Common.Dict.{Dict, Key, find, assign}

abbrev pub Factory : Type 0 → Type 0 → Type 0 → Type 0
Factory K Args Base = Dict K (Args → Base)

module _ {K Args Base : Type 0} ⦃key : Key K⦄ where
  pub add : K → (Args → Base) → Factory K Args Base → Outcome (Factory K Args Base)
  add k creator f = elim (find k f) [ some _ ↦ fault double_add | none ↦ ok (assign k creator f) ]

  pub set : K → (Args → Base) → Factory K Args Base → Outcome (Factory K Args Base)
  set k creator f = elim (find k f) [
    | none ↦ fault runtime_error
    | some _ ↦ ok (assign k creator f)
  ]

  unfoldable pub create : K → Args → Factory K Args Base → Outcome Base
  create k args f = elim (find k f) [ none ↦ fault out_of_range | some creator ↦ ok (creator args) ]
