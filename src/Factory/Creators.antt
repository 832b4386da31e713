-- ===== src/Factory/Creators.antt =====
-- What `Create` makes after `Add` and `Set`.
use privately_distributed_cl.Common.{
  ◌≡◌, ◌⊎◌, refl, false, none, some, ok, fault, runtime_error, double_add, Option-cases, inl, inr,
}
use privately_distributed_cl.Common.Dict.{Dict, Key, find, assign, find-assign, find-assign_self}
use privately_distributed_cl.Factory.{add, set, create}

module _ {K Args Base : Type 0} ⦃key : Key K⦄ where
  create-assign :
      (k : K) (creator : Args → Base) (args : Args) (f : Dict K (Args → Base))
      → create k args (assign k creator f) ≡ ok (creator args)
  unfolding create
  create-assign k creator args f = rw (find-assign_self k creator f, create) refl

  create-assign_other :
      (k j : K) (creator : Args → Base) (args : Args) (f : Dict K (Args → Base))
      → key.same k j ≡ false
      → create j args (assign k creator f) ≡ create j args f
  unfolding create
  create-assign_other k j creator args f other = rw (find-assign k j creator f, other, create) refl

  -- A key that has no creator is taken by `Add` and makes `Set` throw; one that has a creator is taken by `Set`
  -- and makes `Add` throw `DoubleAdd`. After the call that takes it, `Create` makes what the new creator
  -- makes for the key, and for every other key what it made before.
  pub add_set_lem :
      (k : K) (creator : Args → Base) (f : Dict K (Args → Base))
      → ((f' : Dict K (Args → Base)) × (((find k f ≡ none)
              × (add k creator f ≡ ok f')
              × (set k creator f ≡ fault runtime_error))
            ⊎ ((old : Args → Base) × (find k f ≡ some old)
                × (set k creator f ≡ ok f')
                × (add k creator f ≡ fault double_add)))
          × ((args : Args) → create k args f' ≡ ok (creator args))
          × ((j : K) (args : Args) → key.same k j ≡ false → create j args f' ≡ create j args f))
  unfolding add set
  add_set_lem k creator f = (
    assign k creator f,
    elim (Option-cases (find k f)) [
      | inl e ↦ inl (e, rw (e, add) refl, rw (e, set) refl)
      | inr (old, e) ↦ inr (old, e, rw (e, set) refl, rw (e, add) refl)
    ],
    (λ args. create-assign k creator args f),
    λ j args other. create-assign_other k j creator args f other,
  )
