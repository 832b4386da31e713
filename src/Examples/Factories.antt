-- ===== src/Examples/Factories.antt =====
-- A factory at a concrete input.
use privately_distributed_cl.Common.{
  ℕ, ◌+◌, ◌*◌, ◌≡◌, ◌⊎◌, false, [], ◌∷◌, none, some, ok, fault, runtime_error, double_add, ◌==◌,
}
use privately_distributed_cl.Common.Dict.{find, nat_key}
use privately_distributed_cl.Factory.{Factory, add, set, create}
use privately_distributed_cl.Factory.Creators.{add_set_lem}

abbrev makers : Factory ℕ ℕ ℕ
makers = (1, λ n. n + 1) ∷ []

abbrev twice : ℕ → ℕ
twice n = n * 2

add_set_lem_example :
    (f' : Factory ℕ ℕ ℕ) × (((find 2 makers ≡ none)
        × (add 2 twice makers ≡ ok f')
        × (set 2 twice makers ≡ fault runtime_error))
      ⊎ ((old : ℕ → ℕ) × (find 2 makers ≡ some old)
          × (set 2 twice makers ≡ ok f')
          × (add 2 twice makers ≡ fault double_add)))
    × ((args : ℕ) → create 2 args f' ≡ ok (args * 2))
    × ((j : ℕ) (args : ℕ) → (2 == j) ≡ false → create j args f' ≡ create j args makers)
add_set_lem_example = add_set_lem 2 twice makers
