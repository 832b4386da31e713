-- ===== src/DllLoader/Balance.antt =====
-- What a loader leaves open when it is destroyed.
use privately_distributed_cl.Common.{
  ℕ, ◌+◌, ◌-◌, ◌≡◌, arith, Option, none, some, List, [], ◌∷◌, ok, fault, Option-cases, inl, inr,
}
use privately_distributed_cl.Common.Dict.{Dict, Key, find}
use privately_distributed_cl.Common.Dict.Single.{
  holding, has, IsSingle, erase-IsSingle, assign-IsSingle, holding-erase, holding-assign,
}
use privately_distributed_cl.DllLoader.{
  Linker, dlopened, dlclose, DllLoader, load, unload, close_all, destroy,
}

-- A call of the loader's user: a load with what `dlopen` returns then, or an unload.
pub data Call (Name : Type 0) : Type 0 where
  loads : Name → Option ℕ → Call Name
  unloads : Name → Call Name

module _ {Name : Type 0} ⦃key : Key Name⦄ where
  -- A user who goes on after a load that throws.
  pub use_one : Call Name → DllLoader Name → DllLoader Name
  use_one (loads path result) s = elim (load path result s) [ ok s' ↦ s' | fault e ↦ s ]
  use_one (unloads path) s = unload path s

  pub use_all : List (Call Name) → DllLoader Name → DllLoader Name
  use_all [] s = s
  use_all (c ∷ cs) s = use_all cs (use_one c s)

  -- How often a call loads a path anew that has this handle.
  abbrev pub overwrites : ℕ → Call Name → DllLoader Name → ℕ
  overwrites h (loads path none) s = 0
  overwrites h (loads path (some _)) s = has h (find path s.handles)
  overwrites h (unloads path) s = 0

  pub overwritten : ℕ → List (Call Name) → DllLoader Name → ℕ
  overwritten h [] s = 0
  overwritten h (c ∷ cs) s = overwrites h c s + overwritten h cs (use_one c s)

  linker-close_all : (h : ℕ) (d : Dict Name ℕ) (l : Linker) → close_all d l h ≡ l h - holding h d
  unfolding close_all dlclose holding
  linker-close_all h [] l = omega arith
  linker-close_all h ((path, handle) ∷ d) l =
      ground (arith, linker-close_all h d (dlclose handle l))

  -- One call: the entries stay single, and the opens follow them but for a handle that is overwritten.
  use_one-IsSingle :
      (c : Call Name) (s : DllLoader Name) → IsSingle s.handles → IsSingle (use_one c s).handles
  unfolding use_one load unload
  use_one-IsSingle (loads path none) s v = v
  use_one-IsSingle (loads path (some handle)) s v = assign-IsSingle path handle s.handles v
  use_one-IsSingle (unloads path) s v = elim (Option-cases (find path s.handles)) [
    | inl e ↦ rw (e, unload) v
    | inr (handle, e) ↦ rw (e, unload) (erase-IsSingle path s.handles v)
  ]

  use_one-linker :
      (h base : ℕ) (c : Call Name) (s : DllLoader Name)
      → IsSingle s.handles
      → s.linker h ≡ base + holding h s.handles
      → (use_one c s).linker h ≡ base + overwrites h c s + holding h (use_one c s).handles
  unfolding use_one load unload dlopened dlclose
  use_one-linker h base (loads path none) s v counts = ground (arith, counts)
  use_one-linker h base (loads path (some handle)) s v counts =
      ground (arith, counts, holding-assign h path handle s.handles v)
  use_one-linker h base (unloads path) s v counts = elim (Option-cases (find path s.handles)) [
    | inl e ↦ rw (e, unload) (ground (arith, counts))
    | inr (handle, e) ↦
        let less = holding-erase h path s.handles v in
        rw (e, unload) (ground (arith, counts, less, e))
  ]

  use_all-linker :
      (h base : ℕ) (cs : List (Call Name)) (s : DllLoader Name)
      → IsSingle s.handles
      → s.linker h ≡ base + holding h s.handles
      → destroy (use_all cs s) h ≡ base + overwritten h cs s
  unfolding use_all overwritten destroy
  use_all-linker h base [] s v counts =
      ground (arith, counts, linker-close_all h s.handles s.linker)
  use_all-linker h base (c ∷ cs) s v counts = omega (
    arith,
    use_all-linker h (base + overwrites h c s) cs (use_one c s) (use_one-IsSingle c s v)
        (use_one-linker h base c s v counts),
  )

  -- A loader that is used in any way, loads that throw included, and destroyed leaves each handle open
  -- as often as it was before, and once more for each load of a path that had this handle already.
  pub destroy-use_all :
      (h : ℕ) (cs : List (Call Name)) (l : Linker)
      → let s : DllLoader Name = record { handles = []; linker = l } in
        destroy (use_all cs s) h ≡ l h + overwritten h cs s
  unfolding holding
  destroy-use_all h cs l =
      use_all-linker h (l h) cs (record { handles = []; linker = l }) tt (omega arith)
