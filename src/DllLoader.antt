-- ===== src/DllLoader.antt =====
-- framework/dll_loader/dll_loader.cpp: `DllLoader`, which keeps the handle of each library that it loaded.
-- What `dlopen` returns is a parameter of each call; the dynamic linker counts the opens of a handle.
pub mod Balance
use privately_distributed_cl.Common.{
  ℕ, suc, ◌-◌, ◌==◌, if◌then◌else◌, Option, none, some, List, [], ◌∷◌, Outcome, ok, fault,
  runtime_error,
}
use privately_distributed_cl.Common.Dict.{Dict, Key, find, assign, erase}

-- How often each handle is open.
abbrev pub Linker : Type 0
Linker = ℕ → ℕ

pub dlopened : ℕ → Linker → Linker
dlopened handle l h = if handle == h then suc (l h) else l h

pub dlclose : ℕ → Linker → Linker
dlclose handle l h = if handle == h then l h - 1 else l h

-- `m_handles`, and the linker.
pub record DllLoader (Name : Type 0) : Type 0 where
  pub handles : Dict Name ℕ
  pub linker : Linker

-- The loop of the destructor.
pub close_all : {Name : Type 0} → Dict Name ℕ → Linker → Linker
close_all [] l = l
close_all ((path, handle) ∷ rest) l = close_all rest (dlclose handle l)

unfoldable pub destroy : {Name : Type 0} → DllLoader Name → Linker
destroy s = close_all s.handles s.linker

module _ {Name : Type 0} ⦃key : Key Name⦄ where
  -- `load`, with the handle that `dlopen` returns, `none` for null.
  pub load : Name → Option ℕ → DllLoader Name → Outcome (DllLoader Name)
  load path none s = fault runtime_error
  load path (some handle) s =
      ok (record { handles = assign path handle s.handles; linker = dlopened handle s.linker })

  pub unload : Name → DllLoader Name → DllLoader Name
  unload path s = elim (find path s.handles) [
    | none ↦ s
    | some handle ↦ record { handles = erase path s.handles; linker = dlclose handle s.linker }
  ]
