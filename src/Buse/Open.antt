-- ===== src/Buse/Open.antt =====
-- concrete/nbd_buse/buse.c: `NbdOpen`, which opens the block device and starts the process that serves it. The
-- descriptors that a process has open are a test on their numbers; the system calls are parameters.
use privately_distributed_cl.Common.{
  ℕ, ◌≡◌, ◌≢◌, refl, Bool, true, false, Option, none, some, ◌==◌, if◌then◌else◌, arith,
  Option-cases, Bool-cases, inl, inr, ==_iff, subst, sym,
}

abbrev pub Fds : Type 0
Fds = ℕ → Bool

unfoldable pub opened : ℕ → Fds → Fds
opened fd fds x = if fd == x then true else fds x

-- `close`, which does nothing to a number that is not open.
unfoldable pub close : ℕ → Fds → Fds
close fd fds x = if fd == x then false else fds x

-- A number that is not open, opened and closed again, is as it was.
pub as_before : (fds : Fds) (fd x : ℕ) → fds fd ≡ false → (if fd == x then false else fds x) ≡ fds x
as_before fds fd x new = elim (Bool-cases (fd == x)) [
  | inl e ↦ let p : fd ≡ x = (==_iff fd x).0 e in rw e (subst (λ y. false ≡ fds y) p (sym new))
  | inr e ↦ rw e refl
]

-- What `fork` returns: -1, 0 in the child, or the id of the child in the parent.
pub data Forked : Type 0 where
  failed child parent : Forked

-- The calls: `none` and `false` are -1. `socketpair` and `open` give numbers that are not open.
pub record System : Type 0 where
  pub socketpair : Fds → Option (ℕ × ℕ)
  pub open_device : Fds → Option ℕ
  pub set_size : ℕ → ℕ → Bool
  pub set_sock : ℕ → ℕ → Bool
  pub do_it : ℕ → Bool
  pub socketpair_new :
      (fds : Fds) (a b : ℕ)
      → socketpair fds ≡ some (a, b)
      → (fds a ≡ false) × (fds b ≡ false) × (a ≢ b)
  pub open_new : (fds : Fds) (nbd : ℕ) → open_device fds ≡ some nbd → fds nbd ≡ false

module _ (sys : System) where
  -- The child: it serves the device until that is disconnected, and returns 0 then.
  pub serve_device : ℕ → ℕ → ℕ → Fds → Option ℕ × Fds
  serve_device sp0 sp1 nbd fds =
      let fds1 = close sp1 fds in
      if sys.set_sock nbd sp0
      then if sys.do_it nbd
        then (some 0, close sp0 (close nbd fds1))
        else (none, close nbd (close sp1 (close sp0 fds1)))
      else (none, close nbd (close sp1 (close sp0 fds1)))

  -- From `fork` on, with what that returns.
  unfoldable pub fork_server : Forked → ℕ → ℕ → ℕ → Fds → Option ℕ × Fds
  fork_server failed sp0 sp1 nbd fds = (none, close nbd (close sp1 (close sp0 fds)))
  fork_server child sp0 sp1 nbd fds = serve_device sp0 sp1 nbd fds
  fork_server parent sp0 sp1 nbd fds = (some sp1, close sp0 (close nbd fds))

  -- With the pair of sockets, which are open.
  unfoldable pub open_with : Forked → ℕ → ℕ → ℕ → Fds → Option ℕ × Fds
  open_with fork size sp0 sp1 fds = elim (sys.open_device fds) [
    | none ↦ (none, close sp1 (close sp0 fds))
    | some nbd ↦
        let fds1 = opened nbd fds in
        if sys.set_size nbd size
        then fork_server fork sp0 sp1 nbd fds1
        else (none, close nbd (close sp1 (close sp0 fds1)))
  ]

  -- `NbdOpen`: what it returns, `none` for -1, and the descriptors of the process that returns.
  unfoldable pub nbd_open : Forked → ℕ → Fds → Option ℕ × Fds
  nbd_open fork size fds = elim (sys.socketpair fds) [
    | none ↦ (none, fds)
    | some (sp0, sp1) ↦ open_with fork size sp0 sp1 (opened sp1 (opened sp0 fds))
  ]

  -- What a return of `NbdOpen` leaves open: for -1, and in the child, what was open before; in the
  -- parent also the descriptor that is returned, which is new.
  abbrev pub LeavesOpen : Forked → Fds → Option ℕ × Fds → Type 0
  LeavesOpen fork fds (none, fds') = (x : ℕ) → fds' x ≡ fds x
  LeavesOpen failed fds (some fd, fds') = ⊥
  LeavesOpen child fds (some fd, fds') = (fd ≡ 0) × ((x : ℕ) → fds' x ≡ fds x)
  LeavesOpen parent fds (some fd, fds') =
      (fds fd ≡ false) × ((x : ℕ) → fds' x ≡ (if fd == x then true else fds x))

  child-leaves :
      (sp0 sp1 nbd : ℕ) (fds : Fds)
      → fds sp0 ≡ false
      → fds sp1 ≡ false
      → fds nbd ≡ false
      → LeavesOpen child fds (serve_device sp0 sp1 nbd (opened nbd (opened sp1 (opened sp0 fds))))
  unfolding serve_device close opened
  child-leaves sp0 sp1 nbd fds new0 new1 new2 = elim (Bool-cases (sys.set_sock nbd sp0)) [
    | inr e ↦
        rw (e, LeavesOpen)
          (λ x.
            ground
              (arith, as_before fds sp0 x new0, as_before fds sp1 x new1, as_before fds nbd x new2))
    | inl e ↦ elim (Bool-cases (sys.do_it nbd)) [
      | inr f ↦
          rw (e, f, LeavesOpen)
            (λ x.
              ground (
                arith,
                as_before fds sp0 x new0,
                as_before fds sp1 x new1,
                as_before fds nbd x new2,
              ))
      | inl f ↦
          rw (e, f, LeavesOpen)
            (
              refl,
              λ x. ground (
                arith,
                as_before fds sp0 x new0,
                as_before fds sp1 x new1,
                as_before fds nbd x new2,
              ),
            )
    ]
  ]

  -- From `fork` on, with the two sockets and the device new and different.
  fork-leaves :
      (fork : Forked) (sp0 sp1 nbd : ℕ) (fds : Fds)
      → fds sp0 ≡ false
      → fds sp1 ≡ false
      → sp0 ≢ sp1
      → opened sp1 (opened sp0 fds) nbd ≡ false
      → LeavesOpen fork fds
          (fork_server fork sp0 sp1 nbd (opened nbd (opened sp1 (opened sp0 fds))))
  unfolding fork_server close opened
  fork-leaves failed sp0 sp1 nbd fds new0 new1 apart new2 =
      let new : fds nbd ≡ false = ground (arith, new2) in
      λ x.
        ground (arith, as_before fds sp0 x new0, as_before fds sp1 x new1, as_before fds nbd x new)
  fork-leaves child sp0 sp1 nbd fds new0 new1 apart new2 =
      child-leaves sp0 sp1 nbd fds new0 new1 (ground (arith, new2))
  fork-leaves parent sp0 sp1 nbd fds new0 new1 apart new2 =
      let new : fds nbd ≡ false = ground (arith, new2) in
      let other : sp1 ≢ nbd = ground (arith, new2) in
      (new1, λ x. ground (arith, apart, other, as_before fds sp0 x new0, as_before fds nbd x new))

  open-leaves :
      (fork : Forked) (size sp0 sp1 : ℕ) (fds : Fds)
      → fds sp0 ≡ false
      → fds sp1 ≡ false
      → sp0 ≢ sp1
      → LeavesOpen fork fds (open_with fork size sp0 sp1 (opened sp1 (opened sp0 fds)))
  unfolding open_with close opened
  open-leaves fork size sp0 sp1 fds new0 new1 apart =
      let start : Fds = opened sp1 (opened sp0 fds) in
      elim (Option-cases (sys.open_device start)) [
        | inl e ↦
            rw (e, open_with, LeavesOpen)
              (λ x. ground (arith, as_before fds sp0 x new0, as_before fds sp1 x new1))
        | inr (nbd, e) ↦
            let new2 : start nbd ≡ false = sys.open_new start nbd e in
            let new : fds nbd ≡ false = ground (arith, new2) in
            elim (Bool-cases (sys.set_size nbd size)) [
              | inl f ↦ rw (e, open_with, f) (fork-leaves fork sp0 sp1 nbd fds new0 new1 apart new2)
              | inr f ↦
                  rw (e, open_with, f, LeavesOpen)
                    (λ x. ground (
                      arith,
                      as_before fds sp0 x new0,
                      as_before fds sp1 x new1,
                      as_before fds nbd x new,
                    ))
            ]
      ]

  -- However its calls end, `NbdOpen` leaks no descriptor: where it returns -1, and in the child, what is
  -- open is what was open before; in the parent that is so but for the descriptor that it returns,
  -- which was not open. The child returns 0.
  pub nbd_open_lem :
      (fork : Forked) (size : ℕ) (fds : Fds) → LeavesOpen fork fds (nbd_open fork size fds)
  unfolding nbd_open
  nbd_open_lem fork size fds = elim (Option-cases (sys.socketpair fds)) [
    | inl e ↦ rw (e, nbd_open, LeavesOpen) (λ x. refl)
    | inr ((sp0, sp1), e) ↦
        let (new0, new1, apart) = sys.socketpair_new fds sp0 sp1 e in
        rw (e, nbd_open) (open-leaves fork size sp0 sp1 fds new0 new1 apart)
  ]
