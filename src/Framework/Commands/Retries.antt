-- ===== src/Framework/Commands/Retries.antt =====
-- How the wait for the commands ends.
use privately_distributed_cl.Common.{
  ℕ, zero, suc, ◌+◌, ◌≤◌, ◌<◌, ◌≡◌, ◌⊎◌, refl, ap, ◌∙◌, [], fault, Bool, true, false, none, some,
  ok, out_of_range, arith, inl, inr, Option-cases, Bool-cases, ◌==◌, ==_iff, subst,
}
use privately_distributed_cl.Common.Dict.{nat_key, find, find_missing}
use privately_distributed_cl.Factory.{Factory, create}
use privately_distributed_cl.CommandLibrary.{read, write, func}
use privately_distributed_cl.Dispatcher.{Store, new_callback, notify, times}
use privately_distributed_cl.Dispatcher.Links.{destroy-set_dispatcher}
use privately_distributed_cl.DirMonitor.{subscribe, dir_monitor}
use privately_distributed_cl.Framework.Commands.{
  Commands, no_commands, create_both, breaks, retries, round, retry_loop, monitor_and_load,
}

module _ {Command : Type 0} where
  -- A factory has creators for both commands.
  abbrev pub has_both : Factory ℕ ℕ Command → Bool
  has_both f = elim (find read f) [
    | none ↦ false
    | some _ ↦ elim (find write f) [ none ↦ false | some _ ↦ true ]
  ]

  -- The commands are those of the factory.
  pub record AreOf (f : Factory ℕ ℕ Command) (r : Commands Command) : Type 0 where
    pub a : Command
    pub b : Command
    pub made_read : create read read f ≡ ok a
    pub made_write : create write write f ≡ ok b
    pub has_read : r.read_command ≡ some a
    pub has_write : r.write_command ≡ some b

  -- A round that finds no creator for one of them goes on to the next, and another one ends the loop.
  round-cases :
      (f : Factory ℕ ℕ Command) (s : Commands Command)
      → (s' : Commands Command) × ((has_both f ≡ false
            × round (create_both f s) ≡ retries s'
            × s'.write_command ≡ s.write_command
            × s'.retry_count ≡ suc s.retry_count)
          ⊎ (round (create_both f s) ≡ breaks s' × AreOf f s' × s'.retry_count ≡ s.retry_count))
  unfolding create_both create round
  round-cases f s = elim (Option-cases (find read f)) [
    | inl e ↦
        let both : create_both f s ≡ (s, some out_of_range) = rw (e, create_both, create) refl in
        (
          record s { retry_count = suc s.retry_count },
          inl (rw (e, has_both) refl, ap round both, refl, refl),
        )
    | inr (make_read, e) ↦
        let s1 : Commands Command = record s { read_command = some (make_read read) } in
        elim (Option-cases (find write f)) [
          | inl g ↦
              let both : create_both f s ≡ (s1, some out_of_range) =
                rw (e, create_both, create, g) refl in
              (
                record s1 { retry_count = suc s.retry_count },
                inl (rw (e, has_both, g) refl, ap round both, refl, refl),
              )
          | inr (make_write, g) ↦
              let r : Commands Command = record s1 { write_command = some (make_write write) } in
              let both : create_both f s ≡ (r, none) = rw (e, create_both, create, g) refl in
              (
                r,
                inr (
                  ap round both,
                  record {
                    a = make_read read;
                    b = make_write write;
                    made_read = rw (e, create) refl;
                    made_write = rw (g, create) refl;
                    has_read = refl;
                    has_write = refl;
                  },
                  refl,
                ),
              )
        ]
  ]

  -- How the loop ends that has come to a round, with some retries left.
  pub record IsLoaded (factories : ℕ → Factory ℕ ℕ Command) (start left : ℕ) (r : Commands Command)
      : Type 0 where
    pub since : start ≤ r.retry_count
    pub within : r.retry_count ≤ start + left
    pub missing : (i : ℕ) → start ≤ i → i < r.retry_count → has_both (factories i) ≡ false
    pub ends :
        (r.retry_count ≡ start + left × r.write_command ≡ none)
        ⊎ (r.retry_count < start + left × AreOf (factories r.retry_count) r)

  missing_here :
      (factories : ℕ → Factory ℕ ℕ Command) (start i : ℕ)
      → has_both (factories start) ≡ false
      → (suc start ≤ i → has_both (factories i) ≡ false)
      → start ≤ i
      → has_both (factories i) ≡ false
  missing_here factories start i here later le = elim (Bool-cases (start == i)) [
    | inl e ↦
        let p : start ≡ i = (==_iff start i).0 e in
        subst (λ j. has_both (factories j) ≡ false) p here
    | inr e ↦ later (ground (arith, e, le))
  ]

  retry_loop_lem :
      (left : ℕ) (factories : ℕ → Factory ℕ ℕ Command) (s : Commands Command)
      → s.write_command ≡ none
      → (r : Commands Command) × retry_loop left factories s ≡ ok r
        × IsLoaded factories s.retry_count left r
  unfolding retry_loop
  retry_loop_lem zero factories s missing = (
    s,
    refl,
    record {
      since = omega arith;
      within = omega arith;
      missing = λ i ge lt. absurd (omega (arith, ge, lt));
      ends = inl (omega arith, missing);
    },
  )
  retry_loop_lem (suc left) factories s missing =
      let (s', cases) = round-cases (factories s.retry_count) s in
      elim cases [
        | inr (e, made, count) ↦ (
          s',
          rw (e, retry_loop) refl,
          record {
            since = omega (arith, count);
            within = omega (arith, count);
            missing = λ i ge lt. absurd (omega (arith, ge, lt, count));
            ends = inr (omega (arith, count), rw count made);
          },
        )
        | inl (lacks, e, same, count) ↦
            let (r, ran, loaded) = retry_loop_lem left factories s' (same ∙ missing) in
            (
              r,
              rw (e, retry_loop) ran,
              record {
                since = omega (arith, count, loaded.since);
                within = omega (arith, count, loaded.within);
                missing = λ i ge lt.
                    missing_here factories s.retry_count i lacks
                      (λ ge1. loaded.missing i (omega (arith, count, ge1)) lt) ge;
                ends = elim loaded.ends [
                  | inl (out, none_there) ↦ inl (omega (arith, out, count), none_there)
                  | inr (lt, made) ↦ inr (omega (arith, lt, count), made)
                ];
              },
            )
      ]

  -- With a working `inotify`, and at an address that no callback has, the wait ends without an exception after
  -- at most 10 retries: with the commands of the first of the ten rounds whose factory has creators for
  -- both, or without the second command after ten rounds in which a creator was missing; and every
  -- dispatcher notifies whom it did before.
  pub monitor_and_load_lem :
      (fd c : ℕ) (factories : ℕ → Factory ℕ ℕ Command) (store : Store)
      → times c (notify 2 store) ≡ 0
      → (r : Commands Command) × (store' : Store) × monitor_and_load
            (some fd)
            true
            c
            factories
            store
          ≡ ok (r, store')
        × IsLoaded factories 0 10 r
        × ((x d : ℕ) → times x (notify d store') ≡ times x (notify d store))
  unfolding monitor_and_load dir_monitor subscribe new_callback notify
  monitor_and_load_lem fd c factories store fresh =
      let (r, ran, loaded) = retry_loop_lem 10 factories no_commands refl in
      let (store', gone, same) = destroy-set_dispatcher c 2 (new_callback c store) fresh in
      (r, store', rw (ran, gone) refl, loaded, same)

  no_creator : {a : Command} → create read read (func []) ≡ ok a → ⊥
  unfolding func create
  no_creator {a} e =
      let nil : Factory ℕ ℕ Command = [] in
      let missing : create read read nil ≡ fault out_of_range =
        rw (create, find_missing read) refl in
      ground (arith, e, missing)

  -- While the library of commands is the only one to be loaded, the wait goes through all of its rounds.
  pub func-retries : (r : Commands Command) → IsLoaded (λ i. func []) 0 10 r → r.retry_count ≡ 10
  unfolding func create
  func-retries r loaded = elim loaded.ends [
    | inl (out, _) ↦ omega (arith, out)
    | inr (_, made) ↦ absurd (no_creator made.made_read)
  ]
