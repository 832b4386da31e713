-- ===== src/System/Start.antt =====
-- The system at its start, as a consistent state.
use privately_distributed_cl.Common.{
  ℕ, ◌+◌, ◌^◌, ◌<◌, ◌≡◌, refl, ap, arith, List, [], ◌∷◌, map, length, length-map, All,
}
use privately_distributed_cl.Common.Memory.{Memory}
use privately_distributed_cl.Common.Dict.{find_missing, nat_key}
use privately_distributed_cl.Atlas.{HeaderLayout}
use privately_distributed_cl.Slicer.{Slicer}
use privately_distributed_cl.IotServer.{start as start_server}
use privately_distributed_cl.Nbd.{Request}
use privately_distributed_cl.Common.Sums.{sum_by}
use privately_distributed_cl.Splicer.{new_splicer}
use privately_distributed_cl.Splicer.Registry.{IsSound, count_in}
use privately_distributed_cl.Sender.{RequestSender}
use privately_distributed_cl.System.{Network, Iot, link_of, start, State, Run}
use privately_distributed_cl.System.Wires.{Wire, messages, answers}
use privately_distributed_cl.System.Loads.{Weights, Wires, carried, amount}
use privately_distributed_cl.System.Invariant.{Consistent, fd_of, of_request, work, work_of}
use privately_distributed_cl.System.Runs.{Run-Consistent}

module _ (net : Network) (layout : HeaderLayout) where
  open net.stream use {to_come}

  -- Nothing is on a connection.
  abbrev pub IsQuiet : Iot net layout → Type 0
  IsQuiet i = (to_come i.server_end ≡ []) × (to_come i.daemon_end ≡ [])

  quiet-Wire : (i : Iot net layout) → IsQuiet i → Wire net layout (link_of net layout i)
  unfolding messages answers start_server
  quiet-Wire i q = record {
    out = [];
    back = [];
    out_there = q.0;
    back_there = q.1;
    out_IsProper = tt;
    back_IsProper = tt;
  }

  quiet-Wires :
      (iots : List (Iot net layout))
      → All IsQuiet iots
      → (ws : Wires net layout (map (link_of net layout) iots)) × ((p : Weights)
          → carried net layout p (map (link_of net layout) iots) ws ≡ 0)
  unfolding quiet-Wire
  quiet-Wires [] q = (tt, λ p. refl)
  quiet-Wires (i ∷ iots) q =
      let (ws, none_there) = quiet-Wires iots q.1 in
      ((quiet-Wire i q.0, ws), λ p. omega (arith, none_there p))

  fds-links :
      (iots : List (Iot net layout))
      → map (fd_of net layout) (map (link_of net layout) iots)
        ≡ map (λ (i : Iot net layout). i.fd) iots
  fds-links [] = refl
  fds-links (i ∷ iots) = ap (◌∷◌ i.fd) (fds-links iots)

  module _ (iots : List (Iot net layout)) (sender : RequestSender) (mem : Memory) (counter : ℕ)
      (some_iot : 0 < length iots) (few : length iots < 2 ^ 64) (quiet : All IsQuiet iots) where
    start-IsSound : IsSound (start net layout iots sender mem counter).manager.raid
    unfolding start new_splicer
    start-IsSound = record {
      some_iot = omega (arith, some_iot, length-map iots (λ (i : Iot net layout). i.fd));
      few = omega (arith, few, length-map iots (λ (i : Iot net layout). i.fd));
      single = tt;
      small = λ uid. omega (arith, ap count_in (find_missing {V = Slicer} uid));
      whole = λ uid slicer found none_left. let missing = find_missing {V = Slicer} uid in cc;
    }

    pub start-Consistent :
        (c : Consistent net layout (start net layout iots sender mem counter)) × ((p : Weights)
          → amount net layout p (start net layout iots sender mem counter) c.wires ≡ 0)
    unfolding start new_splicer
    start-Consistent =
        let (ws, none_there) = quiet-Wires iots quiet in
        (
          record {
            wires = ws;
            sound = start-IsSound;
            places = fds-links iots;
            counts = λ uid.
                omega
                  (arith, none_there (of_request uid), ap count_in (find_missing {V = Slicer} uid));
            transfers = tt;
            placed = tt;
          },
          λ p. omega (arith, none_there p),
        )

    -- A run from the start.
    pub Run-start :
        {t : State net layout} {n : ℕ} {qs : List Request}
        → Run net layout (start net layout iots sender mem counter) n qs t
        → (c : Consistent net layout t) × (n + amount net layout work t c.wires ≡ sum_by work_of qs)
    Run-start run =
        let (c0, nothing) = start-Consistent in
        let (c, total) = Run-Consistent net layout c0 run in (c, omega (arith, nothing work, total))
