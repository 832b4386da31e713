-- ===== src/System/Ranges.antt =====
-- The ranges of the storage that the messages to the servers are about.
use privately_distributed_cl.Common.{
  ◌&&◌, leb, if◌then◌else◌, ltb, ℕ, ◌+◌, ◌*◌, ◌^◌, ◌≤◌, ◌≡◌, List, ◌++◌, length,
}
use privately_distributed_cl.Common.Memory.{Memory}
use privately_distributed_cl.Common.Dict.{nat_key}
use privately_distributed_cl.Atlas.{HeaderLayout}
use privately_distributed_cl.Nbd.{Request}
use privately_distributed_cl.Slicer.{DeviceRequest}
use privately_distributed_cl.Splicer.{Splicer}
use privately_distributed_cl.System.{Network, State, Link}
use privately_distributed_cl.System.Loads.{amount, Weights, Wires, carried}
use privately_distributed_cl.System.Invariant.{Consistent}
use privately_distributed_cl.Sender.Streams.{message}
use privately_distributed_cl.IotServer.{storage_size}
use privately_distributed_cl.System.Wires.{Wire, load}

-- How many fragments the storage of an IoT has.
abbrev rows : ℕ
rows = 524288

-- Whether a message is about bytes behind the storage.
abbrev beyond : DeviceRequest → ℕ
beyond d = if leb (d.request.iot_offset + d.request.data_len) storage_size then 0 else 1

-- Whether a request goes beyond the storage of so many IoTs.
abbrev too_far : ℕ → Request → ℕ
too_far n q = if ltb q.len (2 ^ 31) && leb (q.from + q.len) (n * storage_size) then 0 else 1

abbrev excess : ℕ → Weights
excess n = record {
  request = too_far n;
  unsent = beyond;
  out = λ x. beyond x.1;
  back = λ x. 0;
  reply = λ atlas buffer. 0;
}

module _ (net : Network) (layout : HeaderLayout) (n : ℕ) where
  -- Every fragment that is to be sent or on its way to a server is within the storage.
  abbrev Within : State net layout → Type 0
  Within s =
      (c : Consistent net layout s) × (amount net layout (excess n) s c.wires ≡ 0)
      × (length s.manager.raid.fds_vector ≡ n)

module _ (net : Network) (layout : HeaderLayout) where
  -- One of the wires, with no more on it than on all.
  abbrev WireOf :
      (l : Link net layout) (all : List (Link net layout)) → Wires net layout all → Type 0
  WireOf l all ws =
      (w : Wire net layout l) × ((p : Weights)
        → load net layout p.out p.back w ≤ carried net layout p all ws)

  -- A message in front of what comes, about a range within the storage.
  abbrev pub HasMessage : Link net layout → Type 0
  HasMessage l =
      (m : Memory) × (d : DeviceRequest) × (rest : List ℕ) × (d.device_fd ≡ l.fd)
      × (net.stream.to_come l.server.conn ≡ message layout m d ++ rest)
      × (d.request.iot_offset + d.request.data_len ≤ storage_size)
