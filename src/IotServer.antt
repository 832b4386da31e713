-- ===== src/IotServer.antt =====
-- concrete/atlas/iotserver_simple.cpp: the server of one IoT, with its storage.
pub mod Exchange
use privately_distributed_cl.Common.{
  ℕ, zero, suc, ◌+◌, ◌*◌, Bool, true, false, List, [], ◌∷◌, ◌++◌, ◌==◌, if◌then◌else◌,
}
use privately_distributed_cl.Common.Memory.{Memory, read_bytes, write_bytes}
use privately_distributed_cl.Atlas.{AtlasHeader, HeaderLayout, header_size}
use privately_distributed_cl.Socket.{Stream, success, error, out_of_fuel, ReadResult}
use privately_distributed_cl.Socket as Recv

-- `calloc(512 * 1024 * 1024, 1)`.
abbrev pub storage_size : ℕ
storage_size = 512 * 1024 * 1024

module _ (stream : Stream) (layout : HeaderLayout) where
  -- The storage, the connection, what was sent on it, and the count of messages for the log. The storage
  -- has no end here; behind `storage_size` bytes the code is out of its block.
  pub record Server : Type 0 where
    pub storage : Memory
    pub conn : stream.Conn
    pub sent : List ℕ
    pub counter : ℕ

  -- `ReadAll` of this file, which is that of the daemon.
  abbrev pub read_all : stream.Conn → ℕ → ReadResult stream
  read_all = Recv.read_all stream

  -- `main` up to `accept`.
  unfoldable pub start : stream.Conn → Server
  start c = record { storage = λ _. 0; conn = c; sent = []; counter = 0 }

  -- The body of the loop from the log line on, with the header that was read. In case 1 a failing
  -- `ReadAll` has written what came, and `break` leaves the switch only.
  pub handle : AtlasHeader → Server → Server
  handle h s =
      let s' = record s { counter = s.counter + 1 } in
      let r = read_all s.conn h.data_len in
      let stored = record s' {
        storage = write_bytes s.storage h.iot_offset r.bytes;
        conn = r.conn;
      } in
      if h.type == 0
      then record s' {
        sent = s.sent ++ (layout.encode h ++ read_bytes s.storage h.iot_offset h.data_len);
      }
      else if h.type == 1
      then elim r.status [
        | success ↦ record stored { sent = s.sent ++ layout.encode h }
        | _ ↦ stored
      ]
      else s'

  -- One round of `while (1)`; `false` is the `break` on a header that does not come.
  pub serve_one : Server → Bool × Server
  serve_one s =
      let r = read_all s.conn header_size in
      elim r.status [
        | success ↦ (true, handle (layout.decode r.bytes) (record s { conn = r.conn }))
        | _ ↦ (false, record s { conn = r.conn })
      ]

  -- At most `rounds` rounds of the loop.
  pub serve : ℕ → Server → Server
  serve zero s = s
  serve (suc rounds) s =
      let (goes_on, s') = serve_one s in elim goes_on [ true ↦ serve rounds s' | false ↦ s' ]
