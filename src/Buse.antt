-- ===== src/Buse.antt =====
-- concrete/nbd_buse/buse.c: the requests of the kernel read from the socket of the block device, and the
-- answers written to it. The socket is a parameter, and so is the layout of the kernel's structs.
pub mod ByteOrder
pub mod Transfer
pub mod Requests
pub mod Open
use privately_distributed_cl.Common.{
  ℕ, zero, suc, ◌+◌, ◌-◌, ◌*◌, ◌/◌, ◌%◌, ◌^◌, ◌≤◌, ◌<◌, ◌≡◌, Bool, true, false, Option, none, some,
  List, [], ◌∷◌, ◌++◌, length, take, drop, ◌==◌, if◌then◌else◌, tabulate,
}
use privately_distributed_cl.Common.Words.{uint32, size_of_int32}
use privately_distributed_cl.Nbd.{code, read, write}

-- `ntohl` on a little-endian machine turns the four bytes round.
unfoldable pub ntohl : ℕ → ℕ
ntohl a = a % 256 * 16777216 + a / 256 % 256 * 65536 + a / 65536 % 256 * 256 + a / 16777216 % 256

-- `ntohll`, which is `htonll` too.
unfoldable pub ntohll : ℕ → ℕ
ntohll a = let lo = ntohl (a % 2 ^ 32) in let hi = ntohl (uint32 (a / 2 ^ 32)) in lo * 2 ^ 32 + hi

-- What the code relies on of a socket: `read` and `write`, of which `none` is -1. At the end of the
-- stream `read` gives no byte.
pub record Device : Type 1 where
  pub Conn : Type 0
  pub to_come : Conn → List ℕ
  pub written : Conn → List ℕ
  pub read_some : Conn → ℕ → Option (List ℕ × Conn)
  pub write_some : Conn → List ℕ → Option (ℕ × Conn)
  pub read_takes :
      (c : Conn) (count : ℕ) (bytes : List ℕ) (c' : Conn)
      → read_some c count ≡ some (bytes, c')
      → (length bytes ≤ count) × (to_come c ≡ bytes ++ to_come c') × (written c' ≡ written c)
  pub read_goes_on :
      (c : Conn) (count : ℕ) (bytes : List ℕ) (c' : Conn)
      → read_some c count ≡ some (bytes, c')
      → 0 < count
      → 0 < length (to_come c)
      → 0 < length bytes
  pub write_puts :
      (c : Conn) (bytes : List ℕ) (n : ℕ) (c' : Conn)
      → write_some c bytes ≡ some (n, c')
      → (n ≤ length bytes) × (written c' ≡ written c ++ take n bytes) × (to_come c' ≡ to_come c)
  pub write_goes_on :
      (c : Conn) (bytes : List ℕ) (n : ℕ) (c' : Conn)
      → write_some c bytes ≡ some (n, c')
      → 0 < length bytes
      → 0 < n

-- How a loop ends: with 0, with -1, or not within the rounds that it was given.
pub data Status : Type 0 where
  success error spinning : Status

-- `struct nbd_request` with its numbers as they are in memory, without the magic number.
pub record NbdRequest : Type 0 where
  pub type : ℕ
  pub handle : List ℕ
  pub from : ℕ
  pub len : ℕ

-- The layout of the structs of the kernel: a request is taken from its bytes, and a reply, without an
-- error, is put into bytes with the handle of the request.
pub record NbdLayout : Type 0 where
  pub request_size : ℕ
  pub decode : List ℕ → NbdRequest
  pub reply_to : List ℕ → List ℕ

-- `daemon_request_t`: the request with the bytes behind it, and the handle that the reply has.
pub record DaemonRequest : Type 0 where
  pub type : ℕ
  pub len : ℕ
  pub from : ℕ
  pub handle : List ℕ
  pub data_bytes : List ℕ

-- What `NbdGetRequest` gives: a request, a null pointer, or nothing yet.
pub data Got : Type 0 where
  given : DaemonRequest → Got
  null spins : Got

module _ (device : Device) where
  open device use {Conn, read_some, write_some}

  -- The loop of `ReadData` and `ReadRequest`: a read of no byte does not end it.
  unfoldable pub read_loop : ℕ → Conn → List ℕ → ℕ → Status × List ℕ × Conn
  read_loop fuel c buf zero = (success, buf, c)
  read_loop zero c buf (suc left) = (spinning, buf, c)
  read_loop (suc fuel) c buf (suc left) = elim (read_some c (suc left)) [
    | none ↦ (error, buf, c)
    | some (bytes, c') ↦ read_loop fuel c' (buf ++ bytes) (suc left - length bytes)
  ]

  -- The loop of `WriteData`.
  pub write_loop : ℕ → Conn → List ℕ → Status × Conn
  write_loop fuel c [] = (success, c)
  write_loop zero c (b ∷ bs) = (spinning, c)
  write_loop (suc fuel) c (b ∷ bs) = elim (write_some c (b ∷ bs)) [
    | none ↦ (error, c)
    | some (n, c') ↦ write_loop fuel c' (drop n (b ∷ bs))
  ]

  -- The part of `NbdGetRequest` behind `ReadRequest`, with the bytes of the request. `malloc` gives
  -- memory; `fresh` is what it holds.
  pub take_request : NbdLayout → ℕ → (ℕ → List ℕ) → List ℕ → Conn → Got × Conn
  take_request layout fuel fresh bytes c =
      let request = layout.decode bytes in
      let taken : List ℕ → DaemonRequest = λ data_bytes. record {
        type = ntohl request.type;
        len = ntohl request.len;
        from = ntohll request.from;
        handle = request.handle;
        data_bytes = data_bytes;
      } in
      let (status, data_bytes, c') = read_loop fuel c [] (size_of_int32 (ntohl request.len)) in
      if ntohl request.type == code write
      then elim status [
        | success ↦ (given (taken data_bytes), c')
        | error ↦ (null, c')
        | spinning ↦ (spins, c')
      ]
      else (given (taken (fresh (ntohl request.len))), c)

  -- `ReadRequest`.
  abbrev pub read_request : NbdLayout → ℕ → Conn → Status × List ℕ × Conn
  read_request layout fuel c = read_loop fuel c [] layout.request_size

  -- `NbdGetRequest`, with the rounds for the loops.
  pub nbd_get_request : NbdLayout → ℕ → (ℕ → List ℕ) → Conn → Got × Conn
  nbd_get_request layout fuel fresh c =
      let (status, bytes, c') = read_request layout fuel c in
      elim status [
        | success ↦ take_request layout fuel fresh bytes c'
        | error ↦ (null, c')
        | spinning ↦ (spins, c')
      ]

  -- `WriteData`: the bytes of a block, and of the memory behind it if the length, as an `int32_t` that
  -- becomes a `size_t`, is greater.
  pub write_data : ℕ → List ℕ → (ℕ → ℕ) → ℕ → Conn → Status × Conn
  write_data fuel block behind data_len c =
      let left_to_write = size_of_int32 (uint32 data_len) in
      write_loop fuel c
        (take left_to_write block ++ tabulate (left_to_write - length block) 0 behind)

  -- `NbdRequestDone`: the reply, and the data behind it if the request is a read. `behind` is the memory
  -- after the struct.
  pub nbd_request_done : NbdLayout → ℕ → (ℕ → ℕ) → DaemonRequest → Conn → Status × Conn
  nbd_request_done layout fuel behind request c =
      let reply = layout.reply_to request.handle in
      let reply_len =
        if request.type == code read then length reply + request.len else length reply in
      write_data fuel (reply ++ request.data_bytes) behind reply_len c
