-- ===== src/Disk.antt =====
-- What the requests mean, apart from the protocol: the storage of each IoT, and the whole device
-- over all of them.
pub mod Write
pub mod Read
use privately_distributed_cl.Common.{
  ℕ, zero, suc, ◌+◌, ◌*◌, ◌/◌, ◌%◌, ◌≡◌, ◌⊎◌, List, [], ◌∷◌, ◌++◌, ◌==◌, if◌then◌else◌, length,
  get_or,
}
use privately_distributed_cl.Common.Memory.{Memory, read_bytes, write_bytes}
use privately_distributed_cl.Atlas.{HeaderLayout, IsWords}
use privately_distributed_cl.Nbd.{code, read, write}
use privately_distributed_cl.Slicer.{DeviceRequest, fragment_size}

-- What a request does to the storage of its IoT.
unfoldable pub perform : Memory → DeviceRequest → Memory → Memory
perform mem d storage =
    if d.request.type == code read
    then storage
    else if d.request.type == code write
    then write_bytes storage d.request.iot_offset (read_bytes mem d.m_data d.request.data_len)
    else storage

-- What the IoT answers.
unfoldable pub reply : HeaderLayout → DeviceRequest → Memory → List ℕ
reply layout d storage =
    if d.request.type == code read
    then layout.encode d.request ++ read_bytes storage d.request.iot_offset d.request.data_len
    else if d.request.type == code write
    then layout.encode d.request
    else []

-- The requests for one IoT, in order.
unfoldable pub perform_all : Memory → ℕ → List DeviceRequest → Memory → Memory
perform_all mem fd [] storage = storage
perform_all mem fd (d ∷ ds) storage =
    perform_all mem fd ds (if d.device_fd == fd then perform mem d storage else storage)

unfoldable pub replies : HeaderLayout → Memory → ℕ → List DeviceRequest → Memory → List ℕ
replies layout mem fd [] storage = []
replies layout mem fd (d ∷ ds) storage =
    (if d.device_fd == fd then reply layout d storage else [])
    ++ replies layout mem fd ds (if d.device_fd == fd then perform mem d storage else storage)

-- A request that the daemon makes: a read or a write, with fields that fit.
pub record IsProper (d : DeviceRequest) : Type 0 where
  pub words : IsWords d.request
  pub kind : (d.request.type ≡ code read) ⊎ (d.request.type ≡ code write)

-- Where byte `p` of the whole device is, over some sockets.
abbrev pub iot_of : List ℕ → ℕ → ℕ
iot_of fds p = get_or fds (p / fragment_size % length fds) 0

abbrev pub offset_of : List ℕ → ℕ → ℕ
offset_of fds p = p / fragment_size / length fds * fragment_size + p % fragment_size

-- The whole device as one memory, over the storage of each IoT.
abbrev pub disk : List ℕ → (ℕ → Memory) → Memory
disk fds storages p = storages (iot_of fds p) (offset_of fds p)
