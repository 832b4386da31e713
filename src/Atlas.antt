-- ===== src/Atlas.antt =====
-- concrete/atlas/atlas_header.h: the header of every message between the daemon and an IoT.
-- The program sends the struct's own bytes; how the compiler lays it out is the parameter
-- `HeaderLayout`.
pub mod LittleEndian
use privately_distributed_cl.Common.{ℕ, ◌^◌, ◌<◌, ◌≡◌, List, length}

pub record AtlasHeader : Type 0 where
  pub request_uid : ℕ
  pub fragment_idx : ℕ
  pub alarm_uid : ℕ
  pub iot_offset : ℕ
  pub type : ℕ
  pub data_len : ℕ

-- `DataLength()`.
pub data_length : AtlasHeader → ℕ
data_length h = h.data_len

-- Every field is a `uint32_t`.
pub record IsWords (h : AtlasHeader) : Type 0 where
  pub request_uid : h.request_uid < 2 ^ 32
  pub fragment_idx : h.fragment_idx < 2 ^ 32
  pub alarm_uid : h.alarm_uid < 2 ^ 32
  pub iot_offset : h.iot_offset < 2 ^ 32
  pub type : h.type < 2 ^ 32
  pub data_len : h.data_len < 2 ^ 32

-- `sizeof(AtlasHeader)`: six fields of four bytes.
abbrev pub header_size : ℕ
header_size = 24

-- The object representation of the struct, which both ends of a connection share.
pub record HeaderLayout : Type 0 where
  pub encode : AtlasHeader → List ℕ
  pub decode : List ℕ → AtlasHeader
  pub length-encode : (h : AtlasHeader) → length (encode h) ≡ header_size
  pub decode-encode : (h : AtlasHeader) → IsWords h → decode (encode h) ≡ h
