-- ===== src/Nbd.antt =====
-- concrete/nbd_communication/nbd_communication.hpp and concrete/nbd_buse/buse.h: the request that
-- the daemon takes from the kernel.
pub mod Communication
use privately_distributed_cl.Common.{ℕ}

-- `enum Command`, which has the values of `enum buse_command`. A request's type is the number that
-- the kernel sent, cast to the enum, so it may be none of the five.
pub data Command : Type 0 where
  read write disc flush trim : Command

abbrev pub code : Command → ℕ
code read = 0
code write = 1
code disc = 2
code flush = 3
code trim = 4

pub record Request : Type 0 where
  pub from : ℕ
  pub m_data : ℕ
  pub len : ℕ
  pub type : ℕ
