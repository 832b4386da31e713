-- ===== src/Examples.antt =====
-- Data for the tests, and the theorems at concrete inputs: two IoTs on sockets 5 and 6, a write of four
-- fragments and a read of two, both at 1024.
mod Setup
mod Reads
mod RoundTrips
mod Later
mod Slices
mod Replies
mod Devices
mod Reactors
mod Systems
mod Queues
mod Pools
mod Kernel
mod Factories
mod Callbacks
use privately_distributed_cl.Common.{
  ℕ, zero, suc, ◌+◌, ◌%◌, ◌≡◌, List, [], ◌∷◌, ◌<◌, length, get_or, refl, arith,
}
use privately_distributed_cl.Common.Memory.{Memory}
use privately_distributed_cl.Nbd.{Request, code, read, write}
use privately_distributed_cl.Slicer.{Slicer}
use privately_distributed_cl.Slicer.Placement.{IsDistinct}
use privately_distributed_cl.Splicer.{Splicer}

abbrev pub two_fds : List ℕ
two_fds = 5 ∷ 6 ∷ []

abbrev pub write_request : Request
write_request = record { from = 1024; m_data = 100; len = 4096; type = 1 }

abbrev pub read_request : Request
read_request = record { from = 1024; m_data = 100; len = 2048; type = 0 }

abbrev pub write_slicer : Slicer
write_slicer = record {
  fds_vector = two_fds;
  full_request = write_request;
  count_slices = 0;
  request_uid = 0;
}

abbrev pub fresh_splicer : Splicer
fresh_splicer = record { fds_vector = two_fds; slicer_map = []; request_counter = 7 }

abbrev pub host : Memory
host a = a % 251

pub two_fds-IsDistinct : IsDistinct two_fds
two_fds-IsDistinct zero zero ha hb e = refl
two_fds-IsDistinct zero (suc zero) ha hb e = absurd (omega arith)
two_fds-IsDistinct zero (suc (suc b)) ha hb e = absurd (omega arith)
two_fds-IsDistinct (suc zero) zero ha hb e = absurd (omega arith)
two_fds-IsDistinct (suc zero) (suc zero) ha hb e = refl
two_fds-IsDistinct (suc zero) (suc (suc b)) ha hb e = absurd (omega arith)
two_fds-IsDistinct (suc (suc a)) b ha hb e = absurd (omega arith)
