-- ===== src/Socket.antt =====
-- `ReadAll` of concrete/daemon/daemon_main.cpp, over a `recv` that is a parameter.
pub mod Segments
pub mod ReadAll
use privately_distributed_cl.Common.{
  ℕ, zero, suc, ◌-◌, ◌≤◌, ◌<◌, ◌≡◌, Bool, List, [], ◌++◌, Option, none, some, length,
}

-- What the code relies on of a connected stream socket. `recv` gives a part of what is to come and
-- the socket after it; `none` is a result of 0 or -1, at the end of the stream.
pub record Stream : Type 1 where
  pub Conn : Type 0
  pub to_come : Conn → List ℕ
  pub recv : Conn → ℕ → Option (List ℕ × Conn)
  pub recv_some :
      (c : Conn) (count : ℕ) (bytes : List ℕ) (c' : Conn)
      → recv c count ≡ some (bytes, c')
      → (0 < length bytes) × (length bytes ≤ count) × (to_come c ≡ bytes ++ to_come c')
  pub recv_none : (c : Conn) (count : ℕ) → 0 < count → recv c count ≡ none → to_come c ≡ []

-- `success` is 0 and `error` is -1. The loop of the code has no bound; this one counts its rounds.
pub data ReadStatus : Type 0 where
  success error out_of_fuel : ReadStatus

module _ (stream : Stream) where
  open stream use {Conn, recv}

  -- The bytes that went to the buffer, and the socket after them.
  pub record ReadResult : Type 0 where
    pub status : ReadStatus
    pub bytes : List ℕ
    pub conn : Conn

  unfoldable pub read_loop : ℕ → Conn → List ℕ → ℕ → ReadResult
  read_loop fuel c buf zero = record { status = success; bytes = buf; conn = c }
  read_loop zero c buf (suc count) = record { status = out_of_fuel; bytes = buf; conn = c }
  read_loop (suc fuel) c buf (suc count) = elim (recv c (suc count)) [
    | none ↦ record { status = error; bytes = buf; conn = c }
    | some (bytes, c') ↦ read_loop fuel c' (buf ++ bytes) (suc count - length bytes)
  ]

  -- Each `recv` that goes on takes a byte at least, so `count` rounds are enough.
  unfoldable pub read_all : Conn → ℕ → ReadResult
  read_all c count = read_loop count c [] count
