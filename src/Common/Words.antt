-- ===== src/Common/Words.antt =====
-- Unsigned machine words, and the conversion of an `int32_t` to `size_t`.
use Prim.Native.Nat.{ℕ, ◌+◌, ◌-◌, ◌%◌, ◌^◌, ◌<◌}
use mathlib.Core.Path.{◌≡◌}
use native.Mathlib.Omega.{arith}
use privately_distributed_cl.Common.Tests.{ltb, if◌then◌else◌}

abbrev pub uint32 : ℕ → ℕ
uint32 x = x % 2 ^ 32

-- `size_t` has 64 bits.
abbrev pub size_t : ℕ → ℕ
size_t x = x % 2 ^ 64

-- `--x` on a `size_t`, which wraps at 0.
abbrev pub size_t_pred : ℕ → ℕ
size_t_pred x = (x + (2 ^ 64 - 1)) % 2 ^ 64

-- An `int32_t` is its bit pattern, a number below 2 ^ 32; its sign bit is extended.
abbrev pub size_of_int32 : ℕ → ℕ
size_of_int32 w = if ltb w (2 ^ 31) then w else w + (2 ^ 64 - 2 ^ 32)

pub size_of_int32_nonneg : (w : ℕ) → w < 2 ^ 31 → size_of_int32 w ≡ w
size_of_int32_nonneg w h = ground arith
