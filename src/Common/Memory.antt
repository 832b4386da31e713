-- ===== src/Common/Memory.antt =====
-- Byte-addressed memory, `memcpy` out of a buffer and reads into a list.
use Prim.Native.Nat.{ℕ, zero, suc, ◌+◌, ◌-◌, ◌<◌, ◌≤◌}
use mathlib.Core.Path.{◌≡◌, refl, ap, ap₂, ◌∙◌}
use mathlib.Core.Logic.{◌⊎◌}
use mathlib.Core.List.{List, [], ◌∷◌}
use mathlib.Core.Bool.{◌&&◌}
use native.Mathlib.Omega.{arith}
use privately_distributed_cl.Common.Tests.{ltb, leb, if◌then◌else◌}
use privately_distributed_cl.Common.Lists.{length, get_or, tabulate, length-tabulate}

-- The byte at each address.
abbrev pub Memory : Type 0
Memory = ℕ → ℕ

-- The bytes `[a, a + n)`.
pub read_bytes : Memory → ℕ → ℕ → List ℕ
read_bytes m a n = tabulate n a m

-- `memcpy(dst, bytes, length bytes)`.
unfoldable pub write_bytes : Memory → ℕ → List ℕ → Memory
write_bytes m dst bytes a =
    if leb dst a && ltb a (dst + length bytes) then get_or bytes (a - dst) 0 else m a

pub write_bytes_inside :
    (m : Memory) (dst : ℕ) (bytes : List ℕ) (a : ℕ)
    → dst ≤ a
    → a < dst + length bytes
    → write_bytes m dst bytes a ≡ get_or bytes (a - dst) 0
unfolding write_bytes
write_bytes_inside m dst bytes a h k = ground arith

pub write_bytes_outside :
    (m : Memory) (dst : ℕ) (bytes : List ℕ) (a : ℕ)
    → (a < dst) ⊎ (dst + length bytes ≤ a)
    → write_bytes m dst bytes a ≡ m a
unfolding write_bytes
write_bytes_outside m dst bytes a h = ground arith

pub tabulate-get_or :
    (xs : List ℕ) (f : ℕ → ℕ) (i : ℕ)
    → ((k : ℕ) → k < length xs → f (i + k) ≡ get_or xs k 0)
    → tabulate (length xs) i f ≡ xs
tabulate-get_or [] f i h = refl
tabulate-get_or (x ∷ xs) f i h =
    ap₂ ◌∷◌ (ap f (omega arith) ∙ h 0 (omega arith))
      (tabulate-get_or xs f (suc i) (λ k lt. ap f (omega arith) ∙ h (suc k) (omega arith)))

-- What is written is read back.
pub read_bytes-write_bytes :
    (m : Memory) (dst : ℕ) (bytes : List ℕ)
    → read_bytes (write_bytes m dst bytes) dst (length bytes) ≡ bytes
unfolding read_bytes
read_bytes-write_bytes m dst bytes = tabulate-get_or bytes (write_bytes m dst bytes) dst λ k lt.
    write_bytes_inside m dst bytes (dst + k) (omega arith) (omega arith)
    ∙ ap (λ t. get_or bytes t 0) (omega arith)

pub length-read_bytes : (m : Memory) (a n : ℕ) → length (read_bytes m a n) ≡ n
unfolding read_bytes
length-read_bytes m a n = length-tabulate n a m

get_or-tabulate : (n i k : ℕ) (f : ℕ → ℕ) → k < n → get_or (tabulate n i f) k 0 ≡ f (i + k)
get_or-tabulate zero i k f h = absurd (omega arith)
get_or-tabulate (suc n) i zero f h = ap f (omega arith)
get_or-tabulate (suc n) i (suc k) f h =
    get_or-tabulate n (suc i) k f (omega arith) ∙ ap f (omega arith)

pub get_or-read_bytes : (m : Memory) (a n k : ℕ) → k < n → get_or (read_bytes m a n) k 0 ≡ m (a + k)
unfolding read_bytes
get_or-read_bytes m a n k h = get_or-tabulate n a k m h

-- Reads agree where the memories do.
pub read_bytes-congr :
    (m m' : Memory) (a a' n : ℕ)
    → ((k : ℕ) → k < n → m (a + k) ≡ m' (a' + k))
    → read_bytes m a n ≡ read_bytes m' a' n
unfolding read_bytes
read_bytes-congr m m' a a' zero h = refl
read_bytes-congr m m' a a' (suc n) h =
    ap₂ ◌∷◌ (ap m (omega arith) ∙ h 0 (omega arith) ∙ ap m' (omega arith)) (
      read_bytes-congr m m' (suc a) (suc a') n
        λ k lt. ap m (omega arith) ∙ h (suc k) (omega arith) ∙ ap m' (omega arith))
