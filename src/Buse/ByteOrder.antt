-- ===== src/Buse/ByteOrder.antt =====
-- `ntohll` turns eight bytes round.
use privately_distributed_cl.Common.{ℕ, ◌+◌, ◌*◌, ◌/◌, ◌%◌, ◌^◌, ◌<◌, ◌≡◌, arith}
use privately_distributed_cl.Common.Words.{uint32}
use privately_distributed_cl.Buse.{ntohl, ntohll}

-- Four bytes as a number, the first one the lowest.
abbrev pub word : ℕ → ℕ → ℕ → ℕ → ℕ
word a b c d = a + b * 256 + c * 65536 + d * 16777216

ntohl-word :
    (a b c d : ℕ) → a < 256 → b < 256 → c < 256 → d < 256 → ntohl (word a b c d) ≡ word d c b a
unfolding ntohl
ntohl-word a b c d ha hb hc hd = omega arith

-- A number of 64 bits that is in memory with its highest byte first is read by a little-endian machine
-- as the bytes the other way round; `ntohll` gives the number.
pub ntohll_lem :
    (a b c d e f g h : ℕ)
    → a < 256
    → b < 256
    → c < 256
    → d < 256
    → e < 256
    → f < 256
    → g < 256
    → h < 256
    → ntohll (word a b c d + word e f g h * 2 ^ 32) ≡ word h g f e + word d c b a * 2 ^ 32
unfolding ntohll
ntohll_lem a b c d e f g h ha hb hc hd he hf hg hh =
    let low : (word a b c d + word e f g h * 2 ^ 32) % 2 ^ 32 ≡ word a b c d = omega arith in
    let high : uint32 ((word a b c d + word e f g h * 2 ^ 32) / 2 ^ 32) ≡ word e f g h =
      omega arith in
    rw (low, high, ntohl-word a b c d ha hb hc hd, ntohl-word e f g h he hf hg hh) (omega arith)
