-- ===== src/Atlas/LittleEndian.antt =====
-- The layout of the header on a little-endian machine: a concrete `HeaderLayout`.
use privately_distributed_cl.Common.{
  ℕ, zero, suc, ◌+◌, ◌*◌, ◌/◌, ◌%◌, ◌^◌, ◌<◌, ◌≡◌, refl, List, [], ◌∷◌, arith, length,
}
use privately_distributed_cl.Atlas.{AtlasHeader, IsWords, HeaderLayout, header_size}

word_bytes : ℕ → List ℕ → List ℕ
word_bytes w rest = (w % 256) ∷ (w / 256 % 256) ∷ (w / 65536 % 256) ∷ (w / 16777216 % 256) ∷ rest

word_at : ℕ → ℕ → ℕ → ℕ → ℕ
word_at a b c d = a + 256 * b + 65536 * c + 16777216 * d

word_at-bytes :
    (w : ℕ)
    → w < 2 ^ 32
    → word_at (w % 256) (w / 256 % 256) (w / 65536 % 256) (w / 16777216 % 256) ≡ w
unfolding word_at
word_at-bytes w h = omega arith

pub encode : AtlasHeader → List ℕ
unfolding word_bytes
encode h = word_bytes h.request_uid (
    word_bytes h.fragment_idx (
      word_bytes h.alarm_uid
        (word_bytes h.iot_offset (word_bytes h.type (word_bytes h.data_len [])))))

-- The words of a list of bytes; what is missing is 0.
words : ℕ → List ℕ → List ℕ
unfolding word_at
words zero bs = []
words (suc n) (a ∷ b ∷ c ∷ d ∷ bs) = word_at a b c d ∷ words n bs
words (suc n) _ = []

header_of : List ℕ → AtlasHeader
header_of (a ∷ b ∷ c ∷ d ∷ e ∷ f ∷ _) = record {
  request_uid = a;
  fragment_idx = b;
  alarm_uid = c;
  iot_offset = d;
  type = e;
  data_len = f;
}
header_of _ = record {
  request_uid = 0;
  fragment_idx = 0;
  alarm_uid = 0;
  iot_offset = 0;
  type = 0;
  data_len = 0;
}

pub decode : List ℕ → AtlasHeader
unfolding words header_of
decode bs = header_of (words 6 bs)

pub length-encode : (h : AtlasHeader) → length (encode h) ≡ header_size
unfolding encode
length-encode h = refl

pub decode-encode : (h : AtlasHeader) → IsWords h → decode (encode h) ≡ h
unfolding encode decode
decode-encode h v = rw (
  word_at-bytes h.request_uid v.request_uid,
  word_at-bytes h.fragment_idx v.fragment_idx,
  word_at-bytes h.alarm_uid v.alarm_uid,
  word_at-bytes h.iot_offset v.iot_offset,
  word_at-bytes h.type v.type,
  word_at-bytes h.data_len v.data_len,
)

abbrev pub little_endian : HeaderLayout
little_endian = record {
  encode = encode;
  decode = decode;
  length-encode = length-encode;
  decode-encode = decode-encode;
}
