-- ===== src/Socket/Segments.antt =====
-- A concrete stream: the segments that arrive, one `recv` giving bytes of the first one only.
use privately_distributed_cl.Common.{
  ℕ, zero, suc, ◌≤◌, ◌<◌, ◌≡◌, refl, ap, List, [], ◌∷◌, ◌++◌, Option, none, some, arith, length,
  take, drop, length-take, sym, ◌∙◌,
}
use mathlib.Core.List.{append_assoc, append-nil}
use privately_distributed_cl.Socket.{Stream}

-- A segment is a first byte and the others.
abbrev pub Segments : Type 0
Segments = List (ℕ × List ℕ)

unfoldable pub join : Segments → List ℕ
join [] = []
join ((b, bs) ∷ rest) = b ∷ (bs ++ join rest)

push_back : List ℕ → Segments → Segments
push_back [] rest = rest
push_back (b ∷ bs) rest = (b, bs) ∷ rest

unfoldable pub recv_segment : Segments → ℕ → Option (List ℕ × Segments)
unfolding push_back
recv_segment [] count = none
recv_segment ((b, bs) ∷ rest) zero = none
recv_segment ((b, bs) ∷ rest) (suc count) = some (b ∷ take count bs, push_back (drop count bs) rest)

join-push_back : (bs : List ℕ) (rest : Segments) → join (push_back bs rest) ≡ bs ++ join rest
unfolding join push_back
join-push_back [] rest = refl
join-push_back (b ∷ bs) rest = refl

take-drop-append : (n : ℕ) (xs ys : List ℕ) → xs ++ ys ≡ take n xs ++ (drop n xs ++ ys)
take-drop-append zero xs ys = refl
take-drop-append (suc n) [] ys = refl
take-drop-append (suc n) (x ∷ xs) ys = ap (◌∷◌ x) (take-drop-append n xs ys)

pub recv_segment-some :
    (c : Segments) (count : ℕ) (bytes : List ℕ) (c' : Segments)
    → recv_segment c count ≡ some (bytes, c')
    → (0 < length bytes) × (length bytes ≤ count) × (join c ≡ bytes ++ join c')
unfolding recv_segment join
recv_segment-some [] count bytes c' e = cc
recv_segment-some ((b, bs) ∷ rest) zero bytes c' e = cc
recv_segment-some ((b, bs) ∷ rest) (suc count) bytes c' e =
    let p : bytes ≡ b ∷ take count bs = cc in
    let q : c' ≡ push_back (drop count bs) rest = cc in
    rw (p, q, join-push_back)
      (
        omega arith,
        omega (arith, length-take count bs),
        ap (◌∷◌ b) (take-drop-append count bs (join rest)),
      )

pub recv_segment-none :
    (c : Segments) (count : ℕ) → 0 < count → recv_segment c count ≡ none → join c ≡ []
unfolding recv_segment join
recv_segment-none [] count h e = refl
recv_segment-none ((b, bs) ∷ rest) zero h e = absurd (omega arith)
recv_segment-none ((b, bs) ∷ rest) (suc count) h e = cc

abbrev pub segments : Stream
segments = record {
  Conn = Segments;
  to_come = join;
  recv = recv_segment;
  recv_some = recv_segment-some;
  recv_none = recv_segment-none;
}

-- What is sent on such a stream comes as one more segment.
unfoldable pub deliver_segment : Segments → List ℕ → Segments
unfolding push_back
deliver_segment [] bytes = push_back bytes []
deliver_segment (s ∷ rest) bytes = s ∷ deliver_segment rest bytes

pub join-deliver_segment :
    (c : Segments) (bytes : List ℕ) → join (deliver_segment c bytes) ≡ join c ++ bytes
unfolding join deliver_segment
join-deliver_segment [] bytes = join-push_back bytes [] ∙ append-nil bytes
join-deliver_segment ((b, bs) ∷ rest) bytes =
    ap (λ t. b ∷ (bs ++ t)) (join-deliver_segment rest bytes)
    ∙ ap (◌∷◌ b) (sym (append_assoc bs (join rest) bytes))
