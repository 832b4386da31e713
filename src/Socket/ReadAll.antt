-- ===== src/Socket/ReadAll.antt =====
-- `ReadAll` gives exactly the bytes asked for, however the stream is cut.
use privately_distributed_cl.Common.{
  ℕ, zero, suc, ◌-◌, ◌≤◌, ◌≡◌, refl, sym, ap, ◌∙◌, List, [], ◌∷◌, ◌++◌, arith, length, take, drop,
  take-append_left, drop-append_left, length-append, leb, if◌then◌else◌, Option-cases, inl, inr,
}
use mathlib.Core.List.{append_assoc, append-nil}
use privately_distributed_cl.Socket.{
  Stream, ReadStatus, success, error, ReadResult, read_loop, read_all,
}

take-append-of :
    {A : Type 0} (n : ℕ) (xs ys : List A)
    → length xs ≤ n
    → take n (xs ++ ys) ≡ xs ++ take (n - length xs) ys
take-append-of n [] ys h = ap (λ k. take k ys) (omega arith)
take-append-of zero (x ∷ xs) ys h = absurd (omega arith)
take-append-of (suc n) (x ∷ xs) ys h =
    ap (◌∷◌ x) (take-append-of n xs ys (omega arith) ∙ ap (λ k. xs ++ take k ys) (omega arith))

drop-append-of :
    {A : Type 0} (n : ℕ) (xs ys : List A)
    → length xs ≤ n
    → drop n (xs ++ ys) ≡ drop (n - length xs) ys
drop-append-of n [] ys h = ap (λ k. drop k ys) (omega arith)
drop-append-of zero (x ∷ xs) ys h = absurd (omega arith)
drop-append-of (suc n) (x ∷ xs) ys h =
    drop-append-of n xs ys (omega arith) ∙ ap (λ k. drop k ys) (omega arith)

-- What the status says: whether there were bytes enough.
abbrev pub status_of : ℕ → List ℕ → ReadStatus
status_of count bytes = if leb count (length bytes) then success else error

status_of-append :
    {n : ℕ} (xs ys : List ℕ) → length xs ≤ n → status_of (n - length xs) ys ≡ status_of n (xs ++ ys)
status_of-append {n} xs ys h = ground (arith, length-append xs ys)

status_of_enough : (xs ys : List ℕ) → status_of (length xs) (xs ++ ys) ≡ success
status_of_enough xs ys = ground (arith, length-append xs ys)

module _ (stream : Stream) where
  open stream use {Conn, to_come, recv, recv_some, recv_none}

  -- The loop's result: the first `count` bytes behind those in the buffer, and the stream past them.
  abbrev Reads : Conn → List ℕ → ℕ → ReadResult stream → Type 0
  Reads c buf count r =
      (r.status ≡ status_of count (to_come c))
      × (r.bytes ≡ buf ++ take count (to_come c))
      × (to_come r.conn ≡ drop count (to_come c))

  read_loop-Reads :
      (fuel : ℕ) (c : Conn) (buf : List ℕ) (count : ℕ)
      → count ≤ fuel
      → Reads c buf count (read_loop stream fuel c buf count)
  unfolding read_loop
  read_loop-Reads fuel c buf zero h = (ground arith, sym (append-nil buf), refl)
  read_loop-Reads zero c buf (suc count) h = absurd (omega arith)
  read_loop-Reads (suc fuel) c buf (suc count) h = elim (Option-cases (recv c (suc count))) [
    | inl e ↦
        rw (e, read_loop)
          (rw (recv_none c (suc count) (omega arith) e) (ground arith, sym (append-nil buf), refl))
    | inr ((bytes, c'), e) ↦
        let (lo, hi, cut) = recv_some c (suc count) bytes c' e in
        let (status, read, rest) =
          read_loop-Reads fuel c' (buf ++ bytes) (suc count - length bytes) (omega arith) in
        rw (e, read_loop)
          (
            status ∙ status_of-append bytes (to_come c') hi ∙ ap (status_of (suc count)) (sym cut),
            read
                ∙ append_assoc buf bytes (take (suc count - length bytes) (to_come c'))
                ∙ ap (λ t. buf ++ t) (sym (take-append-of (suc count) bytes (to_come c') hi))
                ∙ ap (λ t. buf ++ take (suc count) t) (sym cut),
            rest
                ∙ sym (drop-append-of (suc count) bytes (to_come c') hi)
                ∙ ap (drop (suc count)) (sym cut),
          )
  ]

  -- `ReadAll` ends, whatever the sizes that `recv` returns. It reports success exactly when the
  -- stream holds `count` bytes; the buffer gets the first `count` bytes of the stream, or all that
  -- there are; and what follows them is left for the next read.
  pub read_all_lem :
      (c : Conn) (count : ℕ)
      → ((read_all stream c count).status ≡ status_of count (to_come c))
        × ((read_all stream c count).bytes ≡ take count (to_come c))
        × (to_come (read_all stream c count).conn ≡ drop count (to_come c))
  unfolding read_all
  read_all_lem c count = read_loop-Reads count c [] count (omega arith)

  -- With the bytes in front of the stream, `ReadAll` gives them and succeeds.
  pub read_all-append :
      (c : Conn) (bytes rest : List ℕ)
      → to_come c ≡ bytes ++ rest
      → ((read_all stream c (length bytes)).status ≡ success)
        × ((read_all stream c (length bytes)).bytes ≡ bytes)
        × (to_come (read_all stream c (length bytes)).conn ≡ rest)
  read_all-append c bytes rest e =
      let (status, read, left) = read_all_lem c (length bytes) in
      (
        status ∙ ap (status_of (length bytes)) e ∙ status_of_enough bytes rest,
        read ∙ ap (take (length bytes)) e ∙ take-append_left (length bytes) bytes rest refl,
        left ∙ ap (drop (length bytes)) e ∙ drop-append_left (length bytes) bytes rest refl,
      )
