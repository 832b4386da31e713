-- ===== src/Buse/Transfer.antt =====
-- The loops that read and write whole blocks.
use privately_distributed_cl.Common.{
  ℕ, zero, suc, ◌-◌, ◌≤◌, ◌<◌, ◌≡◌, ◌⊎◌, refl, sym, ap, ◌∙◌, List, [], ◌∷◌, ◌++◌, arith, length,
  take, drop, length-append, length-drop, Option-cases, inl, inr, none, some,
}
use mathlib.Core.List.{append-nil, append_assoc}
use privately_distributed_cl.Buse.{Device, success, error, spinning, read_loop, write_loop}

take_over :
    (n : ℕ) (xs ys : List ℕ) → length xs ≤ n → take n (xs ++ ys) ≡ xs ++ take (n - length xs) ys
take_over n [] ys le = ap (λ k. take k ys) (omega arith)
take_over zero (x ∷ xs) ys le = absurd (omega arith)
take_over (suc n) (x ∷ xs) ys le =
    let less : suc n - suc (length xs) ≡ n - length xs = omega arith in
    rw less (ap (◌∷◌ x) (take_over n xs ys (omega arith)))

drop_over : (n : ℕ) (xs ys : List ℕ) → length xs ≤ n → drop n (xs ++ ys) ≡ drop (n - length xs) ys
drop_over n [] ys le = ap (λ k. drop k ys) (omega arith)
drop_over zero (x ∷ xs) ys le = absurd (omega arith)
drop_over (suc n) (x ∷ xs) ys le =
    let less : suc n - suc (length xs) ≡ n - length xs = omega arith in
    rw less (drop_over n xs ys (omega arith))

take-drop : (n : ℕ) (xs : List ℕ) → take n xs ++ drop n xs ≡ xs
take-drop zero xs = refl
take-drop (suc n) [] = refl
take-drop (suc n) (x ∷ xs) = ap (◌∷◌ x) (take-drop n xs)

module _ (device : Device) where
  open device use {Conn, read_some, write_some, to_come, written}

  -- One of the reads of a loop that has some bytes left to read gives -1.
  pub data ReadFails : Conn → ℕ → Type 0 where
    read_fails : {c : Conn} {left : ℕ} → 0 < left → read_some c left ≡ none → ReadFails c left
    read_passes :
        {c : Conn} {left : ℕ} {bytes : List ℕ} {c' : Conn}
        → 0 < left
        → read_some c left ≡ some (bytes, c')
        → ReadFails c' (left - length bytes)
        → ReadFails c left

  -- One of the writes of a loop that has some bytes left to write gives -1.
  pub data WriteFails : Conn → List ℕ → Type 0 where
    write_fails :
        {c : Conn} {left : List ℕ} → 0 < length left → write_some c left ≡ none → WriteFails c left
    write_passes :
        {c : Conn} {left : List ℕ} {n : ℕ} {c' : Conn}
        → 0 < length left
        → write_some c left ≡ some (n, c')
        → WriteFails c' (drop n left)
        → WriteFails c left

  -- A loop that ends with success has read as many bytes as it was to read, from the front of the
  -- stream. With as many there, it ends within as many rounds, with success, or with an error if one of
  -- its reads fails.
  pub read_loop_lem :
      (fuel : ℕ) (c : Conn) (buf : List ℕ) (left : ℕ)
      → left ≤ fuel
      → left ≤ length (to_come c)
      → let (status, bytes, c') = read_loop device fuel c buf left in
        ((status ≡ success)
          × (bytes ≡ buf ++ take left (to_come c))
          × (to_come c' ≡ drop left (to_come c)))
        ⊎ ((status ≡ error) × ReadFails c left)
  unfolding read_loop
  read_loop_lem fuel c buf zero enough there = inl (refl, sym (append-nil buf), refl)
  read_loop_lem zero c buf (suc left) enough there = absurd (omega arith)
  read_loop_lem (suc fuel) c buf (suc left) enough there =
      elim (Option-cases (read_some c (suc left))) [
        | inl none_is ↦ inr (rw (none_is, read_loop) refl, read_fails (omega arith) none_is)
        | inr ((got, c1), some_is) ↦
            let (le, here, _) = device.read_takes c (suc left) got c1 some_is in
            let some_got =
              device.read_goes_on c (suc left) got c1 some_is (omega arith) (omega arith) in
            let many = ap length here ∙ length-append got (to_come c1) in
            let step : read_loop device (suc fuel) c buf (suc left)
                ≡ read_loop device fuel c1 (buf ++ got) (suc left - length got) =
              rw (some_is, read_loop) refl in
            rw step
              (elim (read_loop_lem fuel c1 (buf ++ got) (suc left - length got) (omega arith)
                (omega (arith, many))) [
                  | inl (ends, bytes, rest) ↦ inl (
                    ends,
                    bytes
                        ∙ append_assoc buf got _
                        ∙ ap (λ t. buf ++ t)
                            (sym (take_over (suc left) got (to_come c1) le)
                              ∙ ap (take (suc left)) (sym here)),
                    rest
                        ∙ sym (drop_over (suc left) got (to_come c1) le)
                        ∙ ap (drop (suc left)) (sym here),
                  )
                  | inr (ends, fails) ↦ inr (ends, read_passes (omega arith) some_is fails)
                ])
      ]

  -- With fewer bytes in the stream than it is to read, the loop has not ended after any number of rounds,
  -- unless one of its reads fails, and then it may have ended with an error.
  pub read_loop_starves :
      (fuel : ℕ) (c : Conn) (buf : List ℕ) (left : ℕ)
      → length (to_come c) < left
      → ((read_loop device fuel c buf left).0 ≡ spinning)
        ⊎ (((read_loop device fuel c buf left).0 ≡ error) × ReadFails c left)
  unfolding read_loop
  read_loop_starves fuel c buf zero few = absurd (omega arith)
  read_loop_starves zero c buf (suc left) few = inl refl
  read_loop_starves (suc fuel) c buf (suc left) few = elim (Option-cases (read_some c (suc left))) [
    | inl none_is ↦ inr (rw (none_is, read_loop) refl, read_fails (omega arith) none_is)
    | inr ((got, c1), some_is) ↦
        let (le, here, _) = device.read_takes c (suc left) got c1 some_is in
        let many = ap length here ∙ length-append got (to_come c1) in
        let step : read_loop device (suc fuel) c buf (suc left)
            ≡ read_loop device fuel c1 (buf ++ got) (suc left - length got) =
          rw (some_is, read_loop) refl in
        rw step
          (elim (read_loop_starves fuel c1 (buf ++ got) (suc left - length got)
            (omega (arith, many))) [
              | inl spins ↦ inl spins
              | inr (ends, fails) ↦ inr (ends, read_passes (omega arith) some_is fails)
            ])
  ]

  -- `WriteData` ends within as many rounds as there are bytes, with all the bytes written, in order and
  -- once, or with an error if one of its writes fails.
  pub write_loop_lem :
      (fuel : ℕ) (c : Conn) (bytes : List ℕ)
      → length bytes ≤ fuel
      → let (status, c') = write_loop device fuel c bytes in
        ((status ≡ success) × (written c' ≡ written c ++ bytes))
        ⊎ ((status ≡ error) × WriteFails c bytes)
  unfolding write_loop
  write_loop_lem fuel c [] enough = inl (refl, sym (append-nil (written c)))
  write_loop_lem zero c (b ∷ bs) enough = absurd (omega arith)
  write_loop_lem (suc fuel) c (b ∷ bs) enough = elim (Option-cases (write_some c (b ∷ bs))) [
    | inl none_is ↦ inr (rw (none_is, write_loop) refl, write_fails (omega arith) none_is)
    | inr ((n, c1), some_is) ↦
        let (le, put, _) = device.write_puts c (b ∷ bs) n c1 some_is in
        let some_put = device.write_goes_on c (b ∷ bs) n c1 some_is (omega arith) in
        let step : write_loop device (suc fuel) c (b ∷ bs)
            ≡ write_loop device fuel c1 (drop n (b ∷ bs)) =
          rw (some_is, write_loop) refl in
        rw step
          (elim (write_loop_lem fuel c1 (drop n (b ∷ bs)) (omega (arith, length-drop n (b ∷ bs)))) [
            | inl (ends, out) ↦ inl (
              ends,
              out
                  ∙ ap (λ t. t ++ drop n (b ∷ bs)) put
                  ∙ append_assoc (written c) _ _
                  ∙ ap (λ t. written c ++ t) (take-drop n (b ∷ bs)),
            )
            | inr (ends, fails) ↦ inr (ends, write_passes (omega arith) some_is fails)
          ])
  ]
