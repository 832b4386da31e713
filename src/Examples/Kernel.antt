-- ===== src/Examples/Kernel.antt =====
-- The socket of the block device: a write of three bytes at 4096, and its answer.
use privately_distributed_cl.Common.{
  ℕ, zero, suc, tabulate, ◌+◌, ◌*◌, ◌^◌, ◌≡◌, ◌⊎◌, refl, sym, ap, Option, some, List, [], ◌∷◌, ◌++◌,
  arith, length, take, drop, get_or, length-take,
}
use privately_distributed_cl.Buse.{
  Device, success, error, spinning, NbdLayout, DaemonRequest, ntohl, ntohll, read_loop,
  nbd_request_done,
}
use privately_distributed_cl.Buse.ByteOrder.{word}
use privately_distributed_cl.Buse.Transfer.{ReadFails, WriteFails, read_loop_starves}
use privately_distributed_cl.Buse.Requests.{nbd_request_done_lem, front_request, answer_bytes}

-- What is to come, and what was written.
abbrev Ends : Type 0
Ends = List ℕ × List ℕ

read_ends : Ends → ℕ → Option (List ℕ × Ends)
read_ends c count = some (take count c.0, (drop count c.0, c.1))

write_ends : Ends → List ℕ → Option (ℕ × Ends)
write_ends c bytes = some (length bytes, (c.0, c.1 ++ bytes))

take-drop : (n : ℕ) (xs : List ℕ) → xs ≡ take n xs ++ drop n xs
take-drop zero xs = refl
take-drop (suc n) [] = refl
take-drop (suc n) (x ∷ xs) = ap (◌∷◌ x) (take-drop n xs)

take_whole : (xs : List ℕ) → take (length xs) xs ≡ xs
take_whole [] = refl
take_whole (x ∷ xs) = ap (◌∷◌ x) (take_whole xs)

read_ends_lem :
    (c : Ends) (count : ℕ) (bytes : List ℕ) (c' : Ends)
    → read_ends c count ≡ some (bytes, c')
    → (bytes ≡ take count c.0) × (c' ≡ (drop count c.0, c.1))
unfolding read_ends
read_ends_lem c count bytes c' e = (cc, cc)

write_ends_lem :
    (c : Ends) (bytes : List ℕ) (n : ℕ) (c' : Ends)
    → write_ends c bytes ≡ some (n, c')
    → (n ≡ length bytes) × (c' ≡ (c.0, c.1 ++ bytes))
unfolding write_ends
write_ends_lem c bytes n c' e = (cc, cc)

abbrev device : Device
device = record {
  Conn = Ends;
  to_come = λ c. c.0;
  written = λ c. c.1;
  read_some = read_ends;
  write_some = write_ends;
  read_takes = λ c count bytes c' e.
      let (b, d) = read_ends_lem c count bytes c' e in
      rw (b, d) (omega (arith, length-take count c.0), take-drop count c.0, refl);
  read_goes_on = λ c count bytes c' e pos some_there.
      let (b, d) = read_ends_lem c count bytes c' e in rw b (omega (arith, length-take count c.0));
  write_puts = λ c bytes n c' e.
      let (b, d) = write_ends_lem c bytes n c' e in
      rw (b, d) (omega arith, ap (λ t. c.1 ++ t) (sym (take_whole bytes)), refl);
  write_goes_on = λ c bytes n c' e pos. let (b, d) = write_ends_lem c bytes n c' e in rw b pos;
}

word_at : List ℕ → ℕ → ℕ
word_at bs i =
    word (get_or bs i 0) (get_or bs (i + 1) 0) (get_or bs (i + 2) 0) (get_or bs (i + 3) 0)

-- `struct nbd_request` and `struct nbd_reply` of the kernel.
abbrev layout : NbdLayout
layout = record {
  request_size = 28;
  decode = λ bs. record {
    type = word_at bs 4;
    handle = take 8 (drop 8 bs);
    from = word_at bs 16 + word_at bs 20 * 2 ^ 32;
    len = word_at bs 24;
  };
  reply_to = λ handle. 103 ∷ 68 ∷ 102 ∷ 152 ∷ 0 ∷ 0 ∷ 0 ∷ 0 ∷ handle;
}

abbrev kernel_bytes : List ℕ
kernel_bytes =
    37 ∷ 96 ∷ 149 ∷ 19 ∷ 0 ∷ 0 ∷ 0 ∷ 1 ∷ 1 ∷ 2 ∷ 3 ∷ 4 ∷ 5 ∷ 6 ∷ 7 ∷ 8 ∷ 0 ∷ 0 ∷ 0 ∷ 0 ∷ 0 ∷ 0 ∷ 16
    ∷ 0 ∷ 0 ∷ 0 ∷ 0 ∷ 3 ∷ 65 ∷ 66 ∷ 67 ∷ 99 ∷ []

abbrev kernel_request : DaemonRequest
kernel_request = record {
  type = 1;
  len = 3;
  from = 4096;
  handle = 1 ∷ 2 ∷ 3 ∷ 4 ∷ 5 ∷ 6 ∷ 7 ∷ 8 ∷ [];
  data_bytes = 65 ∷ 66 ∷ 67 ∷ [];
}

-- What is in memory is zero.
abbrev blank : ℕ → List ℕ
blank n = tabulate n 0 (λ i. 0)

-- What was read is the write of three bytes.
front_request_test : front_request device layout blank kernel_bytes ≡ kernel_request
unfolding front_request word_at ntohl ntohll
front_request_test = refl

abbrev kernel_read : DaemonRequest
kernel_read = record kernel_request { type = 0 }

nbd_request_done_lem_example :
    ((nbd_request_done device layout 40 (λ i. 0) kernel_read ([], [])).0 ≡ success)
      × ((nbd_request_done device layout 40 (λ i. 0) kernel_read ([], [])).1.1
          ≡ [] ++ answer_bytes device layout kernel_read)
    ⊎ (((nbd_request_done device layout 40 (λ i. 0) kernel_read ([], [])).0 ≡ error)
        × WriteFails device ([], []) (answer_bytes device layout kernel_read))
unfolding answer_bytes
nbd_request_done_lem_example =
    nbd_request_done_lem device layout 40 (λ i. 0) kernel_read ([], []) (λ _. refl) (omega arith)
      (omega arith)

read_loop_starves_example :
    ((read_loop device 100 (1 ∷ 2 ∷ [], []) [] 3).0 ≡ spinning)
    ⊎ (((read_loop device 100 (1 ∷ 2 ∷ [], []) [] 3).0 ≡ error)
        × ReadFails device (1 ∷ 2 ∷ [], []) 3)
read_loop_starves_example = read_loop_starves device 100 (1 ∷ 2 ∷ [], []) [] 3 (omega arith)
