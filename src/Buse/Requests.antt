-- ===== src/Buse/Requests.antt =====
-- The requests of the kernel, whole, and the answers to them.
use privately_distributed_cl.Common.{
  ℕ, ◌+◌, ◌-◌, ◌<◌, ◌^◌, take_all, take-append_left, ==_iff, ◌≤◌, ◌≡◌, ◌⊎◌, refl, ap, List, [],
  ◌++◌, arith, length, length-append, take, drop, ◌==◌, if◌then◌else◌, Bool-cases, inl, inr,
}
use mathlib.Core.List.{append-nil}
use privately_distributed_cl.Common.Words.{uint32, size_of_int32}
use privately_distributed_cl.Nbd.{code, read, write}
use privately_distributed_cl.Buse.{
  Device, success, error, NbdLayout, NbdRequest, DaemonRequest, ntohl, ntohll, nbd_request_done,
  write_data, write_loop,
}
use privately_distributed_cl.Buse.Transfer.{WriteFails, write_loop_lem}

module _ (device : Device) (layout : NbdLayout) where
  open device use {Conn, to_come, written}

  -- The struct in front of a stream, and the request that it stands for.
  abbrev pub front : List ℕ → NbdRequest
  front stream = layout.decode (take layout.request_size stream)

  abbrev pub data_len : List ℕ → ℕ
  data_len stream =
      if ntohl (front stream).type == code write
      then size_of_int32 (ntohl (front stream).len)
      else 0

  -- The request with its data: what is behind it on the stream for a write, and otherwise the memory of
  -- `malloc`.
  unfoldable pub front_request : (ℕ → List ℕ) → List ℕ → DaemonRequest
  front_request fresh stream = record {
    type = ntohl (front stream).type;
    len = ntohl (front stream).len;
    from = ntohll (front stream).from;
    handle = (front stream).handle;
    data_bytes =
        if ntohl (front stream).type == code write
        then take (data_len stream) (drop layout.request_size stream)
        else fresh (ntohl (front stream).len);
  }

  -- What `NbdRequestDone` has to write.
  unfoldable pub answer_bytes : DaemonRequest → List ℕ
  answer_bytes r = layout.reply_to r.handle ++ (if r.type == code read then r.data_bytes else [])

  -- A block of fewer than 2 ^ 31 bytes is written as it is.
  write_data-exact :
      (fuel : ℕ) (behind : ℕ → ℕ) (block out : List ℕ) (data_len : ℕ) (c : Conn)
      → data_len ≡ length out
      → length out < 2 ^ 31
      → take (length out) block ≡ out
      → length out ≤ length block
      → write_data device fuel block behind data_len c ≡ write_loop device fuel c out
  unfolding write_data
  write_data-exact fuel behind block out data_len c is short all le =
      let left : size_of_int32 (uint32 data_len) ≡ length out = ground (arith, is, short) in
      let nothing : length out - length block ≡ 0 = omega (arith, le) in
      rw (left, all, nothing) (ap (write_loop device fuel c) (append-nil out))

  -- For a request with as many bytes of data as its length says if it is a read, whose reply with them is
  -- shorter than 2 ^ 31 bytes, and with as many rounds as it has bytes, `NbdRequestDone` ends: with success and just the reply written, with the handle of
  -- the request, and for a read the data behind it; or with an error, if a write of these bytes fails.
  pub nbd_request_done_lem :
      (fuel : ℕ) (behind : ℕ → ℕ) (r : DaemonRequest) (c : Conn)
      → (r.type ≡ code read → length r.data_bytes ≡ r.len)
      → length (answer_bytes r) < 2 ^ 31
      → length (answer_bytes r) ≤ fuel
      → let (status, c') = nbd_request_done device layout fuel behind r c in
        ((status ≡ success) × (written c' ≡ written c ++ answer_bytes r))
        ⊎ ((status ≡ error) × WriteFails device c (answer_bytes r))
  unfolding nbd_request_done write_data answer_bytes
  nbd_request_done_lem fuel behind r c whole short enough =
      elim (Bool-cases (r.type == code read)) [
        | inl reads ↦
            let out = layout.reply_to r.handle ++ r.data_bytes in
            let many = length-append (layout.reply_to r.handle) r.data_bytes in
            let full : length r.data_bytes ≡ r.len = whole ((==_iff r.type (code read)).0 reads) in
            let exact =
              write_data-exact fuel behind out out (length (layout.reply_to r.handle) + r.len) c
                (omega (arith, many, full)) (rw reads at short) (take_all out) (omega arith) in
            rw (reads, nbd_request_done, exact)
              (write_loop_lem device fuel c out (rw reads at enough))
        | inr other ↦
            let reply = layout.reply_to r.handle in
            let none_behind = append-nil reply in
            let exact =
              write_data-exact fuel behind (reply ++ r.data_bytes) reply (length reply) c refl
                (rw (other, none_behind) at short)
                (take-append_left (length reply) reply r.data_bytes refl)
                (omega (arith, length-append reply r.data_bytes)) in
            rw (other, nbd_request_done, none_behind, exact)
              (write_loop_lem device fuel c reply (rw (other, none_behind) at enough))
      ]
