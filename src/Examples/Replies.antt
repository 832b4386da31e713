-- ===== src/Examples/Replies.antt =====
-- Replies to a read of two fragments, the second one first.
use privately_distributed_cl.Common.{
  ℕ, zero, suc, ◌+◌, ◌≡◌, ◌≤◌, ◌<◌, refl, List, [], ◌∷◌, some, ok, true, arith, All,
}
use privately_distributed_cl.Common.Memory.{Memory, length-read_bytes}
use privately_distributed_cl.Common.Dict.{find, nat_key, find-assign_self}
use privately_distributed_cl.Nbd.{Request}
use privately_distributed_cl.Slicer.{Slicer, fragment_size}
use privately_distributed_cl.Slicer.Placement.{Fits}
use privately_distributed_cl.Splicer.{Splicer, Reply, reply_all}
use privately_distributed_cl.Splicer.Counting.{
  count_to, completed, reply_all_counts, reply_all_runs,
}
use privately_distributed_cl.Splicer.Requests.{slicer_for, requested}
use privately_distributed_cl.Splicer.Buffer.{IsFragment, answered, filled, reply_all_fills}
use privately_distributed_cl.Disk.Read.{fragment_bytes}
use privately_distributed_cl.Examples.{read_request, fresh_splicer, host}

abbrev storages : ℕ → Memory
storages fd a = fd + a

reply_for : ℕ → Reply
reply_for i = record {
  atlas = record {
    request_uid = 7;
    fragment_idx = i;
    alarm_uid = 0;
    iot_offset = 0;
    type = 0;
    data_len = 1024;
  };
  buffer = fragment_bytes storages (slicer_for read_request fresh_splicer) i;
}

replies : List Reply
unfolding reply_for
replies = reply_for 1 ∷ reply_for 0 ∷ []

reply_for-IsFragment :
    (i : ℕ)
    → i < 2
    → IsFragment 7 2 (fragment_bytes storages (slicer_for read_request fresh_splicer)) (reply_for i)
unfolding reply_for
reply_for-IsFragment i h = record {
  mine = refl;
  whole = refl;
  bytes = refl;
  full = length-read_bytes _ _ fragment_size;
  inside = h;
}

replies-IsFragment :
    All (IsFragment 7 2 (fragment_bytes storages (slicer_for read_request fresh_splicer))) replies
unfolding replies
replies-IsFragment =
    (reply_for-IsFragment 1 (omega arith), (reply_for-IsFragment 0 (omega arith), tt))

replies_answer : (i : ℕ) → i < 2 → answered i replies ≡ true
unfolding replies reply_for answered
replies_answer zero h = refl
replies_answer (suc zero) h = refl
replies_answer (suc (suc i)) h = absurd (omega arith)

read_request-Fits : Fits (slicer_for read_request fresh_splicer) 4
read_request-Fits = omega arith

waiting : Splicer
waiting = requested read_request fresh_splicer

waiting-find : find 7 waiting.slicer_map ≡ some (slicer_for read_request fresh_splicer)
unfolding waiting
waiting-find = find-assign_self 7 (slicer_for read_request fresh_splicer) []

-- The run of one reply.
one_run :
    (out : Splicer × List (ℕ × Request) × Memory) × (reply_all (reply_for 1 ∷ []) waiting host
      ≡ ok out)
unfolding reply_for
one_run =
    reply_all_runs 7 (reply_for 1 ∷ []) waiting host (slicer_for read_request fresh_splicer)
      waiting-find (omega arith) (refl, tt) (omega arith)

-- After one reply of two the request still waits.
reply_all_counts_example :
    (1 ≤ 2)
    × (find 7 one_run.0.0.slicer_map
        ≡ some (record (slicer_for read_request fresh_splicer) { count_slices = 1 }))
    × (completed 7 one_run.0.1 ≡ [])
unfolding count_to reply_for
reply_all_counts_example =
    reply_all_counts 7 (reply_for 1 ∷ []) waiting host (slicer_for read_request fresh_splicer)
      waiting-find (omega arith) (omega arith) one_run.1

based :
    (slicer : Slicer) → find 7 waiting.slicer_map ≡ some slicer → slicer.full_request.m_data ≡ 100
based slicer found = let e = waiting-find in ground arith

reply_all_fills_example :
    one_run.0.2 1200
    ≡ filled 100
        (fragment_bytes storages (slicer_for read_request fresh_splicer))
        (reply_for 1 ∷ [])
        host
        1200
reply_all_fills_example =
    reply_all_fills 7 2 100 (fragment_bytes storages (slicer_for read_request fresh_splicer))
      (omega arith) (reply_for 1 ∷ []) waiting host 1200 (reply_for-IsFragment 1 (omega arith), tt)
      based one_run.1
