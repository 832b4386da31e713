-- ===== src/Disk/Write.antt =====
-- A write of the whole device, made of the fragments of `Slice`.
use privately_distributed_cl.Common.{
  ℕ, zero, suc, ◌+◌, ◌-◌, ◌*◌, ◌/◌, ◌%◌, ◌^◌, ◌≤◌, ◌<◌, ◌≡◌, ◌≢◌, sym, ap, ◌∙◌, arith, List, ◌&&◌,
  ◌==◌, eq→==, ne→==, if_yes, if_no, leb, ltb, if◌then◌else◌, length, get_or, tabulate, ok,
}
use native.Mathlib.Nat.{mod-lt}
use native.Mathlib.Decide.{ℕ_discrete}
use privately_distributed_cl.Common.Memory.{
  Memory, read_bytes, write_bytes, length-read_bytes, get_or-read_bytes,
}
use privately_distributed_cl.Common.Words.{size_of_int32}
use privately_distributed_cl.Nbd.{code, write}
use privately_distributed_cl.Slicer.{Slicer, DeviceRequest, slice, fragment_size}
use privately_distributed_cl.Slicer.Stripe.{fragment_unique}
use privately_distributed_cl.Slicer.ClosedForm.{striped, sliced}
use privately_distributed_cl.Slicer.Placement.{
  IsDistinct, Fits, slice_inv, offset_small, rows_apart,
}
use privately_distributed_cl.Disk.{perform, perform_all, iot_of, offset_of, disk}

perform-write :
    (mem : Memory) (d : DeviceRequest) (storage : Memory)
    → d.request.type ≡ code write
    → perform mem d storage
      ≡ write_bytes storage d.request.iot_offset (read_bytes mem d.m_data d.request.data_len)
unfolding perform
perform-write mem d storage e = ground arith

-- A read of `n` bytes written at `dst`: what the memory then holds.
copied :
    (mem storage : Memory) (src dst n o : ℕ)
    → write_bytes storage dst (read_bytes mem src n) o
      ≡ (if leb dst o && ltb o (dst + n) then mem (src + (o - dst)) else storage o)
unfolding write_bytes
copied mem storage src dst n o =
    ground (arith, length-read_bytes mem src n, get_or-read_bytes mem src n (o - dst))

module _ (mem : Memory) (s : Slicer) (first rows p : ℕ) (pos : 0 < length s.fds_vector)
    (distinct : IsDistinct s.fds_vector) (fit : rows * fragment_size ≤ 2 ^ 32)
    (p_in : p / fragment_size < length s.fds_vector * rows)
    (w : s.full_request.type ≡ code write) where
  -- The bytes of a storage after one fragment.
  performed :
      (c o : ℕ) (storage : Memory)
      → first + c < length s.fds_vector * rows
      → let row = (first + c) / length s.fds_vector * fragment_size in
        perform mem (striped s first c) storage o ≡ (
          if leb row o && ltb o (row + fragment_size)
          then mem (s.full_request.m_data + c * fragment_size + (o - row))
          else storage o)
  performed c o storage inside =
      ap (λ m. m o) (perform-write mem (striped s first c) storage w)
      ∙ ap
          (λ t.
            write_bytes storage t
              (read_bytes mem (s.full_request.m_data + c * fragment_size) fragment_size) o)
          (offset_small (length s.fds_vector) rows (first + c) pos inside fit)
      ∙ copied mem storage (s.full_request.m_data + c * fragment_size) _ fragment_size o

  -- Two fragments of one IoT are in different rows.
  other_row :
      (c : ℕ)
      → first + c < length s.fds_vector * rows
      → (striped s first c).device_fd ≡ iot_of s.fds_vector p
      → p / fragment_size ≢ first + c
      → (first + c) / length s.fds_vector ≢ p / fragment_size / length s.fds_vector
  other_row c inside same ne q = ne (
      sym (
        fragment_unique (length s.fds_vector) (first + c) (p / fragment_size) pos
          (distinct _ _ (mod-lt (first + c) pos) (mod-lt (p / fragment_size) pos) same) q))

  -- One fragment writes byte `p` of the device exactly if the byte is in the fragment.
  one_fragment :
      (c : ℕ) (storage : Memory)
      → first + c < length s.fds_vector * rows
      → let d = striped s first c in
        (if d.device_fd == iot_of s.fds_vector p then perform mem d storage else storage)
          (offset_of s.fds_vector p)
        ≡ (if p / fragment_size == first + c
            then mem (s.full_request.m_data + c * fragment_size + p % fragment_size)
            else storage (offset_of s.fds_vector p))
  one_fragment c storage inside = elim (ℕ_discrete (p / fragment_size) (first + c)) [
    | yes e ↦
        let same : (striped s first c).device_fd ≡ iot_of s.fds_vector p =
          ap (λ t. get_or s.fds_vector (t % length s.fds_vector) 0) (sym e) in
        let row : (first + c) / length s.fds_vector ≡ p / fragment_size / length s.fds_vector =
          ap (λ t. t / length s.fds_vector) (sym e) in
        ap (λ (m : Memory). m (offset_of s.fds_vector p)) (if_yes _ _ (eq→== _ _ same))
        ∙ performed c (offset_of s.fds_vector p) storage inside
        ∙ ground (arith, row)
    | no ne ↦ elim (ℕ_discrete (striped s first c).device_fd (iot_of s.fds_vector p)) [
      | yes same ↦
          ap (λ (m : Memory). m (offset_of s.fds_vector p)) (if_yes _ _ (eq→== _ _ same))
          ∙ performed c (offset_of s.fds_vector p) storage inside
          ∙ ground (
            arith,
            rows_apart ((first + c) / length s.fds_vector)
                (p / fragment_size / length s.fds_vector),
            other_row c inside same ne,
          )
      | no other ↦
          ap (λ (m : Memory). m (offset_of s.fds_vector p)) (if_no _ _ (ne→== _ _ other))
          ∙ sym (if_no _ _ (ne→== _ _ ne))
    ]
  ]

  fragments_written :
      (k c : ℕ) (storage : Memory)
      → first + c + k ≤ length s.fds_vector * rows
      → let f = p / fragment_size in
        perform_all mem
          (iot_of s.fds_vector p)
          (tabulate k c (striped s first))
          storage
          (offset_of s.fds_vector p)
        ≡ (if leb (first + c) f && ltb f (first + c + k)
            then mem (s.full_request.m_data + (f - first) * fragment_size + p % fragment_size)
            else storage (offset_of s.fds_vector p))
  unfolding perform_all
  fragments_written zero c storage inside = ground arith
  fragments_written (suc k) c storage inside =
      fragments_written k (suc c) _ (omega arith)
      ∙ ground (arith, one_fragment c storage (omega arith))

-- A successful `Slice` of an aligned write that fits into the rows of the IoTs, over distinct sockets,
-- performed by the IoTs, writes the request's buffer to
-- the whole device at `from`: of the part that `Slice` covers each byte goes to its place, and no
-- other byte of the device changes.
pub write_lem :
    (c : ℕ) (s : Slicer) (rows : ℕ) (mem : Memory) (storages : ℕ → Memory) (p : ℕ) {c' : ℕ}
    {s' : Slicer} {requests : List DeviceRequest}
    → Fits s rows
    → IsDistinct s.fds_vector
    → s.full_request.type ≡ code write
    → s.full_request.from % fragment_size ≡ 0
    → slice c s ≡ ok (c', s', requests)
    → p < length s.fds_vector * rows * fragment_size
    → let from = s.full_request.from in
      let covered = size_of_int32 s.full_request.len / fragment_size * fragment_size in
      disk s.fds_vector (λ fd. perform_all mem fd requests (storages fd)) p ≡ (
        if leb from p && ltb p (from + covered)
        then mem (s.full_request.m_data + (p - from))
        else disk s.fds_vector storages p)
write_lem c s rows mem storages p fits distinct w aligned e small =
    let (pos, _, r) = slice_inv c s fits.few e in
    let first = s.full_request.from / fragment_size in
    let count = size_of_int32 s.full_request.len / fragment_size in
    ap
      (λ ds.
        perform_all mem (iot_of s.fds_vector p) ds (storages (iot_of s.fds_vector p))
          (offset_of s.fds_vector p))
      r
    ∙ fragments_written mem (sliced c s) first rows p pos distinct fits.addressable (omega arith) w
        count 0 (storages (iot_of s.fds_vector p)) (omega (arith, fits.inside))
    ∙ ground arith
