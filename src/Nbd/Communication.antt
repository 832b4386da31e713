-- ===== src/Nbd/Communication.antt =====
-- concrete/nbd_communication/nbd_communication.cpp: `NBDCommunication`, which owns the socket of the block device.
use privately_distributed_cl.Common.{
  ℕ, List, ◌≡◌, true, ◌==◌, if◌then◌else◌, arith, subst, Option, none, some, Outcome, ok, fault,
  runtime_error, null_dereference,
}
use privately_distributed_cl.Buse.{
  Device, NbdLayout, DaemonRequest, Status, given, null, spins, nbd_get_request, nbd_request_done,
}
use privately_distributed_cl.Buse.Open.{
  Fds, Forked, parent, System, nbd_open, close, LeavesOpen, nbd_open_lem, as_before,
}

-- `m_nbd_socket` from what `NbdOpen` returns.
pub connected : Option ℕ × Fds → Outcome ℕ × Fds
connected (none, fds) = (fault runtime_error, fds)
connected (some nbd_socket, fds) = (ok nbd_socket, fds)

-- The constructor: the socket, and what is open then.
pub nbd_communication : System → Forked → ℕ → Fds → Outcome ℕ × Fds
nbd_communication sys fork folder_size fds = connected (nbd_open sys fork folder_size fds)

-- The destructor.
unfoldable pub destroy : ℕ → Fds → Fds
destroy nbd_socket fds = close nbd_socket fds

close-connected :
    (sys : System) (fds : Fds) (result : Option ℕ × Fds) {nbd_socket : ℕ} {fds' : Fds} (x : ℕ)
    → LeavesOpen sys parent fds result
    → connected result ≡ (ok nbd_socket, fds')
    → close nbd_socket fds' x ≡ fds x
unfolding connected close
close-connected sys fds (none, fds1) x leaves e = cc
close-connected sys fds (some fd, fds1) {nbd_socket} {fds'} x (new, same) e =
    let p : fds1 x ≡ (if fd == x then true else fds x) = same x in
    let q : close fd fds1 x ≡ fds x = ground (arith, p, as_before fds fd x new) in
    let same_socket : fd ≡ nbd_socket = cc in
    let same_fds : fds1 ≡ fds' = cc in
    subst (λ d. close nbd_socket d x ≡ fds x) same_fds
      (subst (λ n. close n fds1 x ≡ fds x) same_socket q)

-- An object that is made in the parent and destroyed leaves open what was open before it.
destroy-nbd_communication :
    (sys : System) (folder_size : ℕ) (fds : Fds) {nbd_socket : ℕ} {fds' : Fds} (x : ℕ)
    → nbd_communication sys parent folder_size fds ≡ (ok nbd_socket, fds')
    → destroy nbd_socket fds' x ≡ fds x
unfolding nbd_communication destroy
destroy-nbd_communication sys folder_size fds x e =
    close-connected sys fds _ x (nbd_open_lem sys parent folder_size fds) e

module _ (device : Device) (layout : NbdLayout) where
  open device use {Conn}

  -- `FreeRequestDeleter`, which the last copy of the pointer calls, for a null pointer too.
  unfoldable pub free_request : ℕ → (ℕ → ℕ) → Option DaemonRequest → Conn → Outcome (Status × Conn)
  free_request fuel behind none c = fault null_dereference
  free_request fuel behind (some request) c =
      ok (nbd_request_done device layout fuel behind request c)

  -- `GetRequest`: what the pointer that it makes points to, `none` if to nothing; and `none` in
  -- front if it has not returned within the rounds.
  unfoldable pub get_request : ℕ → (ℕ → List ℕ) → Conn → Option (Option DaemonRequest) × Conn
  get_request fuel fresh c =
      let (got, c') = nbd_get_request device layout fuel fresh c in
      (elim got [ given request ↦ some (some request) | null ↦ some none | spins ↦ none ], c')
