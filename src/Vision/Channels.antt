-- ===== src/Vision/Channels.antt =====
-- The sockets of msgq/visionipc/visionipc.cc, and the descriptors that go over them. What the
-- operating system answers is a parameter.
use msgq.Queue.{Run, done, aborted, ◌>>=◌}
use msgq.Base.{
  zero, suc, ◌*◌, ◌/◌, ◌%◌, Bool, true, false, ◌&&◌, Option, none, some, List, [], ◌∷◌, take, ltb,
  leb, ◌==◌, if◌then◌else◌, ℤ, pos, negsuc, ℕ,
}

-- the answers to `socket`, `connect`, `bind` and `listen`
pub record Net : Type 0 where
  pub new_socket : ℤ
  pub connect : ℤ → List ℕ → ℤ
  pub bind : ℤ → List ℕ → ℤ
  pub listen : ℤ → ℤ → ℤ

pub data Op : Type 0 where
  created : ℕ → Op
  shut : ℤ → Op
  removed : List ℕ → Op

-- `addr.sun_path`: what does not fit its 108 bytes with the final zero is cut.
abbrev pub sun_path : List ℕ → List ℕ
sun_path path = take 107 path

abbrev pub is_success : ℤ → Bool
is_success (pos zero) = true
is_success (pos (suc n)) = false
is_success (negsuc n) = false

-- `ipc_connect`
unfoldable pub ipc_connect : Net → List ℕ → List Op × ℤ
ipc_connect net path = elim net.new_socket [
  | negsuc _ ↦ ([], negsuc 0)
  | pos sock ↦
      if is_success (net.connect (pos sock) (sun_path path))
      then (created sock ∷ [], pos sock)
      else (created sock ∷ shut (pos sock) ∷ [], negsuc 0)
]

-- what `getsocket` leaves to be closed
abbrev pub creation : ℤ → List Op
creation (pos sock) = created sock ∷ []
creation (negsuc n) = []

-- `ipc_bind`, which does not look at what `getsocket` returns
unfoldable pub ipc_bind : Net → List ℕ → Run (List Op × ℤ)
ipc_bind net path =
    let sock = net.new_socket in
    if is_success (net.bind sock (sun_path path))
    then (if is_success (net.listen sock (pos 3))
        then done (removed path ∷ creation sock, sock)
        else aborted)
    else aborted

-- The first control message that arrived: whether it carries descriptors (SOL_SOCKET and
-- SCM_RIGHTS), the length of its payload in bytes, and the descriptors.
pub record Control : Type 0 where
  pub rights : Bool
  pub payload : ℕ
  pub fds : List ℕ

-- What `recvmsg` leaves: its result, the control message if `msg_controllen` is positive, and
-- whether `msg_flags` has a bit set.
pub record Incoming : Type 0 where
  pub rc : ℤ
  pub control : Option Control
  pub flagged : Bool

-- What the receiving branch leaves: the result, the descriptors that it copied for the caller with
-- their number, unless it returned before, and those that it closed.
pub record Arrival : Type 0 where
  pub rc : ℤ
  pub fds : Option (List ℕ × ℕ)
  pub closed : List ℕ

-- the assertions on a control message, and the number of descriptors
unfoldable pub count_fds : Bool → ℕ → Control → Run ℕ
count_fds wanted num_fds control =
    if control.rights && (ltb 0 control.payload && (control.payload % 4 == 0))
    then (if wanted && leb (control.payload / 4) num_fds
        then done (control.payload / 4)
        else aborted)
    else aborted

-- from the test of the flags on, with the descriptors copied
unfoldable pub deliver : Bool → Bool → ℤ → List ℕ → ℕ → Arrival
deliver wanted true rc fds count = record { rc = negsuc 0; fds = none; closed = take count fds }
deliver wanted false rc fds count = record {
  rc = rc;
  fds = if wanted then some (take count fds, count) else none;
  closed = [];
}

-- the receiving branch of `ipc_sendrecv_with_fds`; `wanted` is `fds` as a truth value
unfoldable pub recv_with_fds : Bool → ℕ → Incoming → Run Arrival
recv_with_fds wanted num_fds m = elim m.rc [
  | negsuc n ↦ done (record { rc = negsuc n; fds = none; closed = [] })
  | pos n ↦ elim m.control [
    | none ↦ done (deliver wanted m.flagged (pos n) [] 0)
    | some control ↦ do
      count ← count_fds wanted num_fds control
      done (deliver wanted m.flagged (pos n) control.fds count)
  ]
]

-- What the sending branch hands to `sendmsg`: the bytes, and a control message if there are
-- descriptors to send.
pub record Outgoing : Type 0 where
  pub bytes : List ℕ
  pub control : Option Control

-- the sending branch of `ipc_sendrecv_with_fds`
unfoldable pub send_with_fds : List ℕ → Option (List ℕ) → ℕ → Run Outgoing
send_with_fds bytes fds zero = done (record { bytes = bytes; control = none })
send_with_fds bytes none (suc n) = aborted
send_with_fds bytes (some fds) (suc n) = done (record {
  bytes = bytes;
  control = some (record { rights = true; payload = 4 * suc n; fds = take (suc n) fds });
})
