-- ===== src/Vision/Client.antt =====
-- `VisionIpcClient` of msgq/visionipc/visionipc_client.cc: its buffers, and
-- which packets it accepts.
use msgq.Vision.Passing.{arrived}
use msgq.Vision.{VisionBuf, Extra, packet_size, of_packet_bytes}
use msgq.Queue.{Msg, Run, done, aborted}
use msgq.Base.{
  ◌*◌, ◌&&◌, pos, negsuc, ◌+◌, Bool, true, false, not, Option, none, some, List, [], ◌∷◌, length,
  leb, ◌==◌, if◌then◌else◌, ℤ, update, ℕ,
}

-- `VisionIpcClient`
pub record Client : Type 0 where
  pub connected : Bool
  pub kind : ℕ
  pub num_buffers : ℕ
  pub buffers : ℕ → VisionBuf

-- `fd >= 0`
abbrev is_descriptor : ℤ → Bool
is_descriptor (pos fd) = true
is_descriptor (negsuc n) = false

-- `sizeof(VisionBuf)` on a 64-bit system
abbrev pub buf_bytes : ℕ
buf_bytes = 112

-- the import loop: the copies received, from index `i` on, with the descriptors received
unfoldable pub import_buffers : (ℕ → ℤ) → ℕ → List VisionBuf → (ℕ → VisionBuf) → ℕ → VisionBuf
import_buffers fds i [] buffers = buffers
import_buffers fds i (b ∷ bs) buffers =
    import_buffers fds (i + 1) bs (update buffers i (record b { fd = fds i }))

-- the assertions of `VisionBuf::import` in this loop: a descriptor, and a `mmap` that succeeds
unfoldable pub importable : (ℤ → ℕ → Bool) → (ℕ → ℤ) → ℕ → List VisionBuf → Bool
importable map_file fds i [] = true
importable map_file fds i (b ∷ bs) =
    is_descriptor (fds i) && (map_file (fds i) b.mmap_len && importable map_file fds (i + 1) bs)

-- What the receiving `ipc_sendrecv_with_fds` gives the client: a failure, with whether `errno` is
-- `ECONNRESET`, or what it returns with the descriptors and as many copies as these.
pub data Received : Type 0 where
  failed_recv : Bool → Received
  received_copies : ℕ → (ℕ → ℤ) → List VisionBuf → Received

-- the part of `VisionIpcClient::connect` behind the receiving call
unfoldable pub take_buffers : (ℤ → ℕ → Bool) → Received → Client → Run (Bool × Client)
take_buffers map_file (failed_recv true) client =
    done (false, record client { connected = false; num_buffers = 0 })
take_buffers map_file (failed_recv false) client = aborted
take_buffers map_file (received_copies r fds bufs) client =
    if (r == buf_bytes * length bufs) && importable map_file fds 0 bufs
    then done (
      true,
      record client {
        connected = true;
        num_buffers = length bufs;
        buffers = import_buffers fds 0 bufs client.buffers;
      },
    )
    else aborted

-- `r == sizeof(type)`
abbrev is_kind_size : ℤ → Bool
is_kind_size (pos n) = n == 4
is_kind_size (negsuc n) = false

-- `VisionIpcClient::connect`, given whether a `mmap` succeeds, whether the connection came about,
-- what the sending call returned, and what was received
unfoldable pub connect : (ℤ → ℕ → Bool) → Bool → ℤ → Received → Client → Run (Bool × Client)
connect map_file false r arrived client =
    done (false, record client { connected = false; num_buffers = 0 })
connect map_file true r arrived client =
    if is_kind_size r then take_buffers map_file arrived client else aborted

-- `VisionIpcClient::recv` from the assertion on, for the message received
unfoldable pub accept_message : Msg → Client → Run (Option (VisionBuf × Extra) × Client)
accept_message msg client =
    let packet = of_packet_bytes msg.content in
    let refused : Option (VisionBuf × Extra) × Client =
      (none, record client { connected = false }) in
    if not (msg.size == packet_size)
    then aborted
    else if leb client.num_buffers packet.idx
    then done refused
    else if not ((client.buffers packet.idx).server_id == packet.server_id)
    then done refused
    else done (some (client.buffers packet.idx, packet.extra), client)

-- `VisionIpcClient::recv`, given what the poller and the socket did
unfoldable pub recv_frame : Option Msg → Client → Run (Option (VisionBuf × Extra) × Client)
recv_frame none client = done (none, client)
recv_frame (some msg) client = accept_message msg client
