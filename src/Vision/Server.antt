-- ===== src/Vision/Server.antt =====
-- `VisionIpcServer` of msgq/visionipc/visionipc_server.cc: its buffers and what it answers.
use msgq.Words.{u64}
use msgq.Vision.{max_fds, stream_list, VisionBuf, new_buf, allocate, init_yuv, Extra, Packet}
use msgq.Queue.{Run, ◌>>=◌, done, aborted}
use msgq.Base.{
  zero, suc, ◌+◌, ◌*◌, ◌/◌, ◌%◌, not, Option, none, some, List, [], ◌∷◌, ◌++◌, length, ltb, leb,
  ◌==◌, if◌then◌else◌, ℤ, pos, negsuc, ℕ,
}

-- A stream: its type, its buffers, and `cur_idx`.
pub record Stream : Type 0 where
  pub kind : ℕ
  pub buffers : List VisionBuf
  pub current : ℕ

-- `VisionIpcServer`, with its maps by type as one list in the order of the types
pub record Server : Type 0 where
  pub server_id : ℕ
  pub streams : List Stream

-- the lookup in a map
unfoldable pub find_stream : ℕ → List Stream → Option Stream
find_stream kind [] = none
find_stream kind (s ∷ streams) =
    let rest = find_stream kind streams in if s.kind == kind then some s else rest

-- an entry is replaced, or put in its place
unfoldable pub put_stream : Stream → List Stream → List Stream
put_stream t [] = t ∷ []
put_stream t (s ∷ streams) =
    let rest = put_stream t streams in
    if s.kind == t.kind
    then t ∷ streams
    else if ltb t.kind s.kind
    then t ∷ s ∷ streams
    else s ∷ rest

-- the loop of `create_buffers_with_sizes` for `n` buffers from index `i` on, `fds` being the
-- descriptors of the new files
unfoldable pub make_buffers : (ℕ → ℕ) → ℕ → ℕ → ℕ → ℕ → ℕ → ℕ → ℕ → ℕ → List VisionBuf
unfolding allocate init_yuv
make_buffers fds kind width height size stride uv_offset i zero = []
make_buffers fds kind width height size stride uv_offset i (suc n) =
    init_yuv width height stride uv_offset
      (record (allocate (fds i) size new_buf) { idx = i; kind = kind })
    ∷ make_buffers fds kind width height size stride uv_offset (i + 1) n

-- the buffers of a stream that may not be there yet
abbrev buffers_of : Option Stream → List VisionBuf
buffers_of none = []
buffers_of (some s) = s.buffers

-- `VisionIpcServer::create_buffers_with_sizes`, without the socket
unfoldable pub create_buffers_with_sizes : (ℕ → ℕ) → ℕ → ℕ → ℕ → ℕ → ℕ → ℕ → ℕ → Server → Server
create_buffers_with_sizes fds kind num_buffers width height size stride uv_offset server =
    record server {
      streams =
          put_stream
            (record {
              kind = kind;
              buffers =
                  buffers_of (find_stream kind server.streams)
                  ++ make_buffers fds kind width height size stride uv_offset 0 num_buffers;
              current = 0;
            })
            server.streams;
    }

-- `VisionIpcServer::create_buffers`
unfoldable pub create_buffers : (ℕ → ℕ) → ℕ → ℕ → ℕ → ℕ → Server → Run Server
create_buffers fds kind num_buffers width height server =
    if ltb num_buffers max_fds
    then done (
        create_buffers_with_sizes fds kind num_buffers width height (u64 (width * height * 3) / 2)
          width (u64 (width * height)) server)
    else aborted

-- `b[idx]`
unfoldable pub buffer_at : List VisionBuf → ℕ → Run VisionBuf
buffer_at [] i = aborted
buffer_at (b ∷ bs) zero = done b
buffer_at (b ∷ bs) (suc i) = buffer_at bs i

-- the choice of the index in `get_buffer`, with the new `cur_idx`
unfoldable pub choose_index : ℤ → ℕ → ℕ → Run (ℕ × ℕ)
choose_index (negsuc n) current zero = aborted
choose_index (negsuc n) current (suc k) = done (current % suc k, u64 (current + 1))
choose_index (pos i) current size = if ltb i size then done (i, i) else aborted

-- `VisionIpcServer::get_buffer`; a remainder by 0 is a failure.
unfoldable pub get_buffer : ℕ → ℤ → Server → Run (VisionBuf × Server)
get_buffer kind idx server = elim (find_stream kind server.streams) [
  | none ↦ aborted
  | some s ↦ do
    (i, current) ← choose_index idx s.current (length s.buffers)
    b ← buffer_at s.buffers i
    done (b, record server { streams = put_stream (record s { current = current }) server.streams })
]

-- The packet that `VisionIpcServer::send` passes to the socket. `sync` does nothing here.
unfoldable pub packet_of : Server → VisionBuf → Extra → Run Packet
packet_of server buf extra = elim (find_stream buf.kind server.streams) [
  | none ↦ aborted
  | some s ↦
      if ltb buf.idx (length s.buffers)
      then done (record { server_id = server.server_id; idx = buf.idx; extra = extra })
      else aborted
]

-- What the listener sends back on a connection before it closes it.
pub data Response : Type 0 where
  nothing : Response
  types : List ℕ → Response
  copies : List VisionBuf → Response

-- the copies of the buffers: the descriptors travel beside them
unfoldable pub copy_buffers : ℕ → List VisionBuf → List VisionBuf
copy_buffers server_id [] = []
copy_buffers server_id (b ∷ bs) =
    record b { handle = 0; server_id = server_id } ∷ copy_buffers server_id bs

unfoldable pub stream_types : List Stream → List ℕ
stream_types [] = []
stream_types (s ∷ streams) = s.kind ∷ stream_types streams

-- The listener's answer to a request of `r` bytes. The arrays on its stack hold 128 buffers.
unfoldable pub respond : Server → ℤ → ℕ → Run Response
respond server (negsuc n) kind = done nothing
respond server (pos r) kind =
    if not (r == 4)
    then done nothing
    else if kind == stream_list
    then done (types (stream_types server.streams))
    else elim (find_stream kind server.streams) [
      | none ↦ done nothing
      | some s ↦
          if leb (length s.buffers) max_fds
          then done (copies (copy_buffers server.server_id s.buffers))
          else aborted
    ]
