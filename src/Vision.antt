-- ===== src/Vision.antt =====
-- The data of msgq/visionipc: `VisionBuf` with its operations of msgq/visionipc/visionbuf.cc, and
-- the packets of msgq/visionipc/visionipc.h.
pub mod Channels
pub mod Names
pub mod FrameIds
pub mod Mapping
pub mod Device
pub mod Server
pub mod Client
pub mod Packets
pub mod Handover
pub mod Turns
pub mod Passing
pub mod Listener
pub mod Closing
pub mod Streams
use msgq.Words.{u64}
use msgq.Memory.{Memory, write64, read64, to_bytes, of_bytes}
use msgq.Base.{
  zero, suc, ◌+◌, ◌-◌, ◌^◌, Bool, true, false, not, List, [], ◌∷◌, ◌++◌, length, take, ◌==◌, ℤ, pos,
  ℕ,
}

-- `VISIONIPC_MAX_FDS`
abbrev pub max_fds : ℕ
max_fds = 128

-- `VISION_STREAM_LIST`
abbrev pub stream_list : ℕ
stream_list = 2 ^ 32 - 1

-- `VisionBuf`. The addresses in a process are left out; what the code stores behind an offset is
-- the offset.
pub record VisionBuf : Type 0 where
  pub len : ℕ
  pub mmap_len : ℕ
  pub fd : ℤ
  pub width : ℕ
  pub height : ℕ
  pub stride : ℕ
  pub uv_offset : ℕ
  pub server_id : ℕ
  pub idx : ℕ
  pub kind : ℕ
  pub handle : ℕ

-- the initialisers of the class
abbrev pub new_buf : VisionBuf
new_buf = record {
  len = 0;
  mmap_len = 0;
  fd = pos 0;
  width = 0;
  height = 0;
  stride = 0;
  uv_offset = 0;
  server_id = 0;
  idx = 0;
  kind = 0;
  handle = 0;
}

-- `VisionBuf::allocate`, given the descriptor of the new file: the frame id stands behind the data.
unfoldable pub allocate : ℕ → ℕ → VisionBuf → VisionBuf
allocate fd length buf = record buf { len = length; mmap_len = u64 (length + 8); fd = pos fd }

-- `VisionBuf::init_yuv`
unfoldable pub init_yuv : ℕ → ℕ → ℕ → ℕ → VisionBuf → VisionBuf
init_yuv width height stride uv_offset buf = record buf {
  width = width;
  height = height;
  stride = stride;
  uv_offset = uv_offset;
}

-- `VisionIpcBufExtra`
pub record Extra : Type 0 where
  pub frame_id : ℕ
  pub timestamp_sof : ℕ
  pub timestamp_eof : ℕ
  pub valid : Bool

-- `VisionIpcPacket`
pub record Packet : Type 0 where
  pub server_id : ℕ
  pub idx : ℕ
  pub extra : Extra

abbrev pub flag_byte : Bool → ℕ
flag_byte true = 1
flag_byte false = 0

-- The bytes of a packet in memory, which `VisionIpcServer::send` passes on as they are. The compiler
-- aligns each field to its size, and the whole to 8.
unfoldable pub to_packet_bytes : Packet → List ℕ
to_packet_bytes p =
    to_bytes 8 p.server_id
    ++ to_bytes 8 p.idx
    ++ to_bytes 4 p.extra.frame_id
    ++ (0 ∷ 0 ∷ 0 ∷ 0 ∷ [])
    ++ to_bytes 8 p.extra.timestamp_sof
    ++ to_bytes 8 p.extra.timestamp_eof
    ++ flag_byte p.extra.valid ∷ 0 ∷ 0 ∷ 0 ∷ 0 ∷ 0 ∷ 0 ∷ 0 ∷ []

-- `sizeof(VisionIpcPacket)`
abbrev pub packet_size : ℕ
packet_size = 48

abbrev drop {ℓ} : {A : Type ℓ} → ℕ → List A → List A
drop zero xs = xs
drop (suc n) [] = []
drop (suc n) (x ∷ xs) = drop n xs

-- a field of `n` bytes at an offset
abbrev field : ℕ → ℕ → List ℕ → ℕ
field p n bytes = of_bytes (take n (drop p bytes))

-- `(VisionIpcPacket*)r->getData()`
unfoldable pub of_packet_bytes : List ℕ → Packet
of_packet_bytes bytes = record {
  server_id = field 0 8 bytes;
  idx = field 8 8 bytes;
  extra = record {
    frame_id = field 16 4 bytes;
    timestamp_sof = field 24 8 bytes;
    timestamp_eof = field 32 8 bytes;
    valid = not (field 40 1 bytes == 0);
  };
}

-- `VisionBuf::get_frame_id` on the mapped bytes of the buffer
unfoldable pub get_frame_id : VisionBuf → Memory → ℕ
get_frame_id buf mem = read64 mem buf.len

-- `VisionBuf::set_frame_id`
unfoldable pub set_frame_id : ℕ → VisionBuf → Memory → Memory
set_frame_id id buf mem = write64 mem buf.len id
