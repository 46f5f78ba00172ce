-- ===== src/Vision/FrameIds.antt =====
-- The frame id behind the data of a buffer of msgq/visionipc/visionbuf.cc.
use msgq.Vision.{VisionBuf, allocate, get_frame_id, set_frame_id}
use msgq.Memory.Laws.{read64-write64, write64_outside}
use msgq.Memory.{Memory}
use msgq.Base.{◌+◌, ◌^◌, ◌<◌, ◌≡◌, inl, arith, ℕ}

-- In a buffer that was allocated with a size that leaves room for the id in 64 bits, the id that
-- was set is the id that is got, no byte of the data changes, and the mapping ends behind the id.
frame_id_behind :
    (fd size id : ℕ) (new : VisionBuf) (mem : Memory)
    → size + 8 < 2 ^ 64
    → id < 2 ^ 64
    → let buf = allocate fd size new in
      (get_frame_id buf (set_frame_id id buf mem) ≡ id)
      × ((a : ℕ) → a < size → set_frame_id id buf mem a ≡ mem a)
      × (buf.mmap_len ≡ buf.len + 8)
unfolding allocate get_frame_id set_frame_id
frame_id_behind fd size id new mem room small = (
  read64-write64 mem size id small,
  λ a below. write64_outside mem size id a (inl below),
  omega (arith, room),
)
