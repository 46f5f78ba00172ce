-- ===== src/Publisher/Bounds.antt =====
-- `msgq_msg_send` keeps its write pointer aligned with room for a wrap-around tag, and writes
-- only inside the queue's bytes.
use msgq.Memory.Laws.{write64_outside}
use native.Mathlib.Decide.{dec_lt, ℕ_discrete}
use msgq.Base.{
  none, some, negsuc, ◌∙◌, ◌≢◌, inr, refl, leb, leb_of_le, leb_of_lt, arith, ◌%◌, ◌^◌, ◌≤◌, ◌<◌,
  ◌+◌, ◌*◌, ◌≡◌, ℕ,
}
use msgq.Words.{int_of, lower-pack64, signed_le_zero, u64, u32, higher, align, lower}
use msgq.Queue.{done, Queue, Segment, Msg}
use msgq.Publisher.{addr_in_use, Sent, send, remaining_space, total_size, write_message}
use msgq.Publisher.Steps.{
  slot_bounds, stored_outside, remaining_space_lem, wrap_around_lem, put_message_lem, slot, put,
  wrapped,
}

-- What the writer relies on: the size passes the assertion of `msgq_new_queue`, and a tag fits at
-- the write pointer.
pub record WriterOk (size : ℕ) (s : Segment) : Type 0 where
  pub small : size < 2 ^ 32
  pub aligned : lower s.write_pointer % 8 ≡ 0
  pub room : lower s.write_pointer + 8 ≤ size

-- The segment that the readers' part of is as it was.
pub record SameReaders (s t : Segment) : Type 0 where
  pub num_readers : t.num_readers ≡ s.num_readers
  pub write_uid : t.write_uid ≡ s.write_uid
  pub read_pointers : t.read_pointers ≡ s.read_pointers
  pub read_uids : t.read_uids ≡ s.read_uids

-- The assertion of `msgq_msg_send`, without the 64-bit arithmetic.
pub total_size_lem :
    (n : ℕ) → n < 2 ^ 62 → (total_size n ≡ slot n) × (u64 (3 * total_size n) ≡ 3 * slot n)
unfolding align
total_size_lem n h = omega arith

-- The test for a wrap-around, for a message that passed the assertion.
pub room_lem :
    (size p n : ℕ)
    → size < 2 ^ 32
    → p + 8 ≤ size
    → n < 2 ^ 62
    → slot n ≤ size
    → signed_le_zero (remaining_space size p (total_size n)) ≡ leb size (p + slot n + 8)
room_lem size p n small room hn fits =
    rw ((total_size_lem n hn).0)
      (remaining_space_lem size p (slot n) small (omega arith) (omega arith))

module _ (size : ℕ) (msg : Msg) (s : Segment) (w : WriterOk size s)
    (object : msg.size < 2 ^ 62) where
  -- There is room behind the write pointer: a plain write.
  pub write_message-fits :
      lower s.write_pointer + slot msg.size + 8 < size
      → write_message size msg s ≡ put msg (higher s.write_pointer) (lower s.write_pointer) s
  unfolding write_message
  write_message-fits h =
      rw
        (
          room_lem size (lower s.write_pointer) msg.size w.small w.room object (omega arith),
          leb_of_lt size (lower s.write_pointer + slot msg.size + 8) h,
        )
        (put_message_lem msg (higher s.write_pointer) (lower s.write_pointer) s w.aligned
          (omega (arith, w.small)) object)

  -- There is none: a wrap-around, then a write at the start.
  pub write_message-wraps :
      3 * slot msg.size ≤ size
      → size ≤ lower s.write_pointer + slot msg.size + 8
      → write_message size msg s
        ≡ put msg
            (u32 (higher s.write_pointer + 1))
            0
            (wrapped (higher s.write_pointer) (lower s.write_pointer) s)
  unfolding write_message
  write_message-wraps h k =
      rw
        (
          room_lem size (lower s.write_pointer) msg.size w.small w.room object (omega arith),
          leb_of_le size (lower s.write_pointer + slot msg.size + 8) k,
          wrap_around_lem,
        )
        (put_message_lem msg _ 0 _ refl (omega (arith, w.small)) object)

  -- After a write of either kind: the writer's invariant, the bytes outside, and the readers'
  -- part of the header.
  pub write_message-WriterOk : 3 * slot msg.size ≤ size → WriterOk size (write_message size msg s)
  write_message-WriterOk h = elim (dec_lt (lower s.write_pointer + slot msg.size + 8) size) [
    | yes lt ↦ rw (write_message-fits lt) (
        ground (
          arith,
          slot_bounds msg.size object,
          lower-pack64 (higher s.write_pointer) (lower s.write_pointer + slot msg.size),
        ))
    | no ge ↦ rw (write_message-wraps h (omega arith)) (
        ground (
          arith,
          slot_bounds msg.size object,
          lower-pack64 (u32 (higher s.write_pointer + 1)) (0 + slot msg.size),
        ))
  ]

  pub write_message_outside :
      3 * slot msg.size ≤ size → (a : ℕ) → size ≤ a → (write_message size msg s).bytes a ≡ s.bytes a
  write_message_outside h a out = elim (dec_lt (lower s.write_pointer + slot msg.size + 8) size) [
    | yes lt ↦
        rw (write_message-fits lt)
          (stored_outside (lower s.write_pointer) msg s.bytes a object (inr (omega arith)))
    | no ge ↦ rw (write_message-wraps h (omega arith)) (
        stored_outside 0 msg _ a object (inr (omega arith))
        ∙ write64_outside s.bytes (lower s.write_pointer) _ a (inr (omega (arith, w.room))))
  ]

  pub write_message-SameReaders :
      3 * slot msg.size ≤ size → SameReaders s (write_message size msg s)
  write_message-SameReaders h = elim (dec_lt (lower s.write_pointer + slot msg.size + 8) size) [
    | yes lt ↦
        rw (write_message-fits lt)
          (record { num_readers = refl; write_uid = refl; read_pointers = refl; read_uids = refl })
    | no ge ↦
        rw (write_message-wraps h (omega arith))
          (record { num_readers = refl; write_uid = refl; read_pointers = refl; read_uids = refl })
  ]

-- How a send that returns went.
pub data Outcome (msg : Msg) (q : Queue) (s : Segment) (r : Sent) : Type 0 where
  refused :
      q.write_uid_local ≢ s.write_uid
      → r ≡ record { rc = negsuc 0; errno = some addr_in_use; segment = s }
      → Outcome msg q s r
  sent :
      q.write_uid_local ≡ s.write_uid
      → 3 * slot msg.size ≤ q.size
      → r ≡ record { rc = int_of msg.size; errno = none; segment = write_message q.size msg s }
      → Outcome msg q s r

pub send-Outcome :
    (msg : Msg) (q : Queue) (s : Segment) {r : Sent}
    → msg.size < 2 ^ 62
    → send msg q s ≡ done r
    → Outcome msg q s r
unfolding send
send-Outcome msg q s object e = elim (ℕ_discrete q.write_uid_local s.write_uid) [
  | no ne ↦ refused ne (ground arith)
  | yes eq ↦ sent eq (ground (arith, total_size_lem msg.size object)) (ground arith)
]

-- Whatever `msgq_msg_send` returns, the write pointer stays aligned with room for a tag, no byte
-- beyond the queue's size changes, and the counters, identities and read pointers of the readers
-- are untouched. The queue's size is below 2^32, as `msgq_new_queue` asserts.
pub send_stays_inside :
    (msg : Msg) (q : Queue) (s : Segment) {r : Sent}
    → msg.size < 2 ^ 62
    → WriterOk q.size s
    → send msg q s ≡ done r
    → WriterOk q.size r.segment
      × ((a : ℕ) → q.size ≤ a → r.segment.bytes a ≡ s.bytes a)
      × SameReaders s r.segment
send_stays_inside msg q s {r} object w e = go (send-Outcome msg q s object e)
  where
    go :
        Outcome msg q s r
        → WriterOk q.size r.segment
          × ((a : ℕ) → q.size ≤ a → r.segment.bytes a ≡ s.bytes a)
          × SameReaders s r.segment
    go (refused ne eq) = rw eq (
      w,
      λ a out. refl,
      record { num_readers = refl; write_uid = refl; read_pointers = refl; read_uids = refl },
    )
    go (sent eq fits out) = rw out (
      write_message-WriterOk q.size msg s w object fits,
      write_message_outside q.size msg s w object fits,
      write_message-SameReaders q.size msg s w object fits,
    )
