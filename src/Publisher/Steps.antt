-- ===== src/Publisher/Steps.antt =====
-- `msgq_msg_send` in closed form: what each branch leaves in the segment, once the 64-bit
-- arithmetic is known not to wrap.
use msgq.Memory.Laws.{write64_outside, write_bytes_outside}
use msgq.Memory.{write_bytes, Memory, write64}
use native.Mathlib.Nat.{mod-eq_of_lt}
use msgq.Base.{
  ◌∙◌, length-take-le, ◌⊎◌, arith, leb, ◌≤◌, take, ◌-◌, ◌^◌, ◌++◌, ◌%◌, ◌+◌, ◌<◌, ◌≡◌, ℕ,
}
use msgq.Words.{align_bounds, u32, u64, signed_le_zero, pack64, align}
use msgq.Queue.{Segment, Msg}
use msgq.Publisher.{remaining_space, wrap_around, put_message, is_inside, is_beyond}
use msgq.Publisher.Loops.{masked, thread_ids, invalidate_lem, notify_lem}

-- the room that a message of `n` bytes takes, its size tag included
abbrev pub slot : ℕ → ℕ
slot n = align (n + 8)

pub slot_bounds : (n : ℕ) → n < 2 ^ 62 → (n + 8 ≤ slot n) × (slot n < n + 16) × (slot n % 8 ≡ 0)
slot_bounds n h = omega (arith, align_bounds (n + 8) (omega arith))

-- Both ways in which the code computes where the next message starts.
pub next_slot :
    (p n : ℕ)
    → p % 8 ≡ 0
    → p + slot n < 2 ^ 32
    → n < 2 ^ 62
    → (align (u64 (p + 8 + n)) ≡ p + slot n) × (align (u64 (p + n + 8)) ≡ p + slot n)
unfolding align
next_slot p n aligned fits small = omega arith

-- The test for a wrap-around, without the 64-bit arithmetic.
pub remaining_space_lem :
    (size p total : ℕ)
    → size < 2 ^ 32
    → p < 2 ^ 32
    → total < 2 ^ 33
    → signed_le_zero (remaining_space size p total) ≡ leb size (p + total + 8)
unfolding signed_le_zero
remaining_space_lem size p total hs hp ht = ground arith

-- the bytes after a message is written at `p`
abbrev pub stored : ℕ → Msg → Memory → Memory
stored p msg mem = write_bytes (write64 mem p msg.size) (p + 8) (take msg.size msg.content)

-- The plain write: the readers inside the area lose their flag, the message is stored, the
-- write pointer moves on, and the threads are signalled.
abbrev pub put : Msg → ℕ → ℕ → Segment → Segment
put msg cycles p s = record s {
  bytes = stored p msg s.bytes;
  write_pointer = pack64 cycles (p + slot msg.size);
  read_valids = masked (is_inside p (p + slot msg.size) cycles) s.num_readers s;
  signals = s.signals ++ thread_ids s.read_uids s.num_readers;
}

pub put_message_lem :
    (msg : Msg) (cycles p : ℕ) (s : Segment)
    → p % 8 ≡ 0
    → p + slot msg.size < 2 ^ 32
    → msg.size < 2 ^ 62
    → put_message msg cycles p s ≡ put msg cycles p s
unfolding put_message
put_message_lem msg cycles p s aligned fits small =
    let (end, new) = next_slot p msg.size aligned fits small in
    rw (end, new, mod-eq_of_lt fits, notify_lem, invalidate_lem)

-- the wrap-around branch
abbrev pub wrapped : ℕ → ℕ → Segment → Segment
wrapped cycles p s = record s {
  bytes = write64 s.bytes p (2 ^ 64 - 1);
  write_pointer = pack64 (u32 (cycles + 1)) 0;
  read_valids = masked (is_beyond p cycles) s.num_readers s;
}

pub wrap_around_lem : (cycles p : ℕ) (s : Segment) → wrap_around cycles p s ≡ wrapped cycles p s
unfolding wrap_around
wrap_around_lem cycles p s = rw invalidate_lem

-- Nothing changes outside the slot of the message.
pub stored_outside :
    (p : ℕ) (msg : Msg) (mem : Memory) (a : ℕ)
    → msg.size < 2 ^ 62
    → ((a < p) ⊎ (p + slot msg.size ≤ a))
    → stored p msg mem a ≡ mem a
stored_outside p msg mem a small h =
    write_bytes_outside (write64 mem p msg.size) (p + 8) (take msg.size msg.content) a
      (ground (arith, slot_bounds msg.size small, length-take-le msg.size msg.content))
    ∙ write64_outside mem p msg.size a (ground (arith, slot_bounds msg.size small))
