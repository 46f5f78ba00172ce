-- ===== src/Publisher.antt =====
-- The writing side of msgq/msgq.cc: `msgq_init_publisher`, `msgq_msg_send` and
-- `msgq_all_readers_updated`.

pub mod Loops
pub mod Steps
pub mod Bounds
pub mod Updated
use msgq.Base.{
  ℕ, zero, suc, ◌+◌, ◌-◌, ◌*◌, ◌^◌, Bool, true, false, not, ◌&&◌, Option, none, some, ℤ, negsuc,
  ltb, leb, ◌==◌, if◌then◌else◌, update, take,
}
use msgq.Words.{u32, u64, align, pack64, higher, lower, signed_le_zero, int_of}
use msgq.Memory.{write_bytes, write64}
use msgq.Queue.{Segment, Queue, Msg, Run, done, aborted, max_readers, thread_signal}

-- the loop of `msgq_init_publisher` over the first `n` slots
unfoldable pub clear_slots : ℕ → Segment → Segment
clear_slots zero s = s
clear_slots (suc n) s =
    let t = clear_slots n s in
    record t { read_valids = update t.read_valids n 0; read_uids = update t.read_uids n 0 }

-- `msgq_init_publisher`, given what `msgq_get_uid` returns.
unfoldable pub init_publisher : ℕ → Queue → Segment → Queue × Segment
init_publisher uid q s = (
  record q { write_uid_local = uid },
  clear_slots max_readers (record s { write_uid = uid; num_readers = 0 }),
)

-- A loop of `msgq_msg_send` that clears the flag of each of the first `n` readers whose packed
-- read pointer passes the test.
unfoldable pub invalidate : (ℕ → Bool) → ℕ → Segment → Segment
invalidate doomed zero s = s
invalidate doomed (suc n) s =
    let t = invalidate doomed n s in
    if doomed (t.read_pointers n) then record t { read_valids = update t.read_valids n 0 } else t

-- the test of the first loop: beyond the write pointer, in another cycle
unfoldable pub is_beyond : ℕ → ℕ → ℕ → Bool
is_beyond write_pointer write_cycles pointer =
    ltb write_pointer (lower pointer) && not (higher pointer == write_cycles)

-- the test of the second loop: in the area that will be written, in another cycle
unfoldable pub is_inside : ℕ → ℕ → ℕ → ℕ → Bool
is_inside start end write_cycles pointer =
    leb start (lower pointer) && ltb (lower pointer) end && not (higher pointer == write_cycles)

-- the last loop of `msgq_msg_send`
unfoldable pub notify : ℕ → Segment → Segment
unfolding thread_signal
notify zero s = s
notify (suc n) s = let t = notify n s in thread_signal (t.read_uids n) t

-- `total_msg_size`
abbrev pub total_size : ℕ → ℕ
total_size size = align (u64 (size + 8))

-- `remaining_space`, as its 64-bit pattern
abbrev pub remaining_space : ℕ → ℕ → ℕ → ℕ
remaining_space size write_pointer total = u64 (size + 3 * 2 ^ 64 - write_pointer - total - 8)

-- the wrap-around branch: tag, invalidation, next cycle
unfoldable pub wrap_around : ℕ → ℕ → Segment → Segment
wrap_around write_cycles write_pointer s =
    let tagged = record s { bytes = write64 s.bytes write_pointer (2 ^ 64 - 1) } in
    let t = invalidate (is_beyond write_pointer write_cycles) s.num_readers tagged in
    record t { write_pointer = pack64 (u32 (write_cycles + 1)) 0 }

-- the rest of `msgq_msg_send`: invalidation, size tag, data, write pointer, signals
unfoldable pub put_message : Msg → ℕ → ℕ → Segment → Segment
put_message msg write_cycles write_pointer s =
    let end = align (u64 (write_pointer + 8 + msg.size)) in
    let t = invalidate (is_inside write_pointer end write_cycles) s.num_readers s in
    let sized = write64 t.bytes write_pointer msg.size in
    let filled = write_bytes sized (write_pointer + 8) (take msg.size msg.content) in
    let new_pointer = u32 (align (u64 (write_pointer + msg.size + 8))) in
    notify s.num_readers
      (record t { bytes = filled; write_pointer = pack64 write_cycles new_pointer })

-- both branches on the remaining space
unfoldable pub write_message : ℕ → Msg → Segment → Segment
write_message size msg s =
    let cycles = higher s.write_pointer in
    let pointer = lower s.write_pointer in
    if signed_le_zero (remaining_space size pointer (total_size msg.size))
    then put_message msg (u32 (cycles + 1)) 0 (wrap_around cycles pointer s)
    else put_message msg cycles pointer s

-- What a send leaves: the value returned, `errno` if it was set, and the segment.
pub data Errno : Type 0 where
  addr_in_use : Errno

pub record Sent : Type 0 where
  pub rc : ℤ
  pub errno : Option Errno
  pub segment : Segment

-- `msgq_msg_send`
unfoldable pub send : Msg → Queue → Segment → Run Sent
send msg q s =
    if not (q.write_uid_local == s.write_uid)
    then done (record { rc = negsuc 0; errno = some addr_in_use; segment = s })
    else if leb (u64 (3 * total_size msg.size)) q.size
    then done (record { rc = int_of msg.size; errno = none; segment = write_message q.size msg s })
    else aborted

-- the loop of `msgq_all_readers_updated`, over the slots from `i` up, `n` of them
unfoldable pub all_updated_from : ℕ → ℕ → Segment → Bool
all_updated_from zero i s = true
all_updated_from (suc n) i s =
    let rest = all_updated_from n (i + 1) s in
    if not (s.read_valids i == 0) && not (s.write_pointer == s.read_pointers i) then false else rest

-- `msgq_all_readers_updated`
unfoldable pub all_readers_updated : Segment → Bool
all_readers_updated s =
    let rest = ltb 0 s.num_readers in if all_updated_from s.num_readers 0 s then rest else false
