-- ===== src/Race/Writes.antt =====
-- `msgq_msg_send` of msgq/msgq.cc from its check of the remaining space on, a shared access at a
-- time.
use msgq.Words.{u32, u64, align, pack64, higher, lower, signed_le_zero}
use msgq.Queue.{Segment, Msg, thread_signal}
use msgq.Publisher.{is_beyond, is_inside, total_size, remaining_space}
use msgq.Memory.{write64}
use msgq.Base.{◌+◌, ◌-◌, ◌^◌, List, [], ◌∷◌, take, ltb, if◌then◌else◌, update, ℕ}

-- its local variables; `p` is `pointer` past the base address
pub record Send : Type 0 where
  pub msg : Msg
  pub readers : ℕ
  pub cycles : ℕ
  pub pointer : ℕ

-- `end`
abbrev pub end_of : Send → ℕ
end_of f = align (u64 (f.pointer + 8 + f.msg.size))

-- Where the writer stands: before the store of the tag, the two accesses of the first loop, the
-- store of the new cycle, the two accesses of the second loop, the store of the size, the copy (of
-- the bytes left, from an address on), the store of the write pointer, and the load of the last
-- loop.
pub data Writing : Type 0 where
  idle : Writing
  tagging : Send → Writing
  sweeping_beyond : ℕ → Send → Writing
  clearing_beyond : ℕ → Send → Writing
  turning : Send → Writing
  sweeping_inside : ℕ → Send → Writing
  clearing_inside : ℕ → Send → Writing
  sizing : Send → Writing
  filling : ℕ → List ℕ → Send → Writing
  publishing : Send → Writing
  notifying : ℕ → Send → Writing

-- The loads at the head of a send, of what nobody else stores meanwhile, and the test of the
-- remaining space.
unfoldable pub begin_send : ℕ → Msg → Segment → Writing
begin_send size msg s =
    let f : Send = record {
      msg = msg;
      readers = s.num_readers;
      cycles = higher s.write_pointer;
      pointer = lower s.write_pointer;
    } in
    if signed_le_zero (remaining_space size f.pointer (total_size msg.size))
    then tagging f
    else sweeping_inside 0 f

-- the flag of a reader is cleared
abbrev pub clear_flag : ℕ → Segment → Segment
clear_flag i s = record s { read_valids = update s.read_valids i 0 }

-- One step of the writer.
unfoldable pub write_step : Segment → Writing → Segment × Writing
write_step s idle = (s, idle)
write_step s (tagging f) =
    (record s { bytes = write64 s.bytes f.pointer (2 ^ 64 - 1) }, sweeping_beyond 0 f)
write_step s (sweeping_beyond i f) = (
  s,
  if ltb i f.readers
      then (if is_beyond f.pointer f.cycles (s.read_pointers i)
          then clearing_beyond i f
          else sweeping_beyond (i + 1) f)
      else turning f,
)
write_step s (clearing_beyond i f) = (clear_flag i s, sweeping_beyond (i + 1) f)
write_step s (turning f) =
    let cycles = u32 (f.cycles + 1) in
    (
      record s { write_pointer = pack64 cycles 0 },
      sweeping_inside 0 (record f { cycles = cycles; pointer = 0 }),
    )
write_step s (sweeping_inside i f) = (
  s,
  if ltb i f.readers
      then (if is_inside f.pointer (end_of f) f.cycles (s.read_pointers i)
          then clearing_inside i f
          else sweeping_inside (i + 1) f)
      else sizing f,
)
write_step s (clearing_inside i f) = (clear_flag i s, sweeping_inside (i + 1) f)
write_step s (sizing f) = (
  record s { bytes = write64 s.bytes f.pointer f.msg.size },
  filling (f.pointer + 8) (take f.msg.size f.msg.content) f,
)
write_step s (filling p [] f) = (s, publishing f)
write_step s (filling p (x ∷ xs) f) =
    (record s { bytes = update s.bytes p x }, filling (p + 1) xs f)
write_step s (publishing f) = (
  record s { write_pointer = pack64 f.cycles (u32 (align (u64 (f.pointer + f.msg.size + 8)))) },
  notifying 0 f,
)
write_step s (notifying i f) =
    if ltb i f.readers then (thread_signal (s.read_uids i) s, notifying (i + 1) f) else (s, idle)
