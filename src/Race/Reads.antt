-- ===== src/Race/Reads.antt =====
-- A pass of `msgq_msg_recv` of msgq/msgq.cc from its unpacking of the pointers on, a shared access at
-- a time.
use msgq.Words.{u32, u64, align, pack64, higher, lower, signed_le_zero}
use msgq.Queue.{Segment}
use msgq.Memory.{read64}
use msgq.Base.{
  zero, suc, ◌+◌, ◌-◌, ◌^◌, Bool, not, ◌&&◌, ◌||◌, List, [], ◌∷◌, ◌++◌, length, leb, ◌==◌,
  if◌then◌else◌, update, ℕ,
}

-- its local variables: the unpacked read pointer, and the low half of the write pointer
pub record Spot : Type 0 where
  pub cycles : ℕ
  pub place : ℕ
  pub writer : ℕ

-- How the pass ends: nothing to read, the flag found cleared, the pointer moved for another pass, a
-- failed assertion, no memory for so many bytes, or the message.
pub data Ending : Type 0 where
  empty : Ending
  lost : Ending
  skipped : Ending
  asserted : Ending
  no_memory : ℕ → Ending
  received : List ℕ → Ending

-- Where the reader stands: before the load of the pointers, the load of the size, the first load of
-- the flag, the store of a pointer that ends the pass, the copy (of so many bytes still, behind
-- those copied), the store of the new pointer, and the second load of the flag.
pub data Reading : Type 0 where
  loading : Reading
  measuring : Spot → Reading
  checking : ℕ → Spot → Reading
  skipping : ℕ → Reading
  copying : ℕ → List ℕ → Spot → Reading
  storing : List ℕ → Spot → Reading
  rechecking : List ℕ → Reading
  ended : Ending → Reading

-- What the pass knows beside the shared memory: the slot, the size of the queue, the mode, and the
-- allocator.
pub record Setting : Type 0 where
  pub id : ℕ
  pub size : ℕ
  pub conflate : Bool
  pub alloc : ℕ → Bool

-- `new_read_pointer`
abbrev pub next_place : ℕ → Spot → ℕ
next_place size l = u32 (align (u64 (l.place + 8 + size)))

-- from the first test of the flag to the copy
unfoldable pub judge : Setting → ℕ → ℕ → Spot → Reading
judge c flag size l =
    if flag == 0
    then ended lost
    else if size == 2 ^ 64 - 1
    then skipping (pack64 (u32 (l.cycles + 1)) 0)
    else if leb c.size size || signed_le_zero size
    then ended asserted
    else if c.conflate && not (next_place size l == l.writer)
    then skipping (pack64 l.cycles (next_place size l))
    else if c.alloc size
    then copying size [] l
    else ended (no_memory size)

abbrev pub move_pointer : ℕ → ℕ → Segment → Segment
move_pointer id packed s = record s { read_pointers = update s.read_pointers id packed }

-- One step of the reader. The first loads both pointers: nobody else stores the reader's own.
unfoldable pub read_step : Setting → Segment → Reading → Segment × Reading
read_step c s loading =
    let l : Spot = record {
      cycles = higher (s.read_pointers c.id);
      place = lower (s.read_pointers c.id);
      writer = lower s.write_pointer;
    } in
    (s, if l.place == l.writer then ended empty else measuring l)
read_step c s (measuring l) = (s, checking (read64 s.bytes l.place) l)
read_step c s (checking size l) = (s, judge c (s.read_valids c.id) size l)
read_step c s (skipping packed) = (move_pointer c.id packed s, ended skipped)
read_step c s (copying zero got l) = (s, storing got l)
read_step c s (copying (suc n) got l) =
    (s, copying n (got ++ s.bytes (l.place + 8 + length got) ∷ []) l)
read_step c s (storing got l) =
    (move_pointer c.id (pack64 l.cycles (next_place (length got) l)) s, rechecking got)
read_step c s (rechecking got) =
    (s, if s.read_valids c.id == 0 then ended lost else ended (received got))
read_step c s (ended o) = (s, ended o)
