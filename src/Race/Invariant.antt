-- ===== src/Race/Invariant.antt =====
-- What holds while a subscriber of msgq/msgq.cc is about to receive a message and a publisher sends,
-- as long as the subscriber's flag is set.
use msgq.Words.{higher, lower}
use msgq.Race.Writes.{
  Send, Writing, idle, tagging, sweeping_beyond, clearing_beyond, turning, sweeping_inside,
  clearing_inside, sizing, filling, publishing, notifying,
}
use msgq.Race.Reads.{Setting}
use msgq.Queue.{Segment}
use msgq.Publisher.Steps.{slot}
use msgq.Publisher.Bounds.{WriterOk}
use msgq.Memory.{Memory, read_bytes, read64}
use msgq.Base.{◌+◌, ◌-◌, ◌*◌, ◌%◌, ◌^◌, ◌≤◌, ◌<◌, ◌≡◌, ◌⊎◌, List, length, ℕ}

-- the message that the reader is about to receive, and where it lies
pub record Target : Type 0 where
  pub cycles : ℕ
  pub place : ℕ
  pub bytes : List ℕ

module _ (c : Setting) (t : Target) where
  -- the end of the message's slot
  abbrev pub last : ℕ
  last = t.place + slot (length t.bytes)

  -- the writer is in the reader's cycle, behind the message
  abbrev pub Ahead : ℕ → ℕ → Type 0
  Ahead cycles pointer = (cycles ≡ t.cycles) × (last ≤ pointer)

  -- the writer has wrapped around `n` times at most, and has not passed the reader
  abbrev pub Lapping : ℕ → ℕ → ℕ → Type 0
  Lapping n cycles pointer =
      (j : ℕ) × (1 ≤ j) × (j ≤ n) × (cycles ≡ (t.cycles + j) % 2 ^ 32) × (pointer ≤ t.place)

  abbrev pub Position : ℕ → ℕ → ℕ → Type 0
  Position n cycles pointer = Ahead cycles pointer ⊎ Lapping n cycles pointer

  -- the locals of a send that fits the queue, with the writer in position
  pub record Frame (n : ℕ) (f : Send) : Type 0 where
    pub listed : c.id < f.readers
    pub small : f.msg.size < 2 ^ 62
    pub fits : 3 * slot f.msg.size ≤ c.size
    pub aligned : f.pointer % 8 ≡ 0
    pub room : f.pointer + 8 ≤ c.size
    pub range : f.cycles < 2 ^ 32
    pub position : Position n f.cycles f.pointer

  -- a frame before the wrap-around, which is still to be counted
  abbrev pub Wrapping : ℕ → Send → Type 0
  Wrapping n f = (k : ℕ) × (k < n) × Frame k f

  -- a frame of a write that ends within the queue
  abbrev pub Fitting : ℕ → Send → Type 0
  Fitting n f = Frame n f × (f.pointer + slot f.msg.size + 8 ≤ c.size)

  -- what the two loops leave for a reader whose flag they left
  abbrev pub Unhit : Send → Type 0
  Unhit f = Ahead f.cycles f.pointer ⊎ (f.pointer ≡ t.place)

  abbrev pub Missed : Send → Type 0
  Missed f = Ahead f.cycles f.pointer ⊎ (f.pointer + slot f.msg.size ≤ t.place)

  abbrev pub Settled : ℕ → Segment → Type 0
  Settled n s = WriterOk c.size s × Position n (higher s.write_pointer) (lower s.write_pointer)

  abbrev pub WriterAt : ℕ → Segment → Writing → Type 0
  WriterAt n s idle = Settled n s
  WriterAt n s (tagging f) = Wrapping n f
  WriterAt n s (sweeping_beyond i f) = Wrapping n f × (c.id < i → Unhit f)
  WriterAt n s (clearing_beyond i f) = Wrapping n f × (c.id < i → Unhit f)
  WriterAt n s (turning f) = Wrapping n f × Unhit f
  WriterAt n s (sweeping_inside i f) = Fitting n f × (c.id < i → Missed f)
  WriterAt n s (clearing_inside i f) = Fitting n f × (c.id < i → Missed f)
  WriterAt n s (sizing f) = Fitting n f × Missed f
  WriterAt n s (filling p xs f) =
      Fitting n f × Missed f × (f.pointer + 8 ≤ p) × (p + length xs ≤ f.pointer + slot f.msg.size)
  WriterAt n s (publishing f) = Fitting n f × Missed f
  WriterAt n s (notifying i f) = Settled n s

  -- the bytes are there, and so is their size, or the tag of a wrap-around in its place
  pub record Intact (mem : Memory) : Type 0 where
    pub tag : (read64 mem t.place ≡ length t.bytes) ⊎ (read64 mem t.place ≡ 2 ^ 64 - 1)
    pub body : read_bytes mem (t.place + 8) (length t.bytes) ≡ t.bytes

  -- the reader stands at its message, and the message is safe from the writer
  pub record Held (n : ℕ) (s : Segment) (w : Writing) : Type 0 where
    pub listed : c.id < s.num_readers
    pub here_cycles : higher (s.read_pointers c.id) ≡ t.cycles
    pub here_place : lower (s.read_pointers c.id) ≡ t.place
    pub intact : Intact s.bytes
    pub at : WriterAt n s w

  -- A message of at most the size that a send lets through, at an aligned place in the queue.
  pub record Sensible : Type 0 where
    pub aligned : t.place % 8 ≡ 0
    pub some_bytes : 0 < length t.bytes
    pub object : length t.bytes < 2 ^ 31
    pub inside : last + 8 ≤ c.size
    pub small : c.size < 2 ^ 32
    pub range : t.cycles < 2 ^ 32

  abbrev pub Off : Segment → Type 0
  Off s = s.read_valids c.id ≡ 0
