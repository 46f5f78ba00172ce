-- ===== src/Stream.antt =====
-- What a reader of msgq/msgq.cc still has to receive, as a list of messages: the layout of the
-- ring buffer behind a read pointer.
pub mod Chain
pub mod Sending
pub mod Writing
pub mod Receiving
pub mod Mailbox
pub mod Moving
pub mod Refinement
pub mod Answers
pub mod Session
pub mod Fifo
pub mod Lapped
pub mod Delivery
use msgq.Base.{[], length, ◌<◌, ◌∷◌, ◌≤◌, ◌-◌, ◌^◌, ◌++◌, ◌≢◌, ◌+◌, ◌%◌, ◌⊎◌, List, ◌≡◌, ℕ}
use msgq.Words.{lower, higher, u32}
use msgq.Memory.{Memory, read_bytes, read64}
use msgq.Queue.{Segment}
use msgq.Publisher.Steps.{slot}

-- From `p` on to `e` the memory holds these messages, one behind the other, and no other.
abbrev pub Chain : Memory → ℕ → List (List ℕ) → ℕ → Type 0
Chain mem p [] e = p ≡ e
Chain mem p (m ∷ ms) e =
    (0 < length m)
    × (length m < 2 ^ 31)
    × (read64 mem p ≡ length m)
    × (read_bytes mem (p + 8) (length m) ≡ m)
    × Chain mem (p + slot (length m)) ms e

-- The reader is in the writer's cycle, and the messages lie between the two pointers.
pub record Same (s : Segment) (id : ℕ) (pending : List (List ℕ)) : Type 0 where
  pub cycles : higher (s.read_pointers id) ≡ higher s.write_pointer
  pub aligned : lower (s.read_pointers id) % 8 ≡ 0
  pub chain : Chain s.bytes (lower (s.read_pointers id)) pending (lower s.write_pointer)

-- The reader is one cycle behind: messages up to a wrap-around tag, then those from the start
-- of the buffer to the write pointer, which has not passed the reader.
pub record Behind (size : ℕ) (s : Segment) (id : ℕ) (pending : List (List ℕ)) : Type 0 where
  pub old : List (List ℕ)
  pub new : List (List ℕ)
  pub last : ℕ
  pub cycles : u32 (higher (s.read_pointers id) + 1) ≡ higher s.write_pointer
  pub aligned : lower (s.read_pointers id) % 8 ≡ 0
  pub split : pending ≡ old ++ new
  pub chain_old : Chain s.bytes (lower (s.read_pointers id)) old last
  pub tag : read64 s.bytes last ≡ 2 ^ 64 - 1
  pub tag_in : last + 8 ≤ size
  pub chain_new : Chain s.bytes 0 new (lower s.write_pointer)
  pub below : lower s.write_pointer ≤ lower (s.read_pointers id)

-- The messages that the reader in slot `id` has still to receive, in order. Between two sends
-- the writer has never just wrapped around: it has written a message behind the tag.
abbrev pub Tracking : ℕ → Segment → ℕ → List (List ℕ) → Type 0
Tracking size s id pending =
    Same s id pending ⊎ (Behind size s id pending × (0 < lower s.write_pointer))

-- The writer has come round to the very place of the reader.
abbrev pub Stalled : Segment → ℕ → Type 0
Stalled s id =
    (lower (s.read_pointers id) ≡ lower s.write_pointer)
    × (higher (s.read_pointers id) ≢ higher s.write_pointer)

-- The reader lost its flag, or has exactly these messages to receive.
abbrev pub Follows : ℕ → Segment → ℕ → List (List ℕ) → Type 0
Follows size s id pending = (s.read_valids id ≡ 0) ⊎ Tracking size s id pending
