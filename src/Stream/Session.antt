-- ===== src/Stream/Session.antt =====
-- A publisher and a subscriber of one segment, calling `msgq_msg_send` and `msgq_msg_recv` in any
-- order, against the mailbox.
use msgq.Subscriber.{Handle, Os, Reader, recv}
use msgq.Stream.Mailbox.{pick}
use msgq.Stream.Delivery.{CanRead}
use msgq.Stream.{Tracking, Stalled}
use msgq.Queue.{Segment, Queue, message, Run, done, aborted, spinning}
use msgq.Publisher.Steps.{slot}
use msgq.Publisher.{write_message, send}
use msgq.Base.{
  zero, suc, ◌*◌, ◌^◌, ◌≤◌, ◌<◌, ◌≡◌, ◌≢◌, Bool, Option, none, some, List, [], ◌∷◌, ◌++◌, length, ℤ,
  pos, negsuc, ℕ,
}

pub data Event : Type 0 where
  sends : List ℕ → Event
  receives : Event

-- what the caller of `msgq_msg_recv` sees: a message if the length returned is positive
unfoldable pub reply : ℤ → Reader → Option (List ℕ)
reply (pos zero) r = none
reply (pos (suc n)) r = some r.msg.content
reply (negsuc n) r = none

abbrev pub with_segment : Segment → Reader → Reader
with_segment s r = record r { handle = record (r.handle) { segment = s } }

unfoldable pub cons_reply :
    Option (List ℕ) → Run (List (Option (List ℕ))) → Run (List (Option (List ℕ)))
cons_reply o (done l) = done (o ∷ l)
cons_reply o aborted = aborted
cons_reply o spinning = spinning

-- The calls in order, with the replies to the receives.
unfoldable pub session : Os → Queue → List Event → Reader → Run (List (Option (List ℕ)))
session os publisher [] r = done []
session os publisher (sends m ∷ events) r = elim (send (message m) publisher r.handle.segment) [
  | done x ↦ session os publisher events (with_segment x.segment r)
  | aborted ↦ aborted
  | spinning ↦ spinning
]
session os publisher (receives ∷ events) r = elim (recv os r) [
  | done (rc, t) ↦ cons_reply (reply rc t) (session os publisher events t)
  | aborted ↦ aborted
  | spinning ↦ spinning
]

-- What the mailbox replies, from these pending messages on.
unfoldable pub mailbox : Bool → List Event → List (List ℕ) → List (Option (List ℕ))
mailbox conflate [] pending = []
mailbox conflate (sends m ∷ events) pending = mailbox conflate events (pending ++ m ∷ [])
mailbox conflate (receives ∷ events) [] = none ∷ mailbox conflate events []
mailbox conflate (receives ∷ events) (m ∷ rest) =
    let (n, left) = pick conflate m rest in some n ∷ mailbox conflate events left

-- the reader behind a receive
abbrev pub after_recv : Os → Reader → Reader
after_recv os r = elim (recv os r) [ done (rc, t) ↦ t | aborted ↦ r | spinning ↦ r ]

-- Every message is neither empty nor too long for the queue, and after each send the reader has
-- its flag, and the writer does not stand at its place a cycle ahead.
abbrev pub KeepsUp : Os → ℕ → List Event → Reader → Type 0
KeepsUp os id [] r = Unit {0}
KeepsUp os id (sends m ∷ events) r =
    let t = write_message r.handle.queue.size (message m) r.handle.segment in
    (0 < length m)
    × (length m < 2 ^ 31)
    × (3 * slot (length m) ≤ r.handle.queue.size)
    × (t.read_valids id ≢ 0)
    × (¬ Stalled t id)
    × KeepsUp os id events (with_segment t r)
KeepsUp os id (receives ∷ events) r = KeepsUp os id events (after_recv os r)

-- The subscriber in slot `id` and the publisher share a segment, and the reader follows.
pub record Connected (os : Os) (publisher : Queue) (id : ℕ) (pending : List (List ℕ)) (h : Handle)
    : Type 0 where
  pub reads : CanRead os id h
  pub listed : id < h.segment.num_readers
  pub active : publisher.write_uid_local ≡ h.segment.write_uid
  pub same_size : publisher.size ≡ h.queue.size
  pub tracks : Tracking h.queue.size h.segment id pending
  pub free : ¬ Stalled h.segment id
