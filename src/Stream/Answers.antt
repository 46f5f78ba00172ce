-- ===== src/Stream/Answers.antt =====
-- What `msgq_msg_recv` and `msgq_msg_ready` answer a reader that follows the writer, and one to
-- whose place the writer has come round.
use msgq.Words.{lower}
use msgq.Subscriber.{ready_at, Os, Handle, ready_pass, ready, Reader, recv_pass, recv, finish}
use msgq.Stream.Writing.{Behind-below}
use msgq.Stream.Refinement.{Chain-nonempty, receive-Same, receive-Behind}
use msgq.Stream.Receiving.{Attached, place_of, writer_place, recv_pass-Attached, take_next-empty}
use msgq.Stream.Mailbox.{pick}
use msgq.Stream.Delivery.{passes-finish, Got, CanRead}
use msgq.Stream.Chain.{Chain-le}
use msgq.Stream.{Behind, Tracking, Stalled}
use msgq.Queue.{Segment, done}
use msgq.Base.{
  ◌≢◌, ==_of_eq, ==_of_ne, ℤ, suc, ◌+◌, ◌*◌, ◌≤◌, ◌≡◌, refl, ap, ◌∙◌, inl, inr, List, [], ◌∷◌,
  arith, length, length-append, ◌==◌, if◌then◌else◌, pos, ℕ,
}

-- The pending messages of a reader a cycle behind fit the queue.
Behind-few :
    (size : ℕ) (s : Segment) (id : ℕ) (pending : List (List ℕ))
    → Behind size s id pending
    → 16 * length pending ≤ size
Behind-few size s id pending b = omega (
  arith,
  ap length b.split,
  length-append b.old b.new,
  Chain-le s.bytes (lower (s.read_pointers id)) b.old b.last b.chain_old,
  Chain-le s.bytes 0 b.new (lower s.write_pointer) b.chain_new,
  b.tag_in,
  b.below,
)

-- A reader that has messages to receive gets, in one call, what its mailbox promises: the oldest
-- one, or the latest if it conflates. The call returns the message's length, moves no more than
-- this reader's pointer, and leaves what the mailbox leaves. The writer must not stand at the
-- reader's place a cycle ahead, and memory for the message must be available.
pub recv_takes :
    (os : Os) (id : ℕ) (m : List ℕ) (rest : List (List ℕ)) (r : Reader)
    → CanRead os id r.handle
    → Tracking r.handle.queue.size r.handle.segment id (m ∷ rest)
    → ¬ Stalled r.handle.segment id
    → Got id r.handle
        (pick r.handle.queue.read_conflate m rest).0
        (pick r.handle.queue.read_conflate m rest).1
        (recv os r)
unfolding recv
recv_takes os id m rest r c (inl t) free = receive-Same os id m rest r _ c t (
    omega (
      arith,
      Chain-le r.handle.segment.bytes (place_of r.handle id) (m ∷ rest) (writer_place r.handle)
          t.chain,
      c.fine.room,
    ))
recv_takes os id m rest r c (inr (b, started)) free =
    receive-Behind os id b.old m rest r _ c b refl started
      (Behind-below r.handle.queue.size r.handle.segment id (m ∷ rest) b free)
      (omega (arith, Behind-few r.handle.queue.size r.handle.segment id (m ∷ rest) b))

-- A reader at the writer's place is told that there is nothing.
pub recv_at_place :
    (os : Os) (id : ℕ) (r : Reader)
    → Attached r.handle id
    → place_of r.handle id ≡ writer_place r.handle
    → recv os r ≡ done (pos 0, record r { msg = record (r.msg) { size = 0 } })
unfolding recv
recv_at_place os id r a e =
    let fuel : r.handle.queue.size + 8 ≡ suc (r.handle.queue.size + 7) = omega arith in
    rw fuel (
      passes-finish (recv_pass os) (r.handle.queue.size + 7) r _ (pos 0)
        (recv_pass-Attached os r id a ∙ take_next-empty os r id e))

empty-place :
    (size : ℕ) (s : Segment) (id : ℕ)
    → Tracking size s id []
    → ¬ Stalled s id
    → lower (s.read_pointers id) ≡ lower s.write_pointer
empty-place size s id (inl t) free = t.chain
empty-place size s id (inr (b, started)) free = absurd (
    omega (
      arith,
      ap length b.split,
      length-append b.old b.new,
      Chain-nonempty s.bytes b.new (lower s.write_pointer) b.chain_new started,
    ))

-- A reader with nothing to receive gets nothing: the call returns 0, empties the message, and
-- changes nothing else.
pub recv_empty :
    (os : Os) (id : ℕ) (r : Reader)
    → Attached r.handle id
    → Tracking r.handle.queue.size r.handle.segment id []
    → ¬ Stalled r.handle.segment id
    → recv os r ≡ done (pos 0, record r { msg = record (r.msg) { size = 0 } })
recv_empty os id r a t free =
    recv_at_place os id r a (empty-place r.handle.queue.size r.handle.segment id t free)

pub ready_pass-Attached :
    (os : Os) (id : ℕ) (h : Handle)
    → Attached h id
    → ready_pass os h
      ≡ (if place_of h id == writer_place h then finish (pos 0) h else finish (pos 1) h)
unfolding ready_pass ready_at
ready_pass-Attached os id h a = rw (a.is_reader, ==_of_eq _ _ a.owned, ==_of_ne _ _ a.valid)

pub ready_at_place :
    (os : Os) (id : ℕ) (h : Handle)
    → Attached h id
    → place_of h id ≡ writer_place h
    → ready os h ≡ done (pos 0, h)
unfolding ready
ready_at_place os id h a e =
    passes-finish (ready_pass os) 3 h h (pos 0)
      (ready_pass-Attached os id h a ∙ rw (==_of_eq (place_of h id) (writer_place h) e))

pub ready_elsewhere :
    (os : Os) (id : ℕ) (h : Handle)
    → Attached h id
    → place_of h id ≢ writer_place h
    → ready os h ≡ done (pos 1, h)
unfolding ready
ready_elsewhere os id h a ne =
    passes-finish (ready_pass os) 3 h h (pos 1)
      (ready_pass-Attached os id h a ∙ rw (==_of_ne (place_of h id) (writer_place h) ne))

-- what `msgq_msg_ready` should say of these pending messages
abbrev pub availability : List (List ℕ) → ℤ
availability [] = pos 0
availability (m ∷ rest) = pos 1

-- `msgq_msg_ready` is 1 exactly when a reader that follows the writer has a message to receive,
-- and it changes nothing. The writer must not stand at the reader's place a cycle ahead.
pub ready_tells :
    (os : Os) (id : ℕ) (h : Handle) (pending : List (List ℕ))
    → Attached h id
    → Tracking h.queue.size h.segment id pending
    → ¬ Stalled h.segment id
    → ready os h ≡ done (availability pending, h)
ready_tells os id h [] a t free =
    ready_at_place os id h a (empty-place h.queue.size h.segment id t free)
ready_tells os id h (m ∷ rest) a (inl t) free = ready_elsewhere os id h a (λ e.
    omega (arith, e, Chain-le h.segment.bytes (place_of h id) (m ∷ rest) (writer_place h) t.chain))
ready_tells os id h (m ∷ rest) a (inr (b, started)) free =
    ready_elsewhere os id h a
      (λ e. omega (arith, e, Behind-below h.queue.size h.segment id (m ∷ rest) b free))

-- the writer is a cycle ahead only of a reader that has messages to receive
Stalled-waiting :
    (size : ℕ) (s : Segment) (id : ℕ) (pending : List (List ℕ))
    → Tracking size s id pending
    → Stalled s id
    → (m : List ℕ) × (rest : List (List ℕ)) × (pending ≡ m ∷ rest)
Stalled-waiting size s id (m ∷ rest) t stalled = (m, rest, refl)
Stalled-waiting size s id [] (inl t) stalled = absurd (stalled.1 t.cycles)
Stalled-waiting size s id [] (inr (b, ahead)) stalled = absurd (
    omega (
      arith,
      ap length b.split,
      length-append b.old b.new,
      Chain-nonempty s.bytes b.new (lower s.write_pointer) b.chain_new ahead,
    ))

-- An attached reader that follows the writer, and to whose place the writer has come round a cycle
-- ahead: it has at least one message to receive, and yet ready and recv both tell it that there is
-- nothing, and leave it and the segment as they are, with the same messages to receive.
pub Stalled-silence :
    (os : Os) (id : ℕ) (r : Reader) (pending : List (List ℕ))
    → Attached r.handle id
    → Tracking r.handle.queue.size r.handle.segment id pending
    → Stalled r.handle.segment id
    → (m : List ℕ) × (rest : List (List ℕ)) × (pending ≡ m ∷ rest)
      × (ready os r.handle ≡ done (pos 0, r.handle))
      × (recv os r ≡ done (pos 0, record r { msg = record (r.msg) { size = 0 } }))
Stalled-silence os id r pending a t s =
    let (m, rest, some_message) =
      Stalled-waiting r.handle.queue.size r.handle.segment id pending t s in
    (m, rest, some_message, ready_at_place os id r.handle a s.0, recv_at_place os id r a s.0)
