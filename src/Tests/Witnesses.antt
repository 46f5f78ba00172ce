-- ===== src/Tests/Witnesses.antt =====
-- The theorems at inputs that meet their hypotheses.
use msgq.Publisher.Updated.{UpToDate, all_readers_updated_iff}
use msgq.Subscriber.Joining.{subscribe_claims, subscribe_retries, joined}
use msgq.Membership.Takeover.{init_publisher_takes_over}
use msgq.Membership.Recovery.{reset_here, invalidated_recovers, evicted_rejoins}
use msgq.Membership.{Claimed, subscribe-Fresh, Sane, Fresh, init_subscriber_total}
use msgq.Words.{align, higher, lower, int_of}
use msgq.Tests.{started, runnable, handle, os, publisher, reader}
use msgq.Subscriber.{subscribe, Handle, init_subscriber, ready, Reader, recv}
use msgq.Stream.Session.{Event, session, mailbox, KeepsUp, Connected, sends, receives, with_segment}
use msgq.Stream.Sending.{send-Follows, send_reaches_caught_up}
use msgq.Stream.Receiving.{Attached}
use msgq.Stream.Mailbox.{pick}
use msgq.Stream.Fifo.{session_refines, send-write_message}
use msgq.Stream.Delivery.{Got, CanRead}
use msgq.Stream.Chain.{Same-free}
use msgq.Stream.Answers.{recv_takes, ready_tells}
use msgq.Stream.{Same, Tracking, Stalled, Follows}
use msgq.Queue.{Queue, Msg, Segment, message, done}
use msgq.Publisher.Steps.{slot}
use msgq.Publisher.Bounds.{WriterOk, SameReaders, send_stays_inside}
use msgq.Publisher.{all_readers_updated, init_publisher, addr_in_use, write_message, Sent, send}
use msgq.Base.{
  ◌↔◌, true, ◌∙◌, zero, suc, ◌+◌, ◌≢◌, some, ltb, if◌then◌else◌, negsuc, ◌*◌, ◌≤◌, ◌<◌, ◌≡◌, refl,
  inl, inr, none, List, [], ◌∷◌, ◌++◌, arith, pos, ℕ,
}

abbrev pub segment : Segment
segment = reader.handle.segment

pub writable : WriterOk 64 segment
unfolding lower
writable = record { small = omega arith; aligned = refl; room = omega arith }

caught_up : Same segment 0 []
unfolding lower higher
caught_up = record { cycles = refl; aligned = refl; chain = refl }

attached : Attached reader.handle 0
attached = record { is_reader = refl; owned = refl; valid = λ e. omega arith }

pub fits : (n : ℕ) → n < 9 → 3 * slot n ≤ 64
unfolding align
fits n h = omega arith

-- the first message, and what sending it leaves
abbrev pub first : List ℕ
first = 1 ∷ 2 ∷ []

abbrev pub after_first : Segment
after_first = write_message 64 (message first) segment

abbrev first_sent : Sent
first_sent = record { rc = int_of 2; errno = none; segment = after_first }

pub sends_first : send (message first) publisher segment ≡ done first_sent
sends_first = send-write_message first publisher segment (omega arith) (fits 2 (omega arith)) refl

stayed :
    WriterOk 64 after_first
    × ((a : ℕ) → 64 ≤ a → after_first.bytes a ≡ segment.bytes a)
    × SameReaders segment after_first
stayed = send_stays_inside (message first) publisher segment (omega arith) writable sends_first

send_stays_inside_example :
    WriterOk 64 after_first
    × ((a : ℕ) → 64 ≤ a → after_first.bytes a ≡ segment.bytes a)
    × SameReaders segment after_first
send_stays_inside_example =
    send_stays_inside (message first) publisher segment (omega arith) writable sends_first

send-Follows_example : (int_of 2 ≡ pos 2) × Follows 64 after_first 0 ([] ++ first ∷ [])
send-Follows_example =
    send-Follows first publisher segment 0 [] (omega arith) (omega arith) writable (omega arith)
      (Same-free segment 0 [] caught_up) (inr (inl caught_up)) refl sends_first

-- the same, for what follows
pub reached :
    (after_first.read_valids 0 ≡ segment.read_valids 0)
    × Tracking 64 after_first 0 (first ∷ [])
    × ¬ Stalled after_first 0
reached =
    send_reaches_caught_up first publisher segment 0 (omega arith) (omega arith) writable
      (omega arith) (λ e. omega arith) caught_up refl sends_first

send_reaches_caught_up_example :
    (after_first.read_valids 0 ≡ segment.read_valids 0)
    × Tracking 64 after_first 0 (first ∷ [])
    × ¬ Stalled after_first 0
send_reaches_caught_up_example =
    send_reaches_caught_up first publisher segment 0 (omega arith) (omega arith) writable
      (omega arith) (λ e. omega arith) caught_up refl sends_first

-- the reader once the first message is sent
abbrev pub waiting : Reader
waiting = with_segment after_first reader

waiting-Attached : Attached waiting.handle 0
unfolding runnable
waiting-Attached = record { is_reader = refl; owned = refl; valid = λ e. omega arith }

pub can_read : CanRead os 0 waiting.handle
can_read = record { attached = waiting-Attached; fine = stayed.0; memory = λ n. refl }

recv_takes_example : Got 0 waiting.handle first [] (recv os waiting)
unfolding pick
recv_takes_example = recv_takes os 0 first [] waiting can_read reached.1 reached.2

ready_tells_example : ready os waiting.handle ≡ done (pos 1, waiting.handle)
ready_tells_example =
    ready_tells os 0 waiting.handle (first ∷ []) waiting-Attached reached.1 reached.2

connected : Connected os publisher 0 [] reader.handle
connected = record {
  reads = record { attached = attached; fine = writable; memory = λ n. refl };
  listed = omega arith;
  active = refl;
  same_size = refl;
  tracks = inl caught_up;
  free = Same-free segment 0 [] caught_up;
}

abbrev calls : List Event
calls =
    sends first ∷ receives ∷ sends (3 ∷ []) ∷ sends (4 ∷ []) ∷ receives ∷ receives ∷ receives ∷ []

keeps_up : KeepsUp os 0 calls reader
unfolding runnable
keeps_up = (
  omega arith,
  omega arith,
  omega arith,
  (λ e. omega (arith, e)),
  (λ f. omega (arith, f.0)),
  (
    omega arith,
    omega arith,
    omega arith,
    (λ e. omega (arith, e)),
    (λ f. omega (arith, f.0)),
    (omega arith, omega arith, omega arith, (λ e. omega (arith, e)), (λ f. omega (arith, f.0)), tt),
  ),
)

session_refines_example :
    session os publisher calls reader
    ≡ done (some first ∷ some (3 ∷ []) ∷ some (4 ∷ []) ∷ none ∷ [])
unfolding mailbox pick
session_refines_example = session_refines os publisher 0 calls [] reader connected keeps_up

-- another subscriber takes the slot in every round but the last
abbrev rival : ℕ → Segment → Segment
rival zero s = s
rival (suc n) s = record s {
  num_readers = if ltb s.num_readers 25 then s.num_readers + 1 else s.num_readers;
}

pub sane : (s : Segment) → s.num_readers ≤ 25 → s.write_pointer ≡ 0 → Sane s
unfolding lower
sane s few at = record { few = few; aligned = omega (arith, at) }

init_subscriber_total_example :
    (h : Handle) × (init_subscriber 9 (record { queue = handle; segment = started }) ≡ done h)
    × Fresh 9 h
init_subscriber_total_example =
    init_subscriber_total 9 (record { queue = handle; segment = started })
      (sane started (omega arith) refl)

abbrev invalidated : Reader
invalidated = record reader {
  handle = record (reader.handle) { segment = record segment { read_valids = λ i. 0 } };
}

invalidated_recovers_example :
    let h = reset_here 0 invalidated.handle in
    (recv os invalidated
      ≡ done (pos 0, record { handle = h; msg = record (message []) { size = 0 } }))
    × (ready os invalidated.handle ≡ done (pos 0, h))
    × Attached h 0
    × Same h.segment 0 []
invalidated_recovers_example =
    invalidated_recovers os 0 invalidated refl refl refl (sane started (omega arith) refl).aligned

-- the reader after a second publisher has started
abbrev evicted_reader : Reader
evicted_reader = record reader { handle = record (reader.handle) { segment = started } }

evicted_rejoins_example :
    (h : Handle) × (recv os evicted_reader
      ≡ done (pos 0, record { handle = h; msg = record (message []) { size = 0 } }))
    × (ready os evicted_reader.handle ≡ done (pos 0, h))
    × Fresh 9 h
evicted_rejoins_example =
    evicted_rejoins os 0 evicted_reader (sane started (omega arith) refl) refl (λ e. omega arith)

init_publisher_takes_over_example :
    let (q', s') = init_publisher 8 handle segment in
    (q'.write_uid_local ≡ s'.write_uid)
    × ((other : Queue) (msg : Msg)
        → other.write_uid_local ≢ 8
        → send msg other s'
          ≡ done (record { rc = negsuc 0; errno = some addr_in_use; segment = s' }))
    × (s'.num_readers ≡ 0)
    × ((id local : ℕ) → id < 25 → local ≢ 0 → local ≢ s'.read_uids id)
    × (s'.bytes ≡ segment.bytes)
    × (s'.write_pointer ≡ segment.write_pointer)
init_publisher_takes_over_example = init_publisher_takes_over 8 handle segment

rival-Sane : (n : ℕ) (s : Segment) → Sane s → Sane (rival n s)
rival-Sane zero s h = h
rival-Sane (suc n) s h = record { few = ground (arith, h.few); aligned = h.aligned }

-- The rival takes the first slot, and the subscriber the next.
beaten_once :
    subscribe rival 2 9 (record { queue = handle; segment = started })
    ≡ done (joined 9 1 (record { queue = handle; segment = record started { num_readers = 1 } }))
beaten_once =
    subscribe_retries rival 1 9 (record { queue = handle; segment = started }) (omega arith)
      (λ e. omega (arith, e))
    ∙ subscribe_claims rival 0 9
        (record { queue = handle; segment = record started { num_readers = 1 } }) (omega arith) refl

abbrev newcomer : Handle
newcomer = record { queue = handle; segment = started }

abbrev ended_up : Handle
ended_up = joined 9 1 (record { queue = handle; segment = record started { num_readers = 1 } })

subscribe-Fresh_example : Claimed rival 2 9 newcomer ended_up × Fresh 9 ended_up
subscribe-Fresh_example =
    subscribe-Fresh rival 2 9 (record { queue = handle; segment = started }) rival-Sane
      (sane started (omega arith) refl) beaten_once

all_readers_updated_iff_example :
    (all_readers_updated segment ≡ true) ↔ ((0 < 1) × ((i : ℕ) → i < 1 → UpToDate segment i))
all_readers_updated_iff_example = all_readers_updated_iff segment
