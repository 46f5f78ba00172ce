-- ===== src/Tests.antt =====
-- A small queue of 64 bytes to run: one publisher, and one subscriber that has just joined.
pub mod Witnesses
pub mod Overlaps
pub mod Runs
pub mod Outside
pub mod Frames
pub mod Releases
pub mod Meeting
pub mod Devices
pub mod Lapping
use msgq.Words.{align, pack64, higher, lower, signed_le_zero, int_of}
use msgq.Stream.Session.{reply, cons_reply, session, mailbox}
use msgq.Stream.Mailbox.{pick}
use msgq.Publisher.{
  clear_slots, init_publisher, invalidate, is_beyond, is_inside, notify, wrap_around, put_message,
  write_message, send, all_updated_from, all_readers_updated,
}
use msgq.Memory.{write_bytes, read_bytes, to_bytes, of_bytes, write64, read64}
use msgq.Subscriber.Joining.{joined}
use msgq.Subscriber.{
  reset_slot, reset_reader, evict_slots, evict_all, claim_slot, subscribe, init_subscriber, passes,
  reconnect, ready_at, ready_pass, ready, msg_init_size, msg_close, set_pointer, copy_message,
  take_tagged, take_next, recv_at, recv_pass, recv, Os, Reader,
}
use msgq.Queue.{thread_signal, Segment, Queue, message}
use msgq.Base.{true, false, [], negsuc, ℕ}

abbrev pub blank : Segment
blank = record {
  num_readers = 0;
  write_pointer = 0;
  write_uid = 0;
  read_pointers = λ i. 0;
  read_valids = λ i. 0;
  read_uids = λ i. 0;
  bytes = λ a. 0;
  signals = [];
}

abbrev pub handle : Queue
handle = record {
  mapped = true;
  size = 64;
  reader_id = negsuc 0;
  read_uid_local = 0;
  write_uid_local = 0;
  read_conflate = false;
  endpoint = "test_queue";
}

abbrev pub os : Os
os = record { uid = 9; alloc = λ n. true }

abbrev pub publisher : Queue
publisher = record handle { write_uid_local = 7 }

-- what `msgq_init_publisher` leaves
abbrev pub started : Segment
started = record blank { write_uid = 7 }

-- what `msgq_init_subscriber` leaves, for the identity 9
abbrev pub reader : Reader
reader = record {
  handle = joined 9 0 (record { queue = handle; segment = started });
  msg = message [];
}

-- Unfolding this runs the whole model of msgq/msgq.cc.
unfoldable pub runnable : Unit {0}
unfolding align signed_le_zero lower higher pack64 int_of read64 of_bytes read_bytes write64
    to_bytes write_bytes thread_signal clear_slots init_publisher invalidate is_beyond is_inside
    notify wrap_around put_message write_message send all_updated_from all_readers_updated
    reset_slot reset_reader evict_slots evict_all claim_slot subscribe init_subscriber passes
    reconnect ready_at ready_pass ready msg_init_size msg_close set_pointer copy_message take_tagged
    take_next recv_at recv_pass recv session reply cons_reply mailbox pick
runnable = tt
