-- ===== src/Tests/Lapping.antt =====
-- Readers that the writer of a queue of 64 bytes has lapped exactly.
use msgq.Words.{pack64, lower, int_of}
use msgq.Tests.Witnesses.{segment, fits, first}
use msgq.Tests.{os, reader, runnable}
use msgq.Subscriber.{Handle, ready, Reader, recv}
use msgq.Stream.Session.{with_segment}
use msgq.Stream.Receiving.{Attached}
use msgq.Stream.Lapped.{lapped_skips}
use msgq.Stream.Answers.{Stalled-silence}
use msgq.Stream.{Behind, Stalled}
use msgq.Queue.{message, done}
use msgq.Publisher.Steps.{slot}
use msgq.Publisher.Bounds.{WriterOk}
use msgq.Publisher.{write_message}
use msgq.Memory.{Memory, write_bytes, write64}
use msgq.Base.{◌+◌, ◌-◌, ◌^◌, ◌≤◌, ◌<◌, ◌≡◌, refl, inr, List, [], ◌∷◌, arith, pos, ℕ}

-- a reader in its first cycle with the writer at its place a cycle later
abbrev lapped_reader : Reader
lapped_reader = record {
  handle = record {
    queue = reader.handle.queue;
    segment = record segment { write_pointer = pack64 1 48; read_pointers = λ i. pack64 0 48 };
  };
  msg = message [];
}

lapped-Attached : Attached lapped_reader.handle 0
lapped-Attached = record { is_reader = refl; owned = refl; valid = λ e. omega arith }

lapped-Stalled : Stalled lapped_reader.handle.segment 0
unfolding runnable
lapped-Stalled = (refl, λ e. omega arith)

lapped_writable : WriterOk 64 lapped_reader.handle.segment
unfolding runnable
lapped_writable = record { small = omega arith; aligned = refl; room = omega arith }

lapped_at_end : 64 ≤ lower lapped_reader.handle.segment.write_pointer + slot 2 + 8
unfolding runnable
lapped_at_end = omega arith

-- three messages of one byte from the start of the buffer, and a tag behind them
abbrev wrapped_bytes : Memory
wrapped_bytes =
    write_bytes (write64 (write64 (write64 (write64 (λ a. 0) 0 1) 16 1) 32 1) 48 (2 ^ 64 - 1)) 8
      (5 ∷ [])

abbrev starved_reader : Reader
starved_reader =
    with_segment (record (lapped_reader.handle.segment) { bytes = wrapped_bytes }) lapped_reader

abbrev unread : List (List ℕ)
unread = (5 ∷ []) ∷ (0 ∷ []) ∷ (0 ∷ []) ∷ []

starved-Attached : Attached starved_reader.handle 0
starved-Attached = record { is_reader = refl; owned = refl; valid = λ e. omega arith }

starved-Stalled : Stalled starved_reader.handle.segment 0
unfolding runnable
starved-Stalled = (refl, λ e. omega arith)

starved-Behind : Behind 64 starved_reader.handle.segment 0 unread
unfolding runnable
starved-Behind = record {
  old = [];
  new = unread;
  last = 48;
  cycles = refl;
  aligned = refl;
  split = refl;
  chain_old = refl;
  tag = refl;
  tag_in = omega arith;
  chain_new = (
    omega arith,
    omega arith,
    refl,
    refl,
    (omega arith, omega arith, refl, refl, (omega arith, omega arith, refl, refl, refl)),
  );
  below = omega arith;
}

starved_ahead : 0 < lower starved_reader.handle.segment.write_pointer
unfolding runnable
starved_ahead = omega arith

Stalled-silence_example :
    (m : List ℕ) × (rest : List (List ℕ)) × (unread ≡ m ∷ rest)
    × (ready os starved_reader.handle ≡ done (pos 0, starved_reader.handle))
    × (recv os starved_reader
        ≡ done (pos 0, record starved_reader { msg = record (message []) { size = 0 } }))
Stalled-silence_example =
    Stalled-silence os 0 starved_reader unread starved-Attached
      (inr (starved-Behind, starved_ahead)) starved-Stalled

-- the stalled reader, and a message that does not fit behind the write pointer
lapped_skips_example :
    let t = write_message 64 (message first) lapped_reader.handle.segment in
    (t.read_valids 0 ≡ 1)
    × ((h : Handle) × (recv os (with_segment t lapped_reader)
          ≡ done (int_of 2, record { handle = h; msg = message first })))
lapped_skips_example =
    lapped_skips os 0 first lapped_reader (omega arith) (omega arith) refl lapped-Attached
      lapped_writable lapped-Stalled (fits 2 (omega arith)) lapped_at_end
