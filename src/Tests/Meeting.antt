-- ===== src/Tests/Meeting.antt =====
-- The rendezvous of the fake mode at an input: two pipes that nobody interrupts, and a test that
-- releases the socket when it waits.
use msgq.Events.Choice.{not-below}
use msgq.Tests.Releases.{willing}
use msgq.Tests.Outside.{world, socket, waiting_process}
use msgq.Tests.{os}
use msgq.Sockets.{receive}
use msgq.Queue.{message}
use msgq.Fake.Sockets.{FakeMode, open_fake_fifo, open_fake_fifos, receive_in_mode}
use msgq.Fake.Rendezvous.{Waited, Pipes, receive_released, released}
use msgq.Fake.Names.{fifo_path}
use msgq.Fake.Handle.{EventState}
use msgq.Events.Drain.{WasRead, byte_written, bytes_read, pipe_empty}
use msgq.Events.{interrupted, Answer, Kernel, would_block, other, returned}
use msgq.Base.{
  zero, suc, ◌+◌, ◌<◌, ◌≡◌, refl, true, false, some, [], ◌∷◌, arith, ◌==◌, if◌then◌else◌, ℤ, pos,
  negsuc, ℕ,
}

-- the bytes in the pipe of a descriptor, 3 for `called` and any other for `release`
abbrev bytes_in : ℕ → ℕ × ℕ → ℕ
bytes_in fd w = if fd == 3 then w.0 else w.1

abbrev put_bytes : ℕ → ℕ → ℕ × ℕ → ℕ × ℕ
put_bytes fd l w = (if fd == 3 then l else w.0, if fd == 3 then w.1 else l)

-- a read takes one byte
abbrev read_one : ℕ → Answer × ℕ
read_one zero = (record { count = negsuc 0; errno = would_block }, 0)
read_one (suc l) = (record { count = pos 1; errno = other }, l)

abbrev at_least_one : ℕ → ℕ
at_least_one zero = 1
at_least_one (suc l) = suc l

-- a poll while there is no byte in `called` is only ever interrupted
abbrev when_called : ℕ → Answer
when_called zero = record { count = negsuc 0; errno = interrupted }
when_called (suc n) = record { count = pos 1; errno = other }

abbrev answered_byte : ℕ → ℕ → ℕ
answered_byte zero l = l
answered_byte (suc n) l = at_least_one l

abbrev descriptor : ℤ → ℕ
descriptor (pos fd) = fd
descriptor (negsuc n) = 0

abbrev two_pipes : Kernel (ℕ × ℕ)
two_pipes = record {
  write_one = λ fd w. (
    record { count = pos 1; errno = other },
    put_bytes (descriptor fd) (bytes_in (descriptor fd) w + 1) w,
  );
  read_some = λ fd w.
      let (got, l) = read_one (bytes_in (descriptor fd) w) in (got, put_bytes (descriptor fd) l w);
  poll_in = λ fds ms w. (when_called w.0, true ∷ [], (w.0, answered_byte w.0 w.1));
  now = λ w. 0;
}

read_one-WasRead : (l : ℕ) → let (got, m) = read_one l in WasRead l 0 got m 0
read_one-WasRead zero = pipe_empty refl
read_one-WasRead (suc l) = bytes_read 0 l (omega arith) (omega arith)

waited : (c l : ℕ) → 0 < c → Waited l 0 (when_called c) (answered_byte c l) 0
waited zero l marked = absurd (not-below 0 marked)
waited (suc c) zero marked = released (omega arith) (omega arith) (omega arith) (omega arith)
waited (suc c) (suc l) marked = released (omega arith) (omega arith) (omega arith) (omega arith)

abbrev pipes : Pipes two_pipes 3 4
pipes = record {
  first = record {
    level = λ w. w.0;
    patience = λ w. 0;
    writes = λ w. byte_written (omega arith);
    reads = λ w. read_one-WasRead w.0;
  };
  second = record {
    level = λ w. w.1;
    patience = λ w. 0;
    writes = λ w. byte_written (omega arith);
    reads = λ w. read_one-WasRead w.1;
  };
  apart = λ w. (refl, omega arith);
  waits = λ w marked. waited w.0 w.1 marked;
  stays = λ w stopped. refl;
}

-- the state with both pipes made and the fake mode enabled
abbrev enabled_state : EventState
enabled_state = record { paths = fifo_path 42 0; enabled = true }

-- a socket that has opened both pipes
abbrev fake_socket : FakeMode
fake_socket = record { state = some enabled_state; recv_called = pos 3; recv_ready = pos 4 }

receive_released_example :
    (v : ℕ × ℕ) × (receive_in_mode two_pipes willing 3 enabled_state fake_socket os
        (λ n. world)
        1
        1
        false
        socket
        (message [])
        waiting_process
        (0, 0)
      ≡ (
        [],
        fake_socket,
        returned (receive os (λ n. world) 1 1 false socket (message []) waiting_process) v,
      ))
    × (v.1 ≡ 0)
unfolding open_fake_fifos open_fake_fifo
receive_released_example =
    receive_released two_pipes 3 4 pipes 3 willing enabled_state enabled_state fake_socket os
      (λ n. world) 1 1 false socket (message []) waiting_process (0, 0) refl refl refl refl
      (omega arith) (omega arith)
