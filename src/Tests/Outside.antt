-- ===== src/Tests/Outside.antt =====
-- The theorems about polling, the life cycle of a queue, events and sockets, at inputs that meet
-- their hypotheses.
use msgq.Polling.Passes.{weight, total, queues, Passes}
use msgq.Vision.Listener.{answer}
use msgq.Subscriber.Joining.{init_subscriber_joins}
use msgq.Stream.Mailbox.{pick}
use msgq.Stream.{Tracking}
use msgq.Sockets.Replies.{receive_takes}
use msgq.Sockets.Joined.{connect_sub_joins, create_sub_fails}
use msgq.Sockets.Chosen.{socket_queues, flagged, poll_sockets_chooses}
use msgq.Sockets.{
  join, connect_sub, keep_or_delete, create_sub, SubSocket, receive, Poller, register_socket,
  register_all, new_poller, poll_sockets,
}
use msgq.Membership.{Fresh}
use msgq.Tests.Witnesses.{
  reached, waiting, can_read, segment, writable, first, after_first, sends_first, sane,
}
use msgq.Tests.{started, handle, os, publisher, reader}
use msgq.Subscriber.{Handle, ready}
use msgq.Queue.{>>=-of-done, Queue, message, done}
use msgq.Polling.Ends.{Sound, ready_returns, Orderly, Benign, poll_returns}
use msgq.Polling.Counts.{poll_reports}
use msgq.Polling.{put_handle, Process, Item, World, is_minus_one, poll}
use msgq.Lifecycle.Signals.{send_wakes}
use msgq.Lifecycle.Balance.{maps, unmaps, Balanced, new_queue_balances}
use msgq.Lifecycle.{
  set_up, close_queue, get_uid, Host, Call, map_queue, size_queue, open_queue, new_queue,
}
use msgq.Events.Drain.{
  Wrote, WasRead, Pipe, clear_drains, byte_written, write_interrupted, bytes_read, read_interrupted,
  pipe_empty,
}
use msgq.Events.Choice.{FirstSet, wait_for_one-FirstSet}
use msgq.Events.{
  Answer, Kernel, first_ready, clear, poll_loop, poll_events, wait_for_one, interrupted,
  would_block, other, returned,
}
use msgq.Base.{
  some, zero, suc, ◌+◌, ◌<◌, ◌≡◌, refl, ◌≢◌, Bool, true, false, none, List, [], ◌∷◌, ◌++◌, map,
  arith, ltb, if◌then◌else◌, ℤ, pos, negsuc, ℕ,
}

abbrev process : Process
process = record {
  queues = λ q. reader.handle.queue;
  files = λ q. 0;
  segments = λ f. reader.handle.segment;
}

-- nothing happens outside, and every sleep is undisturbed
abbrev pub world : World
world = record { nanosleep = λ n ts. (pos 0, ts); others = λ n s. s }

abbrev items : List Item
items = record { queue = 0; revents = pos 0 } ∷ []

benign : Benign world
benign = record { keeps = λ n segments h. h; ends = λ ts. refl }

orderly : Orderly process
orderly = record { segments = λ f. sane segment (omega arith) refl; readers = λ q. (0, refl) }

polled : (t : ℕ × List Item × Process) × (poll os world (pos 5) 1 items process ≡ done t)
polled = poll_returns os world (pos 5) 0 items process refl benign orderly

poll_returns_example :
    (t : ℕ × List Item × Process) × (poll os world (pos 5) 1 items process ≡ done t)
poll_returns_example = poll_returns os world (pos 5) 0 items process refl benign orderly

poll_reports_example :
    let t = polled.0 in
    Passes os world 1 items process t.1 t.2
    × (total weight t.1 ≡ t.0)
    × (queues t.1 ≡ 0 ∷ [])
    × (t.0 ≡ 0 → is_minus_one (pos 5) ≡ false)
poll_reports_example = poll_reports os world (pos 5) 1 items process polled.1

ready_returns_example : (x : ℤ × Handle) × (ready os reader.handle ≡ done x) × Sound x.1
ready_returns_example = ready_returns os reader.handle (sane segment (omega arith) refl, (0, refl))

-- a system on which everything succeeds
abbrev host : Host
host = record {
  prefix = none;
  preallocate = false;
  open_file = λ path. pos 3;
  truncate = λ fd n. pos 0;
  map_file = λ fd n populate. true;
}

opened_queue : (t : ℤ × Queue × List Call) × (new_queue host handle "demo" 64 ≡ done t)
unfolding new_queue open_queue size_queue map_queue
opened_queue = (_, refl)

new_queue_balances_example : Balanced handle "demo" 64 opened_queue.0
new_queue_balances_example = new_queue_balances host handle "demo" 64 opened_queue.1

drawn : (i : ℕ) → i < 1 → segment.read_uids i ≡ get_uid 0 9
unfolding get_uid
drawn i h = ground (arith, h)

send_wakes_example : after_first.signals ≡ segment.signals ++ 9 ∷ []
send_wakes_example =
    send_wakes (message first) publisher segment (λ i. 0) (λ i. 9) (omega arith) writable refl drawn
      (λ i. omega arith) sends_first

abbrev written : ℕ × ℕ → Answer × (ℕ × ℕ)
written (level, zero) = (record { count = pos 1; errno = other }, (level + 1, 0))
written (level, suc n) = (record { count = negsuc 0; errno = interrupted }, (level, n))

abbrev taken : ℕ × ℕ → Answer × (ℕ × ℕ)
taken (zero, zero) = (record { count = negsuc 0; errno = would_block }, (0, 0))
taken (suc level, zero) = (record { count = pos 1; errno = other }, (level, 0))
taken (zero, suc n) = (record { count = negsuc 0; errno = interrupted }, (0, n))
taken (suc level, suc n) = (record { count = negsuc 0; errno = interrupted }, (suc level, n))

written-Wrote : (w : ℕ × ℕ) → let (answer, v) = written w in Wrote w.0 w.1 answer v.0 v.1
written-Wrote (level, zero) = byte_written (omega arith)
written-Wrote (level, suc n) = write_interrupted (omega arith)

taken-WasRead : (w : ℕ × ℕ) → let (answer, v) = taken w in WasRead w.0 w.1 answer v.0 v.1
taken-WasRead (zero, zero) = pipe_empty refl
taken-WasRead (suc level, zero) = bytes_read 0 level (omega arith) (omega arith)
taken-WasRead (zero, suc n) = read_interrupted (omega arith)
taken-WasRead (suc level, suc n) = read_interrupted (omega arith)

-- pipes that hold so many bytes, after so many interruptions
abbrev kernel : Kernel (ℕ × ℕ)
kernel = record {
  write_one = λ fd w. written w;
  read_some = λ fd w. taken w;
  poll_in = λ fds ms w. (
    record { count = pos (if ltb 0 w.0 then 1 else 0); errno = other },
    map (λ fd. ltb 0 w.0) fds,
    w,
  );
  now = λ w. 0;
}

abbrev pipe : Pipe kernel (pos 3)
pipe = record {
  level = λ w. w.0;
  patience = λ w. w.1;
  writes = written-Wrote;
  reads = taken-WasRead;
}

clear_drains_example : (v : ℕ × ℕ) × (clear kernel 9 (pos 3) (5, 2) ≡ returned 5 v) × (v.0 ≡ 0)
clear_drains_example = clear_drains kernel 3 pipe 9 (5, 2) (omega arith)

chosen : wait_for_one kernel 1 (pos 3 ∷ pos 4 ∷ []) (pos 1) (1, 0) ≡ returned 0 (1, 0)
unfolding wait_for_one poll_events poll_loop first_ready
chosen = refl

wait_for_one-FirstSet_example :
    (ret : ℕ) × (revents : List Bool) × (poll_events kernel 1 (pos 3 ∷ pos 4 ∷ []) (pos 1) (1, 0)
      ≡ returned (ret, revents) (1, 0))
    × (ret ≢ 0)
    × FirstSet revents 0
wait_for_one-FirstSet_example =
    wait_for_one-FirstSet kernel 1 (pos 3 ∷ pos 4 ∷ []) (pos 1) (1, 0) chosen

abbrev pub socket : SubSocket
socket = record { queue = 0; timeout = pos 5 }

polled_sockets :
    (t : List SubSocket × Poller × Process) × (poll_sockets os world
        (pos 5)
        1
        (new_poller false (socket ∷ []))
        process
      ≡ done t)
unfolding poll_sockets new_poller register_all register_socket
polled_sockets = let (t, e) = polled in (_, >>=-of-done _ _ e refl)

poll_sockets_chooses_example :
    let t = polled_sockets.0 in
    (socket_queues t.0 ≡ flagged t.1.polls)
    × (queues t.1.polls ≡ 0 ∷ [])
    × (t.0 ≡ [] → is_minus_one (pos 5) ≡ false)
poll_sockets_chooses_example =
    poll_sockets_chooses os world (pos 5) 1 (socket ∷ []) process polled_sockets.1

connected_sub :
    (h : Handle) × (calls : List Call) × (connect_sub host os handle started "demo" true 64
      ≡ done (pos 0, h, calls))
unfolding connect_sub new_queue open_queue size_queue map_queue join
connected_sub = (
  _,
  _,
  >>=-of-done _ _
      (init_subscriber_joins 9 (record { queue = set_up handle "demo" 64; segment = started })
        (omega arith))
      refl,
)

connect_sub_joins_example :
    let (h, calls, _) = connected_sub in
    (Fresh 9 h × (h.queue.read_conflate ≡ true) × (h.queue.size ≡ 64))
    × (maps calls ≡ unmaps (close_queue h.queue))
connect_sub_joins_example =
    connect_sub_joins host os handle started "demo" true 64 (sane started (omega arith) refl)
      connected_sub.2

-- `mmap` fails
abbrev full_host : Host
full_host = record host { map_file = λ fd n populate. false }

refused_sub :
    (calls : List Call) × (create_sub full_host os handle started "demo" true 64
      ≡ done (none, calls))
unfolding create_sub connect_sub new_queue open_queue size_queue map_queue join keep_or_delete
refused_sub = (_, refl)

create_sub_fails_example :
    (maps refused_sub.0 ≡ []) × (unmaps refused_sub.0 ≡ unmaps (close_queue handle))
create_sub_fails_example = create_sub_fails full_host os handle started "demo" true 64 refused_sub.1

abbrev pub waiting_process : Process
waiting_process = record process {
  queues = λ q. waiting.handle.queue;
  segments = λ f. waiting.handle.segment;
}

receive_takes_example :
    (h : Handle) × (receive os (λ n. world) 1 1 false socket (message []) waiting_process
      ≡ done (some (message first), put_handle 0 h waiting_process))
    × Tracking 64 h.segment 0 []
unfolding pick
receive_takes_example =
    receive_takes os (λ n. world) 1 0 false socket (message []) waiting_process 0 first [] can_read
      reached.1 reached.2
