-- ===== src/Lib.antt =====
-- The message queue of msgq: a lock-free ring buffer in shared memory with one publisher and up
-- to 25 subscribers for each endpoint.
--
-- A publisher writes messages behind one another into the buffer, each with an 8-byte size tag,
-- and starts again at its beginning, behind a tag of -1, when the next message would not fit. The
-- pointers are packed: a cycle count in the high half, an offset in the low half. Nothing stops
-- the publisher: it clears the flag of each reader whose place it is about to overwrite, and a
-- reader that finds its flag cleared gives up what it had to receive and resumes at the write
-- pointer. When a 26th subscriber comes, all are evicted, and those that are alive subscribe again.
--
-- Files, and the code they are about:
--   Base, Base/Tests, Base/Lists, Base/Texts: shared names, Boolean tests, lists over the native
--     numbers, strings.
--   Words: the macros ALIGN, PACK64, UNPACK64 of msgq/msgq.h and the C conversions.
--   Memory, Memory/Laws: the mapped bytes; `memcpy` and the 64-bit size tags.
--   Queue: msgq_header_t, msgq_queue_t, msgq_msg_t of msgq/msgq.h; how a call ends.
--   Publisher: msgq_init_publisher, msgq_msg_send, msgq_all_readers_updated of msgq/msgq.cc.
--     Loops: what the loops over the slots leave. Steps: the branches of msgq_msg_send as single
--     updates. Bounds: where a send writes. Updated: msgq_all_readers_updated.
--   Subscriber: msgq_reset_reader, msgq_init_subscriber, msgq_msg_ready, msgq_msg_recv and the
--     message functions they call. Joining: the branches of msgq_init_subscriber.
--   Membership: who is subscribed. Recovery: what an invalidated or evicted reader's next call
--     does. Takeover: what a new publisher does to the old one and to the subscribers.
--   Stream: what a reader still has to receive, as a list of messages. Chain, Writing, Sending:
--     what a send does to it. Receiving, Moving, Delivery, Refinement, Answers: what a receive
--     does to it. Mailbox: the specification. Session, Fifo: a publisher and a subscriber calling
--     in any order. Lapped: a reader that the writer has lapped exactly.
--   Race: a send and a receive that overlap. Writes, Reads: msgq_msg_send and a pass of
--     msgq_msg_recv as program counters with their locals, a shared access for each step. System:
--     the steps of both in any order. Invariant, WriterSteps, WriterInside, Sends, ReaderSteps:
--     what holds meanwhile. Torn: what the pass yields. Repeated, SendAlone, ReceiveAlone: what the
--     accesses do when nothing comes between.
--   Polling: msgq_poll over the queues of a process. Passes: its passes over the items. Counts:
--     what its result counts. Ends: that it returns.
--   Lifecycle: msgq_get_uid, msgq_new_queue, msgq_close_queue, msgq_msg_init_data, with the system
--     calls as a list, and msgq_wait_for_subscriber. Balance: what they leave open or mapped.
--     Signals: whom a send wakes up.
--   Events: Event and poll_events of msgq/event.cc over a kernel. Drain: setting and clearing.
--     Choice: waiting for one of several.
--   Fake: the fake mode. Digits, Names: the names of the shared state and of the pipes, and the
--     texts of numbers. Handle: event_state_shm_mmap and SocketEventHandle of msgq/event.cc.
--     Counts, Balance: what they leave behind. Sockets: the fake mode of SubSocket of msgq/ipc.cc.
--     Rendezvous: that a receive in it returns once it is released.
--     Environment: the variables that choose the mode, and what a handle and a socket make of them.
--   Sockets: SubSocket, PubSocket and Poller of msgq/ipc.cc. Joined: what a connect leaves.
--     Replies: what a receive returns. Chosen: what a poll returns. Buffers: Message.
--   Vision: VisionBuf and the packets of msgq/visionipc. Vision/Server: visionipc_server.cc.
--     Vision/Client: visionipc_client.cc. Packets: their bytes. Turns: the server's buffers.
--     Handover: from the server to a connected client. Channels: visionipc.cc. Passing:
--     descriptors that go over a socket. Listener: the server's thread. Closing: that it ends and
--     closes. Names: endpoints and path. Mapping, FrameIds: the files behind the buffers and
--     their last word, of visionbuf.cc. Device: the device memory of visionbuf_ion.cc. Ledger,
--     Taking, Freeing: what it takes and gives back. Streams: how a client finds the server, asks
--     for its streams, and ends, and how the server ends.
--   Tests, Tests/Runs, Tests/Witnesses, Tests/Outside, Tests/Frames, Tests/Meeting,
--   Tests/Devices, Tests/Lapping, Tests/Overlaps, Tests/Releases: the model run, mostly on a queue
--     of 64 bytes.
--
-- The state of a call is the segment (the header and the bytes, shared by all) with the caller's
-- handle; every call is one atomic step, except in Race, and except that msgq_init_subscriber takes
-- what other threads do before its compare-and-swap as a parameter. A failed `assert` is `aborted`,
-- and memory that `new(std::nothrow)` refuses is a parameter of the receive.
--
-- Loops over slots and bytes are structural. The `goto start` loops run on a bound: 4 passes for
-- msgq_msg_ready and 2 rounds for msgq_init_subscriber without interference, since a reset, a
-- renewed subscription or an eviction is needed once at most; and as many passes as the queue has
-- bytes, and 8 more, for msgq_msg_recv, since a pass over a message moves on by 16 bytes at least.
--
-- The loops that sleep or wait run on a number of rounds that the caller gives. HANDLE_EINTR runs
-- on its own bound of 100 repetitions. Other threads and the kernel are parameters; what is asked
-- of them stands in the records Benign, Pipe, Pipes and Ledger.
--
-- Not modelled: memory orders weaker than sequential consistency, interleavings inside the head of
-- a receive (eviction and reset), and several receives at once; the code for macOS;
-- the Python bindings, and the test programs.

pub mod Base
pub mod Events
pub mod Fake
pub mod Lifecycle
pub mod Membership
pub mod Memory
pub mod Polling
pub mod Publisher
pub mod Queue
pub mod Race
pub mod Sockets
pub mod Stream
pub mod Subscriber
pub mod Tests
pub mod Vision
pub mod Words
