-- ===== src/Sockets.antt =====
-- The classes of msgq/ipc.cc over the queue: `SubSocket`, `PubSocket` and `Poller`, outside the
-- fake mode unless it is said.
pub mod Joined
pub mod Chosen
pub mod Replies
pub mod Buffers
use msgq.Subscriber.{Os, Handle, init_subscriber, recv}
use msgq.Queue.{default_segment_size, Segment, Queue, Msg, Run, ◌>>=◌, done, spinning}
use msgq.Publisher.{init_publisher, Sent, send}
use msgq.Polling.{Process, handle_at, put_handle, Item, is_zero, World, is_minus_one, poll}
use msgq.Lifecycle.{Host, Call, new_queue, close_queue}
use msgq.Base.{
  String, zero, suc, Bool, true, false, ◌&&◌, ◌||◌, Option, none, some, List, [], ◌∷◌, ◌++◌, ltb,
  ◌==◌, if◌then◌else◌, ℤ, pos, negsuc, ℕ,
}

-- `segment_size > 0 ? segment_size : DEFAULT_SEGMENT_SIZE`
abbrev pub segment_bytes : ℕ → ℕ
segment_bytes segment_size = if ltb 0 segment_size then segment_size else default_segment_size

-- `q->read_conflate = true`
abbrev pub set_conflate : Handle → Handle
set_conflate h = record h { queue = record (h.queue) { read_conflate = true } }

-- the part of `SubSocket::connect` behind `msgq_new_queue`
unfoldable pub join : Os → Bool → ℤ → Handle → List Call → Run (ℤ × Handle × List Call)
join os conflate (pos zero) h calls = do
  h' ← init_subscriber os.uid h
  done (pos 0, if conflate then set_conflate h' else h', calls)
join os conflate (pos (suc n)) h calls = done (pos (suc n), h, calls)
join os conflate (negsuc n) h calls = done (negsuc n, h, calls)

-- `SubSocket::connect`. `fresh` is what `new msgq_queue_t` leaves in the fields of the handle, which
-- it does not initialise, and `segment` what the mapped file holds.
unfoldable pub connect_sub :
    Host → Os → Queue → Segment → String → Bool → ℕ → Run (ℤ × Handle × List Call)
connect_sub host os fresh segment endpoint conflate segment_size = do
  (r, q, calls) ← new_queue host fresh endpoint (segment_bytes segment_size)
  join os conflate r (record { queue = q; segment = segment }) calls

-- the end of `create`: the socket, or its destructor's calls
unfoldable pub keep_or_delete : ℤ × Handle × List Call → Option Handle × List Call
keep_or_delete (pos zero, h, calls) = (some h, calls)
keep_or_delete (pos (suc n), h, calls) = (none, calls ++ close_queue h.queue)
keep_or_delete (negsuc n, h, calls) = (none, calls ++ close_queue h.queue)

-- `SubSocket::create`
unfoldable pub create_sub :
    Host → Os → Queue → Segment → String → Bool → ℕ → Run (Option Handle × List Call)
create_sub host os fresh segment endpoint conflate segment_size = do
  t ← connect_sub host os fresh segment endpoint conflate segment_size
  done (keep_or_delete t)

-- the part of `PubSocket::connect` behind `msgq_new_queue`, given what `msgq_get_uid` draws
unfoldable pub publish : ℕ → ℤ → Handle → List Call → ℤ × Handle × List Call
publish uid (pos zero) h calls =
    let (q, s) = init_publisher uid h.queue h.segment in
    (pos 0, record { queue = q; segment = s }, calls)
publish uid (pos (suc n)) h calls = (pos (suc n), h, calls)
publish uid (negsuc n) h calls = (negsuc n, h, calls)

-- `PubSocket::connect`
unfoldable pub connect_pub : Host → ℕ → Queue → Segment → String → ℕ → Run (ℤ × Handle × List Call)
connect_pub host uid fresh segment endpoint segment_size = do
  (r, q, calls) ← new_queue host fresh endpoint (segment_bytes segment_size)
  done (publish uid r (record { queue = q; segment = segment }) calls)

-- `PubSocket::create`
unfoldable pub create_pub :
    Host → ℕ → Queue → Segment → String → ℕ → Run (Option Handle × List Call)
create_pub host uid fresh segment endpoint segment_size = do
  t ← connect_pub host uid fresh segment endpoint segment_size
  done (keep_or_delete t)

-- `PubSocket::send`; `PubSocket::sendMessage` passes the bytes of the message in the same way.
unfoldable pub pub_send : List ℕ → ℕ → Handle → Run Sent
pub_send bytes size h = send (record { size = size; content = bytes }) h.queue h.segment

-- `SubSocket`, its queue by number
pub record SubSocket : Type 0 where
  pub queue : ℕ
  pub timeout : ℤ

-- `msgq_msg_recv(&msg, q)`
unfoldable pub recv_queue : Os → ℕ → Msg → Process → Run (ℤ × Msg × Process)
recv_queue os q msg p = do
  (rc, r) ← recv os (record { handle = handle_at q p; msg = msg })
  done (rc, r.msg, put_handle q r.handle p)

-- `t`
abbrev pub poll_timeout : ℤ → ℤ
poll_timeout timeout = if is_minus_one timeout then pos 100 else timeout

-- The loop of a blocking `SubSocket::receive`, entered with what the last receive left. `worlds n`
-- is what happens outside during the poll of a round, `n` rounds being left, and `sleeps` bounds
-- the sleeps of a poll.
unfoldable pub retry :
    Os → (ℕ → World) → ℕ → ℕ → SubSocket → ℤ × Msg × Process → Run (ℤ × Msg × Process)
retry os worlds sleeps zero socket x = spinning
retry os worlds sleeps (suc n) socket (rc, msg, p) = elim (is_zero rc) [
  | false ↦ done (rc, msg, p)
  | true ↦ do
    (num, items, p1) ←
        poll os (worlds n) (poll_timeout socket.timeout) sleeps
          (record { queue = socket.queue; revents = pos 0 } ∷ []) p
    (rc', msg', p2) ← recv_queue os socket.queue msg p1
    elim (((num == 1) && is_zero rc') || is_minus_one socket.timeout) [
      | true ↦ retry os worlds sleeps n socket (rc', msg', p2)
      | false ↦ done (rc', msg', p2)
    ]
]

-- `rc > 0` and `Message::takeOwnership`
unfoldable pub take_ownership : ℤ × Msg × Process → Option Msg × Process
take_ownership (pos zero, msg, p) = (none, p)
take_ownership (pos (suc n), msg, p) = (some msg, p)
take_ownership (negsuc n, msg, p) = (none, p)

-- `SubSocket::receive`; `msg` is not initialised.
unfoldable pub receive :
    Os → (ℕ → World) → ℕ → ℕ → Bool → SubSocket → Msg → Process → Run (Option Msg × Process)
receive os worlds sleeps rounds non_blocking socket msg p = do
  x ← recv_queue os socket.queue msg p
  y ← if non_blocking then done x else retry os worlds sleeps rounds socket x
  done (take_ownership y)

-- `Poller`
pub record Poller : Type 0 where
  pub fake : Bool
  pub sockets : List SubSocket
  pub polls : List Item

-- `Poller::registerSocket`
unfoldable pub register_socket : SubSocket → Poller → Poller
register_socket socket poller = record poller {
  sockets = poller.sockets ++ socket ∷ [];
  polls = poller.polls ++ record { queue = socket.queue; revents = pos 0 } ∷ [];
}

-- `Poller::Poller`, for a list of sockets
unfoldable pub register_all : List SubSocket → Poller → Poller
register_all [] poller = poller
register_all (socket ∷ sockets) poller = register_all sockets (register_socket socket poller)

unfoldable pub new_poller : Bool → List SubSocket → Poller
new_poller fake sockets = register_all sockets (record { fake = fake; sockets = []; polls = [] })

-- the sockets whose item has an event
unfoldable pub select_sockets : List SubSocket → List Item → List SubSocket
select_sockets [] items = []
select_sockets (socket ∷ sockets) [] = []
select_sockets (socket ∷ sockets) (item ∷ items) =
    let rest = select_sockets sockets items in if is_zero item.revents then rest else socket ∷ rest

-- `Poller::poll`
unfoldable pub poll_sockets :
    Os → World → ℤ → ℕ → Poller → Process → Run (List SubSocket × Poller × Process)
poll_sockets os world timeout sleeps poller p = elim poller.fake [
  | true ↦ done (poller.sockets, poller, p)
  | false ↦ do
    (num, items, p') ← poll os world timeout sleeps poller.polls p
    done (select_sockets poller.sockets items, record poller { polls = items }, p')
]
