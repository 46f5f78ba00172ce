-- ===== src/Sockets/Replies.antt =====
-- What `SubSocket::receive` of msgq/ipc.cc returns.
use msgq.Words.{int_of, int_of_small}
use msgq.Subscriber.{Os, Handle, Reader, recv}
use msgq.Stream.Mailbox.{pick}
use msgq.Stream.Delivery.{CanRead}
use msgq.Stream.Answers.{recv_takes}
use msgq.Stream.{Tracking, Stalled}
use msgq.Sockets.{SubSocket, recv_queue, retry, take_ownership, receive}
use msgq.Queue.{Msg, message, >>=-of-done, done}
use msgq.Polling.{Process, handle_at, put_handle, World}
use msgq.Base.{
  suc, ◌-◌, ◌≡◌, refl, ap, ◌∙◌, Bool, true, false, some, List, ◌∷◌, arith, length, ℤ, pos, ℕ,
}

recv_queue_lem :
    (os : Os) (q : ℕ) (msg : Msg) (p : Process) (rc : ℤ) (r : Reader)
    → recv os (record { handle = handle_at q p; msg = msg }) ≡ done (rc, r)
    → recv_queue os q msg p ≡ done (rc, r.msg, put_handle q r.handle p)
unfolding recv_queue
recv_queue_lem os q msg p rc r e = >>=-of-done _ _ e refl

-- A receive that got a message at once does not poll.
receive_lem :
    (os : Os) (worlds : ℕ → World) (sleeps rounds : ℕ) (non_blocking : Bool) (socket : SubSocket)
    (msg : Msg) (p : Process) (n : ℕ) (got : Msg) (p' : Process)
    → recv_queue os socket.queue msg p ≡ done (pos (suc n), got, p')
    → receive os worlds sleeps (suc rounds) non_blocking socket msg p ≡ done (some got, p')
unfolding receive retry take_ownership
receive_lem os worlds sleeps rounds true socket msg p n got p' e = >>=-of-done _ _ e refl
receive_lem os worlds sleeps rounds false socket msg p n got p' e = >>=-of-done _ _ e refl

-- A receive, blocking or not, on a socket whose reader has messages to receive returns at once what
-- the mailbox promises, the oldest message or the latest, and leaves what the mailbox leaves. The
-- writer must not stand at the reader's place a cycle ahead, and memory must be available.
pub receive_takes :
    (os : Os) (worlds : ℕ → World) (sleeps rounds : ℕ) (non_blocking : Bool) (socket : SubSocket)
    (msg : Msg) (p : Process) (id : ℕ) (m : List ℕ) (rest : List (List ℕ))
    → let h = handle_at socket.queue p in
      CanRead os id h
      → Tracking h.queue.size h.segment id (m ∷ rest)
      → ¬ Stalled h.segment id
      → (h' : Handle) × (receive os worlds sleeps (suc rounds) non_blocking socket msg p
          ≡ done
              (some (message (pick h.queue.read_conflate m rest).0), put_handle socket.queue h' p))
        × Tracking h.queue.size h'.segment id (pick h.queue.read_conflate m rest).1
receive_takes os worlds sleeps rounds non_blocking socket msg p id m rest c t free =
    let g =
      recv_takes os id m rest (record { handle = handle_at socket.queue p; msg = msg }) c t free in
    let n = length (pick (p.queues socket.queue).read_conflate m rest).0 in
    let rc : int_of n ≡ pos (suc (n - 1)) =
      int_of_small n g.bounds.1 ∙ ap pos (omega (arith, g.bounds.0)) in
    (
      g.reader.handle,
      receive_lem os worlds sleeps rounds non_blocking socket msg p (n - 1) _ _ (
            recv_queue_lem os socket.queue msg p _ g.reader g.returned
            ∙ ap (λ z. done (z, g.reader.msg, put_handle socket.queue g.reader.handle p)) rc)
          ∙ ap (λ (x : Msg). done (some x, put_handle socket.queue g.reader.handle p)) g.msg,
      g.tracks,
    )
