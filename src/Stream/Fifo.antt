-- ===== src/Stream/Fifo.antt =====
-- A session of sends and receives replies as the mailbox does.
use msgq.Words.{int_of, int_of_small}
use msgq.Subscriber.{Os, Reader, set_pointer, recv}
use msgq.Stream.Session.{
  Event, reply, with_segment, cons_reply, session, mailbox, after_recv, KeepsUp, Connected, sends,
  receives,
}
use msgq.Stream.Sending.{write_message-Follows, tracking}
use msgq.Stream.Mailbox.{pick}
use msgq.Stream.Delivery.{Got, CanRead-moved}
use msgq.Stream.Answers.{recv_takes, recv_empty}
use msgq.Stream.{Tracking, Stalled}
use msgq.Queue.{Segment, Queue, Msg, message, Run, done}
use msgq.Publisher.Steps.{slot}
use msgq.Publisher.Bounds.{total_size_lem, write_message-WriterOk, write_message-SameReaders}
use msgq.Publisher.{write_message, Sent, send}
use mathlib.Core.Path.{ap₂}
use msgq.Base.{
  zero, suc, ◌*◌, ◌^◌, ◌≤◌, ◌<◌, ◌≡◌, refl, sym, ap, ◌∙◌, subst, ◌≢◌, inr, none, some, List, [],
  ◌∷◌, ◌++◌, arith, length, leb_of_le, ==_of_eq, ℤ, pos, ℕ,
}

-- The active publisher's send of a sendable message writes it.
pub send-write_message :
    (m : List ℕ) (q : Queue) (s : Segment)
    → length m < 2 ^ 62
    → 3 * slot (length m) ≤ q.size
    → q.write_uid_local ≡ s.write_uid
    → send (message m) q s
      ≡ done (record {
        rc = int_of (length m);
        errno = none;
        segment = write_message q.size (message m) s;
      })
unfolding send
send-write_message m q s object fits active =
    rw (==_of_eq _ _ active, (total_size_lem (length m) object).1, leb_of_le _ _ fits)

module _ (os : Os) (publisher : Queue) (id : ℕ) where
  Connected-send :
      (m : List ℕ) (pending : List (List ℕ)) (r : Reader)
      → Connected os publisher id pending r.handle
      → 0 < length m
      → length m < 2 ^ 31
      → 3 * slot (length m) ≤ r.handle.queue.size
      → let t = write_message r.handle.queue.size (message m) r.handle.segment in
        t.read_valids id ≢ 0
        → ¬ Stalled t id
        → Connected os publisher id (pending ++ m ∷ []) (with_segment t r).handle
  Connected-send m pending r c some_bytes object fits on free =
      let same =
        write_message-SameReaders r.handle.queue.size (message m) r.handle.segment c.reads.fine
          (omega arith) fits in
      record {
        reads = record {
          attached = record {
            is_reader = c.reads.attached.is_reader;
            owned = c.reads.attached.owned ∙ ap (λ (f : ℕ → ℕ). f id) (sym same.read_uids);
            valid = on;
          };
          fine =
              write_message-WriterOk r.handle.queue.size (message m) r.handle.segment c.reads.fine
                (omega arith) fits;
          memory = c.reads.memory;
        };
        listed = omega (arith, c.listed, same.num_readers);
        active = c.active ∙ sym same.write_uid;
        same_size = c.same_size;
        tracks =
            tracking r.handle.queue.size _ id (pending ++ m ∷ [])
              (write_message-Follows r.handle.queue.size r.handle.segment c.reads.fine id c.listed
                pending m some_bytes object fits c.free (inr c.tracks))
              on;
        free = free;
      }

  Connected-recv :
      (pending rest : List (List ℕ)) (m : List ℕ) (r : Reader) (run : Run (ℤ × Reader))
      → Connected os publisher id pending r.handle
      → (g : Got id r.handle m rest run) → Connected os publisher id rest g.reader.handle
  unfolding set_pointer
  Connected-recv pending rest m r run c g =
      subst (Connected os publisher id rest) (sym g.moves) (record {
        reads = CanRead-moved os id g.pointer r.handle c.reads;
        listed = c.listed;
        active = c.active;
        same_size = c.same_size;
        tracks = subst (λ h. Tracking r.handle.queue.size h.segment id rest) g.moves g.tracks;
        free = subst (λ h. ¬ Stalled h.segment id) g.moves g.free;
      })

  -- The mode does not change.
  mode-recv :
      (rest : List (List ℕ)) (m : List ℕ) (r : Reader) (run : Run (ℤ × Reader))
      → (g : Got id r.handle m rest run)
      → g.reader.handle.queue.read_conflate ≡ r.handle.queue.read_conflate
  unfolding set_pointer
  mode-recv rest m r run g = ap (λ h. h.queue.read_conflate) g.moves

  session-sends :
      (m : List ℕ) (events : List Event) (r : Reader) (x : Sent)
      → send (message m) publisher r.handle.segment ≡ done x
      → session os publisher (sends m ∷ events) r
        ≡ session os publisher events (with_segment x.segment r)
  unfolding session
  session-sends m events r x e = rw (e, session)

  session-receives :
      (events : List Event) (r t : Reader) (rc : ℤ)
      → recv os r ≡ done (rc, t)
      → session os publisher (receives ∷ events) r
        ≡ cons_reply (reply rc t) (session os publisher events t)
  unfolding session
  session-receives events r t rc e = rw (e, session)

  KeepsUp-receives :
      (events : List Event) (r t : Reader) (rc : ℤ)
      → recv os r ≡ done (rc, t)
      → KeepsUp os id (receives ∷ events) r
      → KeepsUp os id events t
  KeepsUp-receives events r t rc e k = subst (KeepsUp os id events) (after e) k
    where
      after : recv os r ≡ done (rc, t) → after_recv os r ≡ t
      after q = rw (q, after_recv)

  reply-positive : (n : ℕ) (r : Reader) → 0 < n → reply (pos n) r ≡ some r.msg.content
  unfolding reply
  reply-positive zero r h = absurd (omega arith)
  reply-positive (suc n) r h = refl

  reply-Got :
      (rest : List (List ℕ)) (m : List ℕ) (r : Reader) (run : Run (ℤ × Reader))
      → (g : Got id r.handle m rest run) → reply (int_of (length m)) g.reader ≡ some m
  reply-Got rest m r run g =
      ap (λ z. reply z g.reader) (int_of_small (length m) g.bounds.1)
      ∙ reply-positive (length m) g.reader g.bounds.0
      ∙ ap (λ (x : Msg). some x.content) g.msg

  session-nil : (r : Reader) → session os publisher [] r ≡ done []
  unfolding session
  session-nil r = refl

  written :
      (m : List ℕ) (r : Reader) {pending : List (List ℕ)}
      → Connected os publisher id pending r.handle
      → length m < 2 ^ 62
      → 3 * slot (length m) ≤ r.handle.queue.size
      → send (message m) publisher r.handle.segment
        ≡ done (record {
          rc = int_of (length m);
          errno = none;
          segment = write_message r.handle.queue.size (message m) r.handle.segment;
        })
  written m r c object fits =
      send-write_message m publisher r.handle.segment object (omega (arith, c.same_size)) c.active
      ∙ ap
          (λ z. done (record {
            rc = int_of (length m);
            errno = none;
            segment = write_message z (message m) r.handle.segment;
          }))
          c.same_size

  -- A publisher and a connected subscriber that call send and recv in any order, memory being
  -- available, where each message sent is neither empty nor 2 GiB long and fits the queue three
  -- times, and the subscriber keeps up: after each send it still has its flag and the writer does
  -- not stand at its place a cycle ahead. Every call returns, and the receives reply exactly as a
  -- mailbox does (first in first out, or only the latest message for a conflating subscriber).
  pub session_refines :
      (events : List Event) (pending : List (List ℕ)) (r : Reader)
      → Connected os publisher id pending r.handle
      → KeepsUp os id events r
      → session os publisher events r ≡ done (mailbox r.handle.queue.read_conflate events pending)
  unfolding mailbox reply cons_reply
  session_refines [] pending r c k = session-nil r
  session_refines (sends m ∷ events) pending r c (some_bytes, small, fits, on, free, k) =
      session-sends m events r _ (written m r c (omega arith) fits)
      ∙ session_refines events (pending ++ m ∷ []) _
          (Connected-send m pending r c some_bytes small fits on free) k
  session_refines (receives ∷ events) [] r c k =
      let e = recv_empty os id r c.reads.attached c.tracks c.free in
      session-receives events r _ _ e
      ∙ ap (cons_reply none) (session_refines events [] _ c (KeepsUp-receives events r _ _ e k))
  session_refines (receives ∷ events) (m ∷ rest) r c k =
      let g = recv_takes os id m rest r c.reads c.tracks c.free in
      let (n, left) = pick r.handle.queue.read_conflate m rest in
      session-receives events r _ _ g.returned
      ∙ ap₂ cons_reply (reply-Got left n r _ g) (
          session_refines events left g.reader (Connected-recv (m ∷ rest) left n r _ c g)
            (KeepsUp-receives events r _ _ g.returned k)
          ∙ ap (λ b. done (mailbox b events left)) (mode-recv left n r _ g))
