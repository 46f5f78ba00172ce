-- ===== src/Lifecycle/Signals.antt =====
-- Which threads `msgq_msg_send` of msgq/msgq.cc wakes up.
use native.Mathlib.Decide.{dec_lt}
use msgq.Queue.{Segment, Queue, Msg, done}
use msgq.Publisher.Steps.{slot}
use msgq.Publisher.Loops.{thread_ids}
use msgq.Publisher.Bounds.{
  WriterOk, write_message-fits, write_message-wraps, Outcome, send-Outcome, refused, sent,
}
use msgq.Publisher.{write_message, Sent, send}
use msgq.Words.{lower}
use msgq.Lifecycle.{get_uid}
use msgq.Base.{
  ◌+◌, ◌*◌, ◌≤◌, refl, ap, ◌∙◌, zero, suc, ◌^◌, ◌<◌, ◌≡◌, List, [], ◌∷◌, ◌++◌, arith, ℕ,
}

-- The thread's id is what the low half of an identity holds.
pub lower-get_uid : (random tid : ℕ) → tid < 2 ^ 32 → lower (get_uid random tid) ≡ tid
unfolding get_uid lower
lower-get_uid random tid small = omega arith

-- the ids of the threads of the first `n` slots
abbrev pub listing : (ℕ → ℕ) → ℕ → List ℕ
listing tids zero = []
listing tids (suc n) = listing tids n ++ tids n ∷ []

thread_ids_lem :
    (uids random tids : ℕ → ℕ) (n : ℕ)
    → ((i : ℕ) → i < n → uids i ≡ get_uid (random i) (tids i))
    → ((i : ℕ) → tids i < 2 ^ 32)
    → thread_ids uids n ≡ listing tids n
thread_ids_lem uids random tids zero drawn small = refl
thread_ids_lem uids random tids (suc n) drawn small =
    rw
      (
        thread_ids_lem uids random tids n (λ i h. drawn i (omega (arith, h))) small,
        drawn n (omega arith),
        lower-get_uid (random n) (tids n) (small n),
      )
      refl

write_message_signals :
    (size : ℕ) (msg : Msg) (s : Segment)
    → msg.size < 2 ^ 62
    → WriterOk size s
    → 3 * slot msg.size ≤ size
    → (write_message size msg s).signals ≡ s.signals ++ thread_ids s.read_uids s.num_readers
write_message_signals size msg s object w h =
    elim (dec_lt (lower s.write_pointer + slot msg.size + 8) size) [
      | yes lt ↦ rw (write_message-fits size msg s w object lt) refl
      | no ge ↦ rw (write_message-wraps size msg s w object h (omega arith)) refl
    ]

-- A send by the active publisher that returns signals the threads that drew the identities of the
-- listed readers, in the order of their slots, and no other thread.
pub send_wakes :
    (msg : Msg) (q : Queue) (s : Segment) (random tids : ℕ → ℕ) {r : Sent}
    → msg.size < 2 ^ 62
    → WriterOk q.size s
    → q.write_uid_local ≡ s.write_uid
    → ((i : ℕ) → i < s.num_readers → s.read_uids i ≡ get_uid (random i) (tids i))
    → ((i : ℕ) → tids i < 2 ^ 32)
    → send msg q s ≡ done r
    → r.segment.signals ≡ s.signals ++ listing tids s.num_readers
send_wakes msg q s random tids {r} object w active drawn small e =
    go (send-Outcome msg q s object e)
  where
    go : Outcome msg q s r → r.segment.signals ≡ s.signals ++ listing tids s.num_readers
    go (refused ne out) = absurd (ne active)
    go (sent eq fits out) = rw out (
        write_message_signals q.size msg s object w fits
        ∙ ap (λ l. s.signals ++ l)
            (thread_ids_lem s.read_uids random tids s.num_readers drawn small))
