-- ===== src/Tests/Overlaps.antt =====
-- Runs in which a send and a receive of msgq/msgq.cc overlap, and the theorems of Race at inputs.
use msgq.Words.{lower}
use msgq.Tests.Witnesses.{fits, first, after_first, reached, waiting, can_read}
use msgq.Tests.{os, runnable}
use msgq.Subscriber.{take_next}
use msgq.Race.Writes.{begin_send, write_step, idle}
use msgq.Race.Torn.{Whole, no_torn_read}
use msgq.Race.System.{System, Reach, start, begun, written, read}
use msgq.Race.SendAlone.{write_on, send_alone}
use msgq.Race.Repeated.{repeat}
use msgq.Race.ReceiveAlone.{read_on, setting_of, as_pass, receive_alone}
use msgq.Queue.{Segment, message}
use msgq.Race.Reads.{rechecking, lost, Ending, Setting, judge, read_step, received, loading, ended}
use msgq.Publisher.{write_message}
use msgq.Memory.{read64}
use msgq.Base.{◌+◌, subst, zero, suc, ◌<◌, ◌≡◌, refl, List, [], ◌∷◌, arith, length, ℕ}

-- a subscriber without conflation in slot 0 of a small queue
abbrev calm : Setting
calm = setting_of os 0 waiting

abbrev overlapping : System
overlapping = record { segment = after_first; writer = idle; reader = loading }

-- a second message, which goes behind the first
abbrev begun_second : System
begun_second = record overlapping { writer = begin_send 64 (message (9 ∷ [])) after_first }

-- one step of the writer, then one of the reader, so many times
turns : ℕ → System → System
turns zero x = x
turns (suc k) x =
    let (s, w) = write_step x.segment x.writer in
    let (t, pc) = read_step calm s x.reader in
    turns k (record { segment = t; writer = w; reader = pc })

turns-Reach : (k n j : ℕ) (x y : System) → Reach calm x n j y → Reach calm x n (j + k) (turns k y)
unfolding turns
turns-Reach zero n j x y r = subst (λ i. Reach calm x n i y) (omega arith) r
turns-Reach (suc k) n j x y r =
    let all : suc j + k ≡ j + suc k = omega arith in
    subst (λ i. Reach calm x n i (turns (suc k) y)) all
      (turns-Reach k n (suc j) x _ (read (written r)))

-- The pass receives the first message while the second is on its way.
overlapped : (turns 9 begun_second).reader ≡ ended (received first)
unfolding turns runnable begin_send write_step read_step judge
overlapped = refl

-- so many steps of the reader, or a whole send
reads : ℕ → System → System
reads k x =
    let (t, pc) = repeat (read_on calm) k (x.segment, x.reader) in
    record x { segment = t; reader = pc }

sends_whole : List ℕ → System → System
sends_whole m x = record x { segment = write_message 64 (message m) x.segment }

-- Three sends fall into the copy. The last wraps around onto the message, and its bytes are copied;
-- the second test of the flag tells.
caught : System
unfolding reads sends_whole
caught = reads 3 (
    sends_whole (7 ∷ 8 ∷ [])
      (sends_whole (5 ∷ 6 ∷ []) (sends_whole (3 ∷ 4 ∷ []) (reads 4 overlapping))))

torn_is_caught : (caught.reader ≡ rechecking (1 ∷ 8 ∷ [])) × ((reads 1 caught).reader ≡ ended lost)
unfolding caught reads sends_whole repeat runnable read_step judge
torn_is_caught = (refl, refl)

tagged_first : read64 after_first.bytes (lower (after_first.read_pointers 0)) ≡ length first
unfolding runnable
tagged_first = refl

listed_first : 0 < after_first.num_readers
unfolding runnable
listed_first = omega arith

no_torn_read_example : (o : Ending) × ((turns 9 begun_second).reader ≡ ended o) × Whole first o
no_torn_read_example =
    no_torn_read calm overlapping first [] 1 9 (turns 9 begun_second)
      (record {
        listed = listed_first;
        fine = can_read.fine;
        tracking = reached.1;
        tagged = tagged_first;
      })
      refl refl (omega arith) (omega arith)
      (turns-Reach 9 1 0 overlapping begun_second
        (begun start (message (9 ∷ [])) refl (omega arith) (fits 1 (omega arith))))

send_alone_example :
    (k : ℕ) × (repeat write_on k (after_first, begin_send 64 (message (9 ∷ [])) after_first)
      ≡ (write_message 64 (message (9 ∷ [])) after_first, idle))
send_alone_example = send_alone 64 (message (9 ∷ [])) after_first

receive_alone_example :
    (t : Segment) × (o : Ending) × ((k : ℕ) × (repeat
          (read_on (setting_of os 0 waiting))
          k
          (after_first, loading)
        ≡ (t, ended o)))
    × (as_pass 0 waiting t o ≡ take_next os 0 waiting)
receive_alone_example = receive_alone os 0 waiting
