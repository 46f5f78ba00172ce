-- ===== src/Tests/Runs.antt =====
-- Runs of msgq/msgq.cc on small inputs.
use msgq.Words.{align}
use msgq.Tests.{blank, handle, os, publisher, reader, runnable}
use msgq.Stream.Session.{session, sends, receives}
use msgq.Queue.{done}
use msgq.Publisher.{init_publisher}
use msgq.Base.{◌≡◌, refl, none, some, [], ◌∷◌}

align_values :
    (align 0 ≡ 0) × (align 1 ≡ 8) × (align 7 ≡ 8) × (align 8 ≡ 8) × (align 99999 ≡ 100000)
unfolding align
align_values = (refl, refl, refl, refl, refl)

-- The start of the other tests is what the code makes of a blank segment.
starts : (init_publisher 7 handle blank).0 ≡ publisher
unfolding runnable
starts = refl

-- Two messages arrive in order, then nothing.
two_messages :
    session os publisher
      (sends (1 ∷ 2 ∷ []) ∷ sends (3 ∷ []) ∷ receives ∷ receives ∷ receives ∷ [])
      reader
    ≡ done (some (1 ∷ 2 ∷ []) ∷ some (3 ∷ []) ∷ none ∷ [])
unfolding runnable
two_messages = refl

-- Three laps of the buffer, with the reader close behind.
three_laps :
    session os publisher
      (sends (1 ∷ [])
        ∷ sends (2 ∷ [])
        ∷ sends (3 ∷ [])
        ∷ receives
        ∷ receives
        ∷ sends (4 ∷ [])
        ∷ receives
        ∷ receives
        ∷ sends (5 ∷ [])
        ∷ sends (6 ∷ [])
        ∷ receives
        ∷ sends (7 ∷ [])
        ∷ receives
        ∷ receives
        ∷ receives
        ∷ [])
      reader
    ≡ done (
        some (1 ∷ [])
        ∷ some (2 ∷ [])
        ∷ some (3 ∷ [])
        ∷ some (4 ∷ [])
        ∷ some (5 ∷ [])
        ∷ some (6 ∷ [])
        ∷ some (7 ∷ [])
        ∷ none
        ∷ [])
unfolding runnable
three_laps = refl

-- The writer comes round to the very place of a reader that has read a whole lap: the reader is
-- told that there is nothing although three messages wait; the fourth send lets it read that
-- message alone, and the fifth message is lost with a reset.
lapped :
    session os publisher
      (sends (1 ∷ [])
        ∷ sends (2 ∷ [])
        ∷ sends (3 ∷ [])
        ∷ receives
        ∷ receives
        ∷ receives
        ∷ sends (4 ∷ [])
        ∷ sends (5 ∷ [])
        ∷ sends (6 ∷ [])
        ∷ receives
        ∷ sends (7 ∷ [])
        ∷ receives
        ∷ sends (8 ∷ [])
        ∷ receives
        ∷ [])
      reader
    ≡ done (some (1 ∷ []) ∷ some (2 ∷ []) ∷ some (3 ∷ []) ∷ none ∷ some (7 ∷ []) ∷ none ∷ [])
unfolding runnable
lapped = refl
