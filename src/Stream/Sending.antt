-- ===== src/Stream/Sending.antt =====
-- What `msgq_msg_send` does to a reader that follows the writer.
use msgq.Stream.Chain.{slot-ge, Same-free}
use msgq.Words.{u32, higher, lower, higher-pack64, lower-pack64, higher-lt, int_of_small}
use msgq.Stream.Writing.{
  wide, masked_miss, masked_keeps_zero, Settling, settle, wrapped-Same, wrapped-Behind, inside,
  put-Follows,
}
use msgq.Stream.{Same, Tracking, Stalled, Follows}
use msgq.Queue.{Segment, Queue, Msg, message, done}
use msgq.Publisher.Steps.{slot, put, wrapped}
use msgq.Publisher.Bounds.{
  WriterOk, write_message-fits, write_message-wraps, Outcome, send-Outcome, refused, sent,
}
use msgq.Publisher.{is_beyond, is_inside, write_message, Sent, send}
use native.Mathlib.Decide.{dec_lt}
use mathlib.Core.Path.{ap₂}
use msgq.Base.{
  ◌+◌, ◌*◌, ◌^◌, ◌≤◌, ◌<◌, ◌≡◌, sym, ◌∙◌, subst, ◌≢◌, inl, inr, false, List, [], ◌∷◌, ◌++◌, arith,
  length, pos, ℕ,
}

-- The two halves of the write pointer behind a wrap-around.
wrapped_halves :
    (cycles p : ℕ) (s : Segment)
    → (higher (wrapped cycles p s).write_pointer ≡ u32 (cycles + 1))
      × (lower (wrapped cycles p s).write_pointer ≡ 0)
wrapped_halves cycles p s = (
  higher-pack64 (u32 (cycles + 1)) 0 (omega arith),
  lower-pack64 (u32 (cycles + 1)) 0 (omega arith),
)

abbrev wrapped_here : Segment → Segment
wrapped_here s = wrapped (higher s.write_pointer) (lower s.write_pointer) s

-- A send that wraps around is a plain write at the new write pointer.
wraps_here :
    (size : ℕ) (msg : Msg) (s : Segment)
    → WriterOk size s
    → msg.size < 2 ^ 62
    → 3 * slot msg.size ≤ size
    → size ≤ lower s.write_pointer + slot msg.size + 8
    → write_message size msg s
      ≡ put msg
          (higher (wrapped_here s).write_pointer)
          (lower (wrapped_here s).write_pointer)
          (wrapped_here s)
wraps_here size msg s w object fits h =
    let (a, b) = wrapped_halves (higher s.write_pointer) (lower s.write_pointer) s in
    write_message-wraps size msg s w object fits h
    ∙ sym (ap₂ (λ c p. put msg c p (wrapped_here s)) a b)

module _ (size : ℕ) (s : Segment) (w : WriterOk size s) (id : ℕ) (listed : id < s.num_readers)
    (pending : List (List ℕ)) (m : List ℕ) (some_bytes : 0 < length m) (object : length m < 2 ^ 31)
    (fits : 3 * slot (length m) ≤ size) where
  wrapped-Follows :
      ¬ Stalled s id
      → Follows size s id pending
      → Settling size (wrapped (higher s.write_pointer) (lower s.write_pointer) s) id pending
  wrapped-Follows free (inl off) = inl (
      masked_keeps_zero (is_beyond (lower s.write_pointer) (higher s.write_pointer)) s.num_readers
        id s off)
  wrapped-Follows free (inr (inl t)) = inr (inr (wrapped-Same size s w id listed pending t))
  wrapped-Follows free (inr (inr (b, started))) =
      inl (wrapped-Behind size s w id listed pending b free)

  pub write_message-Follows :
      ¬ Stalled s id
      → Follows size s id pending
      → Follows size (write_message size (message m) s) id (pending ++ m ∷ [])
  write_message-Follows free f = elim (dec_lt (lower s.write_pointer + slot (length m) + 8) size) [
    | yes lt ↦ rw (write_message-fits size (message m) s w (wide m object) lt) (
        put-Follows size s id listed pending m some_bytes object (omega (arith, w.small))
          (settle size s id pending f))
    | no ge ↦
        subst (λ t. Follows size t id (pending ++ m ∷ []))
          (sym (wraps_here size (message m) s w (wide m object) fits (omega arith)))
          (put-Follows size (wrapped_here s) id listed pending m some_bytes object
            (omega (
              arith,
              w.small,
              (wrapped_halves (higher s.write_pointer) (lower s.write_pointer) s).1,
            ))
            (wrapped-Follows free f))
  ]

-- The flag of a reader in the writer's cycle, where the new message does not reach it.
is_inside_same :
    (start end cycles pointer : ℕ)
    → higher pointer ≡ cycles
    → is_inside start end cycles pointer ≡ false
unfolding is_inside
is_inside_same start end cycles pointer e = ground arith

is_inside_above :
    (start end cycles pointer : ℕ)
    → end ≤ lower pointer
    → is_inside start end cycles pointer ≡ false
unfolding is_inside
is_inside_above start end cycles pointer h = ground arith

is_beyond_same :
    (p cycles pointer : ℕ) → higher pointer ≡ cycles → is_beyond p cycles pointer ≡ false
unfolding is_beyond
is_beyond_same p cycles pointer e = ground arith

module _ (size : ℕ) (s : Segment) (w : WriterOk size s) (id : ℕ) (m : List ℕ)
    (some_bytes : 0 < length m) (object : length m < 2 ^ 31) (fits : 3 * slot (length m) ≤ size)
    (cycles : higher (s.read_pointers id) ≡ higher s.write_pointer) where
  -- A plain write keeps the flag of such a reader, and leaves it in the writer's cycle.
  plain_keeps :
      lower s.write_pointer + slot (length m) + 8 < size
      → let t = write_message size (message m) s in
        (t.read_valids id ≡ s.read_valids id) × ¬ Stalled t id
  plain_keeps lt = rw (write_message-fits size (message m) s w (wide m object) lt) (
    masked_miss (inside s (length m)) s.num_readers id s (is_inside_same _ _ _ _ cycles),
    λ f. f.1 (cycles ∙ sym (higher-pack64 _ _ (higher-lt s.write_pointer))),
  )

  -- So does a wrap-around whose message ends before it.
  wrap_keeps :
      size ≤ lower s.write_pointer + slot (length m) + 8
      → slot (length m) < lower (s.read_pointers id)
      → let t = write_message size (message m) s in
        (t.read_valids id ≡ s.read_valids id) × ¬ Stalled t id
  wrap_keeps ge ahead = rw (write_message-wraps size (message m) s w (wide m object) fits ge) (
    masked_miss (is_inside 0 (0 + slot (length m)) (u32 (higher s.write_pointer + 1))) s.num_readers
          id (wrapped_here s) (is_inside_above _ _ _ _ (omega arith))
        ∙ masked_miss (is_beyond (lower s.write_pointer) (higher s.write_pointer)) s.num_readers id
            s (is_beyond_same _ _ _ cycles),
    λ f. omega (
      arith,
      f.0,
      w.small,
      lower-pack64 (u32 (higher s.write_pointer + 1)) (0 + slot (length m)),
    ),
  )

caught_up_keeps :
    (size : ℕ) (s : Segment) (w : WriterOk size s) (id : ℕ) (m : List ℕ)
    → 0 < length m
    → length m < 2 ^ 31
    → 3 * slot (length m) ≤ size
    → Same s id []
    → let t = write_message size (message m) s in
      (t.read_valids id ≡ s.read_valids id) × ¬ Stalled t id
caught_up_keeps size s w id m some_bytes object fits t =
    elim (dec_lt (lower s.write_pointer + slot (length m) + 8) size) [
      | yes lt ↦ plain_keeps size s w id m some_bytes object fits t.cycles lt
      | no ge ↦
          wrap_keeps size s w id m some_bytes object fits t.cycles (omega arith)
            (omega (arith, t.chain, slot-ge (length m) some_bytes object))
    ]

pub tracking :
    (size : ℕ) (s : Segment) (id : ℕ) (pending : List (List ℕ))
    → Follows size s id pending
    → s.read_valids id ≢ 0
    → Tracking size s id pending
tracking size s id pending (inl off) on = absurd (on off)
tracking size s id pending (inr t) on = t

-- A send by the active publisher, of a message that is neither empty nor 2 GiB long, that returns:
-- it returns the message's length, and a listed reader that followed the writer, at whose place
-- the writer did not stand a cycle ahead, either has lost its flag or has exactly the new message
-- added at the end of what it has to receive.
pub send-Follows :
    (m : List ℕ) (q : Queue) (s : Segment) (id : ℕ) (pending : List (List ℕ)) {r : Sent}
    → 0 < length m
    → length m < 2 ^ 31
    → WriterOk q.size s
    → id < s.num_readers
    → ¬ Stalled s id
    → Follows q.size s id pending
    → q.write_uid_local ≡ s.write_uid
    → send (message m) q s ≡ done r
    → (r.rc ≡ pos (length m)) × Follows q.size r.segment id (pending ++ m ∷ [])
send-Follows m q s id pending {r} some_bytes object w listed free f active e =
    go (send-Outcome (message m) q s (wide m object) e)
  where
    go :
        Outcome (message m) q s r
        → (r.rc ≡ pos (length m)) × Follows q.size r.segment id (pending ++ m ∷ [])
    go (refused ne out) = absurd (ne active)
    go (sent eq fits out) = rw out (
      int_of_small (length m) object,
      write_message-Follows q.size s w id listed pending m some_bytes object fits free f,
    )

-- A send by the active publisher, of a message that is neither empty nor 2 GiB long, that returns:
-- a listed reader that has its flag and had received everything, in the writer's cycle, keeps its
-- flag, has exactly the new message to receive, and the writer does not stand at its place a cycle
-- ahead.
pub send_reaches_caught_up :
    (m : List ℕ) (q : Queue) (s : Segment) (id : ℕ) {r : Sent}
    → 0 < length m
    → length m < 2 ^ 31
    → WriterOk q.size s
    → id < s.num_readers
    → s.read_valids id ≢ 0
    → Same s id []
    → q.write_uid_local ≡ s.write_uid
    → send (message m) q s ≡ done r
    → (r.segment.read_valids id ≡ s.read_valids id)
      × Tracking q.size r.segment id (m ∷ [])
      × ¬ Stalled r.segment id
send_reaches_caught_up m q s id {r} some_bytes object w listed valid t active e =
    go (send-Outcome (message m) q s (wide m object) e)
  where
    go :
        Outcome (message m) q s r
        → (r.segment.read_valids id ≡ s.read_valids id)
          × Tracking q.size r.segment id (m ∷ [])
          × ¬ Stalled r.segment id
    go (refused ne out) = absurd (ne active)
    go (sent eq fits out) =
        let (same, free) = caught_up_keeps q.size s w id m some_bytes object fits t in
        rw out (
          same,
          tracking q.size _ id (m ∷ [])
              (write_message-Follows q.size s w id listed [] m some_bytes object fits
                (Same-free s id [] t) (inr (inl t)))
              (λ z. valid (sym same ∙ z)),
          free,
        )
