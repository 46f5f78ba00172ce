-- ===== src/Race/Sends.antt =====
-- The start of a send, and any step of it, beside an attached reader.
use msgq.Words.{higher, lower, higher-lt}
use msgq.Race.Writes.{
  Send, Writing, begin_send, write_step, idle, tagging, sweeping_beyond, clearing_beyond, turning,
  sweeping_inside, clearing_inside, sizing, filling, publishing, notifying,
}
use msgq.Race.WriterSteps.{
  Kept, Lapping-more, tagging_keeps, sweeping_beyond_keeps, clearing_beyond_keeps, turning_keeps,
}
use msgq.Race.WriterInside.{
  sweeping_inside_keeps, clearing_inside_keeps, sizing_keeps, filling_keeps, publishing_keeps,
  notifying_keeps,
}
use msgq.Race.Reads.{Setting}
use msgq.Race.Invariant.{Target, Frame, WriterAt, Held, Sensible, Off}
use msgq.Queue.{Segment, Msg, thread_signal}
use msgq.Publisher.Steps.{slot}
use msgq.Publisher.Bounds.{room_lem}
use msgq.Events.Choice.{not-below}
use native.Mathlib.Decide.{dec_lt}
use msgq.Base.{suc, ◌+◌, ◌*◌, ◌^◌, ◌≤◌, ◌<◌, inl, inr, [], ◌∷◌, arith, leb_of_le, leb_of_lt, ℕ}

module _ (c : Setting) (t : Target) (fine : Sensible c t) where
  at_start :
      (n : ℕ) (s : Segment) (msg : Msg)
      → Held c t n s idle
      → msg.size < 2 ^ 62
      → 3 * slot msg.size ≤ c.size
      → Frame c t n (record {
        msg = msg;
        readers = s.num_readers;
        cycles = higher s.write_pointer;
        pointer = lower s.write_pointer;
      })
  at_start n s msg h small fits = record {
    listed = h.listed;
    small = small;
    fits = fits;
    aligned = h.at.0.aligned;
    room = h.at.0.room;
    range = higher-lt s.write_pointer;
    position = h.at.1;
  }

  pub begin_keeps :
      (n : ℕ) (s : Segment) (msg : Msg)
      → Held c t n s idle
      → msg.size < 2 ^ 62
      → 3 * slot msg.size ≤ c.size
      → Held c t (suc n) s (begin_send c.size msg s)
  unfolding begin_send
  begin_keeps n s msg h small fits =
      let frame = at_start n s msg h small fits in
      let p = lower s.write_pointer in
      let roomy = room_lem c.size p msg.size fine.small h.at.0.room small (omega (arith, fits)) in
      elim (dec_lt (p + slot msg.size + 8) c.size) [
        | no wraps ↦
            rw (roomy, leb_of_le c.size (p + slot msg.size + 8) (omega (arith, wraps)))
              (moved_to h (n, omega arith, frame))
        | yes less ↦
            rw (roomy, leb_of_lt c.size (p + slot msg.size + 8) less)
              (moved_to h
                ((Frame-more frame, omega (arith, less)), λ sooner. absurd (not-below _ sooner)))
      ]
    where
      moved_to : {v : Writing} → Held c t n s idle → WriterAt c t (suc n) s v → Held c t (suc n) s v
      moved_to k at = record {
        listed = k.listed;
        here_cycles = k.here_cycles;
        here_place = k.here_place;
        intact = k.intact;
        at = at;
      }

      Frame-more : {f : Send} → Frame c t n f → Frame c t (suc n) f
      Frame-more frame = record {
        listed = frame.listed;
        small = frame.small;
        fits = frame.fits;
        aligned = frame.aligned;
        room = frame.room;
        range = frame.range;
        position = Lapping-more c t fine (omega arith) frame.position;
      }

  -- A cleared flag stays cleared while the writer runs.
  pub write_step-Off : (s : Segment) (w : Writing) → Off c t s → Off c t (write_step s w).0
  unfolding write_step thread_signal
  write_step-Off s idle off = off
  write_step-Off s (tagging f) off = off
  write_step-Off s (sweeping_beyond i f) off = off
  write_step-Off s (clearing_beyond i f) off = ground (arith, off)
  write_step-Off s (turning f) off = off
  write_step-Off s (sweeping_inside i f) off = off
  write_step-Off s (clearing_inside i f) off = ground (arith, off)
  write_step-Off s (sizing f) off = off
  write_step-Off s (filling p [] f) off = off
  write_step-Off s (filling p (x ∷ xs) f) off = off
  write_step-Off s (publishing f) off = off
  write_step-Off s (notifying i f) off = ground (arith, off)

  step_keeps :
      (n : ℕ) (s : Segment) (w : Writing)
      → n < 2 ^ 32
      → Held c t n s w
      → Kept c t fine n (write_step s w)
  step_keeps n s idle small h = unfold write_step in inr h
  step_keeps n s (tagging f) small h = tagging_keeps c t fine n s f h
  step_keeps n s (sweeping_beyond i f) small h = sweeping_beyond_keeps c t fine n i s f small h
  step_keeps n s (clearing_beyond i f) small h = clearing_beyond_keeps c t fine n i s f h
  step_keeps n s (turning f) small h = turning_keeps c t fine n s f h
  step_keeps n s (sweeping_inside i f) small h = sweeping_inside_keeps c t fine n i s f small h
  step_keeps n s (clearing_inside i f) small h = clearing_inside_keeps c t fine n i s f h
  step_keeps n s (sizing f) small h = sizing_keeps c t fine n s f h
  step_keeps n s (filling p xs f) small h = filling_keeps c t fine n p xs s f h
  step_keeps n s (publishing f) small h = publishing_keeps c t fine n s f h
  step_keeps n s (notifying i f) small h = notifying_keeps c t fine n i s f h

  pub write_step-Kept :
      (n : ℕ) (s : Segment) (w : Writing)
      → n < 2 ^ 32
      → Kept c t fine n (s, w)
      → Kept c t fine n (write_step s w)
  write_step-Kept n s w small (inl off) = inl (write_step-Off s w off)
  write_step-Kept n s w small (inr h) = step_keeps n s w small h
