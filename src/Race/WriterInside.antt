-- ===== src/Race/WriterInside.antt =====
-- The steps of the writer from the second loop on, and the start of a send.
use msgq.Words.{higher-pack64, lower-pack64}
use msgq.Race.Writes.{
  Send, end_of, write_step, sweeping_inside, clearing_inside, sizing, filling, publishing,
  notifying,
}
use msgq.Race.WriterSteps.{
  bounds, Intact-write64, Intact-update, inside_misses, Kept, at_place, stored_place,
}
use msgq.Race.Reads.{Setting}
use msgq.Queue.{Segment, thread_signal}
use msgq.Publisher.Steps.{next_slot, slot, slot_bounds}
use msgq.Publisher.{is_inside}
use msgq.Race.Invariant.{Position, Frame, last, Missed, Held, Sensible, Target}
use native.Mathlib.Decide.{ℕ_discrete}
use msgq.Base.{
  ◌%◌, ◌+◌, ◌^◌, ◌≤◌, ◌<◌, ◌≡◌, subst, ◌⊎◌, inl, inr, false, List, [], ◌∷◌, arith, length-take-le,
  ltb, Bool-cases, update_self, ℕ,
}

module _ (c : Setting) (t : Target) (fine : Sensible c t) where
  pub sweeping_inside_keeps :
      (n i : ℕ) (s : Segment) (f : Send)
      → n < 2 ^ 32
      → Held c t n s (sweeping_inside i f)
      → Kept c t fine n (write_step s (sweeping_inside i f))
  unfolding write_step
  sweeping_inside_keeps n i s f small h = elim (Bool-cases (ltb i f.readers)) [
    | inr over ↦
        rw over (inr (at_place c t fine h (h.at.0, h.at.1 (ground (arith, h.at.0.0.listed, over)))))
    | inl more ↦ elim (Bool-cases (is_inside f.pointer (end_of f) f.cycles (s.read_pointers i))) [
      | inl hit ↦ rw (more, hit) (inr (at_place c t fine h h.at))
      | inr miss ↦ rw (more, miss) (inr (at_place c t fine h (h.at.0, passed miss)))
    ]
  ]
    where
      passed :
          is_inside f.pointer (end_of f) f.cycles (s.read_pointers i) ≡ false
          → c.id < i + 1
          → Missed c t f
      passed miss less = elim (ℕ_discrete i c.id) [
        | yes same ↦ inside_misses c t fine n s f small h.at.0 h.here_cycles h.here_place (
            subst (λ j. is_inside f.pointer (end_of f) f.cycles (s.read_pointers j) ≡ false) same
              miss)
        | no apart ↦ h.at.1 (omega (arith, less, apart))
      ]

  pub clearing_inside_keeps :
      (n i : ℕ) (s : Segment) (f : Send)
      → Held c t n s (clearing_inside i f)
      → Kept c t fine n (write_step s (clearing_inside i f))
  unfolding write_step
  clearing_inside_keeps n i s f h = elim (ℕ_discrete i c.id) [
    | yes same ↦ inl (rw same (update_self s.read_valids c.id 0))
    | no apart ↦ inr (record {
      listed = h.listed;
      here_cycles = h.here_cycles;
      here_place = h.here_place;
      intact = h.intact;
      at = (h.at.0, λ less. h.at.1 (omega (arith, less, apart)));
    })
  ]

  -- What is stored lies before the message or behind it.
  aside :
      (f : Send) (p : ℕ)
      → Missed c t f
      → f.pointer ≤ p
      → p + 8 ≤ f.pointer + slot f.msg.size
      → (p + 8 ≤ t.place) ⊎ (last c t ≤ p)
  aside f p (inl ahead) from to = inr (omega (arith, ahead.1, from))
  aside f p (inr before) from to = inl (omega (arith, before, to))

  pub sizing_keeps :
      (n : ℕ) (s : Segment) (f : Send)
      → Held c t n s (sizing f)
      → Kept c t fine n (write_step s (sizing f))
  unfolding write_step
  sizing_keeps n s f h =
      let long = slot_bounds f.msg.size h.at.0.0.small in
      inr (
        stored_place c t fine _ h
          (Intact-write64 c t fine s.bytes f.pointer f.msg.size
            (aside f f.pointer h.at.1 (omega arith) (omega (arith, long))) h.intact)
          (
            h.at.0,
            h.at.1,
            omega arith,
            omega (arith, long, length-take-le f.msg.size f.msg.content),
          ))

  pub filling_keeps :
      (n p : ℕ) (xs : List ℕ) (s : Segment) (f : Send)
      → Held c t n s (filling p xs f)
      → Kept c t fine n (write_step s (filling p xs f))
  unfolding write_step
  filling_keeps n p [] s f h = inr (at_place c t fine h (h.at.0, h.at.1))
  filling_keeps n p (x ∷ xs) s f h = inr (
      stored_place c t fine _ h (Intact-update c t fine s.bytes p x (beside h.at.1) h.intact)
        (h.at.0, h.at.1, omega (arith, h.at.2), omega (arith, h.at.3)))
    where
      beside : Missed c t f → (p < t.place) ⊎ (last c t ≤ p)
      beside (inl ahead) = inr (omega (arith, ahead.1, h.at.2))
      beside (inr before) = inl (omega (arith, before, h.at.3))

  -- Behind the new message the writer is in position again.
  moved_past :
      {n : ℕ} (f : Send)
      → Frame c t n f
      → Missed c t f
      → Position c t n f.cycles (f.pointer + slot f.msg.size)
  moved_past f frame (inl ahead) = inl (ahead.0, omega (arith, ahead.1))
  moved_past f frame (inr before) = elim frame.position [
    | inl ahead ↦
        absurd (omega (arith, ahead.1, before, bounds c t fine, slot_bounds f.msg.size frame.small))
    | inr lapping ↦ inr (lapping.0, lapping.1, lapping.2, lapping.3, before)
  ]

  pub publishing_keeps :
      (n : ℕ) (s : Segment) (f : Send)
      → Held c t n s (publishing f)
      → Kept c t fine n (write_step s (publishing f))
  unfolding write_step
  publishing_keeps n s f h =
      let frame = h.at.0.0 in
      let long = slot_bounds f.msg.size frame.small in
      let new =
        (next_slot f.pointer f.msg.size frame.aligned (omega (arith, h.at.0.1, fine.small))
          frame.small).1 in
      let low =
        lower-pack64 f.cycles (f.pointer + slot f.msg.size) (omega (arith, h.at.0.1, fine.small)) in
      let short : (f.pointer + slot f.msg.size) % 2 ^ 32 ≡ f.pointer + slot f.msg.size =
        omega (arith, h.at.0.1, fine.small) in
      rw (new, short)
        (inr (record {
          listed = h.listed;
          here_cycles = h.here_cycles;
          here_place = h.here_place;
          intact = h.intact;
          at = (
            record {
              small = fine.small;
              aligned = rw low (omega (arith, frame.aligned, long));
              room = rw low (omega (arith, h.at.0.1));
            },
            rw (low, higher-pack64 f.cycles (f.pointer + slot f.msg.size) frame.range)
                (moved_past f frame h.at.1),
          );
        }))

  pub notifying_keeps :
      (n i : ℕ) (s : Segment) (f : Send)
      → Held c t n s (notifying i f)
      → Kept c t fine n (write_step s (notifying i f))
  unfolding write_step thread_signal
  notifying_keeps n i s f h = elim (Bool-cases (ltb i f.readers)) [
    | inl more ↦ rw more (
        inr (record {
          listed = h.listed;
          here_cycles = h.here_cycles;
          here_place = h.here_place;
          intact = h.intact;
          at = (
            record { small = h.at.0.small; aligned = h.at.0.aligned; room = h.at.0.room },
            h.at.1,
          );
        }))
    | inr over ↦ rw over (inr (at_place c t fine h h.at))
  ]
