-- ===== src/Race/SendAlone.antt =====
-- A send that nothing interrupts is `write_message`.
use msgq.Publisher.Steps.{wrap_around_lem}
use msgq.Words.{u32, lower, signed_le_zero}
use msgq.Memory.{write_bytes}
use msgq.Race.Writes.{
  tagging, turning, sizing, Send, end_of, begin_send, idle, sweeping_beyond, clearing_beyond,
  sweeping_inside, clearing_inside, filling, publishing, notifying, Writing, clear_flag, write_step,
}
use msgq.Race.Repeated.{repeat, Leads, here, by_step, then_on}
use msgq.Queue.{thread_signal, Msg, Segment}
use msgq.Publisher.{
  wrap_around, is_beyond, is_inside, notify, total_size, remaining_space, put_message,
  write_message, invalidate,
}
use native.Mathlib.Numerals.{add-one}
use msgq.Base.{
  refl, false, List, [], ◌∷◌, ltb, lt→ltb, update, zero, suc, ◌+◌, ◌≤◌, ◌<◌, ◌≡◌, inl, inr, Bool,
  arith, if◌then◌else◌, Bool-cases, ℕ,
}

abbrev pub write_on : Segment × Writing → Segment × Writing
write_on x = write_step x.0 x.1

-- A loop of invalidation, given what its two accesses do.
sweep_loop :
    (doomed : ℕ → Bool) (n : ℕ) (sweep erase : ℕ → Writing)
    → ((i : ℕ) (t : Segment)
        → i < n
        → write_step t (sweep i)
          ≡ (t, if doomed (t.read_pointers i) then erase i else sweep (i + 1)))
    → ((i : ℕ) (t : Segment) → write_step t (erase i) ≡ (clear_flag i t, sweep (i + 1)))
    → (s : Segment) (i : ℕ) → i ≤ n
    → Leads write_on (s, sweep 0) (invalidate doomed i s, sweep i)
unfolding invalidate
sweep_loop doomed n sweep erase tests clears s zero le = here write_on _
sweep_loop doomed n sweep erase tests clears s (suc i) le =
    then_on write_on _ (sweep_loop doomed n sweep erase tests clears s i (omega (arith, le)))
      (elim (Bool-cases (doomed (t.read_pointers i))) [
        | inl hit ↦
            by_step write_on _ (tests i t (omega (arith, le)))
              (rw hit (by_step write_on _ (clears i t) (rw add-one (here write_on _))))
        | inr miss ↦
            by_step write_on _ (tests i t (omega (arith, le)))
              (rw (miss, add-one) (here write_on _))
      ])
  where
    t : Segment
    t = invalidate doomed i s

beyond_loop :
    (f : Send) (s : Segment) (i : ℕ)
    → i ≤ f.readers
    → Leads write_on
        (s, sweeping_beyond 0 f)
        (invalidate (is_beyond f.pointer f.cycles) i s, sweeping_beyond i f)
unfolding write_step
beyond_loop f =
    sweep_loop (is_beyond f.pointer f.cycles) f.readers (λ i. sweeping_beyond i f)
      (λ i. clearing_beyond i f) (λ i t less. rw (lt→ltb i f.readers less) refl) (λ i t. refl)

inside_loop :
    (f : Send) (s : Segment) (i : ℕ)
    → i ≤ f.readers
    → Leads write_on
        (s, sweeping_inside 0 f)
        (invalidate (is_inside f.pointer (end_of f) f.cycles) i s, sweeping_inside i f)
unfolding write_step
inside_loop f =
    sweep_loop (is_inside f.pointer (end_of f) f.cycles) f.readers (λ i. sweeping_inside i f)
      (λ i. clearing_inside i f) (λ i t less. rw (lt→ltb i f.readers less) refl) (λ i t. refl)

fill_loop :
    (f : Send) (xs : List ℕ) (p : ℕ) (s : Segment)
    → Leads write_on
        (s, filling p xs f)
        (record s { bytes = write_bytes s.bytes p xs }, publishing f)
unfolding write_step write_bytes
fill_loop f [] p s = by_step write_on _ refl (here write_on _)
fill_loop f (x ∷ xs) p s =
    by_step write_on _ refl (fill_loop f xs (p + 1) (record s { bytes = update s.bytes p x }))

notify_more :
    (f : Send) (s : Segment) (i : ℕ)
    → i < f.readers
    → write_step s (notifying i f) ≡ (thread_signal (s.read_uids i) s, notifying (i + 1) f)
unfolding write_step
notify_more f s i less = rw (lt→ltb i f.readers less) refl

notify_loop :
    (f : Send) (s : Segment) (i : ℕ)
    → i ≤ f.readers
    → Leads write_on (s, notifying 0 f) (notify i s, notifying i f)
unfolding notify
notify_loop f s zero le = here write_on _
notify_loop f s (suc i) le = then_on write_on _ (notify_loop f s i (omega (arith, le))) (
    by_step write_on _ (notify_more f (notify i s) i (omega (arith, le)))
      (rw add-one (here write_on _)))

-- How the loops end.
loops_over :
    (f : Send) (s : Segment) (n : ℕ)
    → f.readers ≡ n
    → (write_step s (sweeping_beyond n f) ≡ (s, turning f))
      × (write_step s (sweeping_inside n f) ≡ (s, sizing f))
      × (write_step s (notifying n f) ≡ (s, idle))
unfolding write_step
loops_over f s n same =
    let over : ltb n f.readers ≡ false = ground arith in (rw over refl, rw over refl, rw over refl)

-- From the second loop to the end.
put_alone :
    (f : Send) (s : Segment)
    → f.readers ≡ s.num_readers
    → Leads write_on (s, sweeping_inside 0 f) (put_message f.msg f.cycles f.pointer s, idle)
unfolding write_step put_message
put_alone f s same =
    (then_on write_on _ (inside_loop f s s.num_readers (omega (arith, same))) (
      by_step write_on _ ((loops_over f _ s.num_readers same).1) (
        by_step write_on _ refl (
          then_on write_on _ (fill_loop f _ _ _) (
            by_step write_on _ refl (
              then_on write_on _ (notify_loop f _ s.num_readers (omega (arith, same)))
                (by_step write_on _ ((loops_over f _ s.num_readers same).2) (here write_on _))))))))

-- The wrap-around.
wrap_alone :
    (f : Send) (s : Segment)
    → f.readers ≡ s.num_readers
    → Leads write_on
        (s, tagging f)
        (
          wrap_around f.cycles f.pointer s,
          sweeping_inside 0 (record f { cycles = u32 (f.cycles + 1); pointer = 0 }),
        )
unfolding write_step wrap_around
wrap_alone f s same =
    (by_step write_on _ refl (
      then_on write_on _ (beyond_loop f _ s.num_readers (omega (arith, same))) (
        by_step write_on _ ((loops_over f _ s.num_readers same).0)
          (by_step write_on _ refl (here write_on _)))))

-- The steps of a send that nothing interrupts end, and leave what `write_message` leaves.
pub send_alone :
    (size : ℕ) (msg : Msg) (s : Segment)
    → (k : ℕ) × (repeat write_on k (s, begin_send size msg s) ≡ (write_message size msg s, idle))
unfolding begin_send write_message
send_alone size msg s =
    elim (Bool-cases
      (signed_le_zero (remaining_space size (lower s.write_pointer) (total_size msg.size)))) [
        | inr fits ↦ rw fits (put_alone _ s refl)
        | inl wraps ↦
            rw wraps
              (then_on write_on _ (wrap_alone _ s refl) (put_alone _ _ (rw wrap_around_lem refl)))
      ]
