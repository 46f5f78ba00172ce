-- ===== src/Stream/Lapped.antt =====
-- What becomes of a reader of msgq/msgq.cc to whose place the writer has come round, when the next
-- send wraps around.
use msgq.Stream.Delivery.{passes-finish, passes-again, delivered-last}
use msgq.Memory.Laws.{read64-write64, read64-Agree}
use msgq.Words.{int_of, u32, higher, lower, lower-pack64}
use msgq.Subscriber.{passes, Handle, set_pointer, recv, finish, Os, Reader, recv_pass, again}
use msgq.Stream.Writing.{wide, masked_miss}
use msgq.Stream.Session.{with_segment}
use msgq.Stream.Receiving.{
  take_next-message, Attached, cycle_of, place_of, writer_place, moved, recv_pass-Attached,
  Attached-moved, take_next-tag,
}
use msgq.Stream.Moving.{place_of-moved}
use msgq.Stream.Chain.{stored-Chain, slot-ge}
use msgq.Stream.{Chain, Stalled}
use msgq.Queue.{done, Segment, message}
use msgq.Publisher.Steps.{slot_bounds, stored_outside, slot, put, wrapped}
use msgq.Publisher.Bounds.{write_message-wraps, WriterOk}
use msgq.Publisher.{write_message, is_beyond, is_inside}
use msgq.Memory.{read_bytes, write64, read64}
use msgq.Base.{
  suc, ap, inr, false, [], ◌∷◌, ◌+◌, ◌-◌, ◌*◌, ◌^◌, ◌≤◌, ◌<◌, ◌≡◌, sym, ◌∙◌, true, List, arith,
  length, ℕ,
}

is_inside-false :
    (start end cycles pointer : ℕ)
    → end ≤ lower pointer
    → is_inside start end cycles pointer ≡ false
unfolding is_inside
is_inside-false start end cycles pointer h = ground arith

is_beyond-false :
    (place cycles pointer : ℕ) → lower pointer ≤ place → is_beyond place cycles pointer ≡ false
unfolding is_beyond
is_beyond-false place cycles pointer h = ground arith

module _ (os : Os) (id : ℕ) (m : List ℕ) (r : Reader) (some_bytes : 0 < length m)
    (object : length m < 2 ^ 31) (room : os.alloc (length m) ≡ true) (a : Attached r.handle id)
    (w : WriterOk r.handle.queue.size r.handle.segment) (stalled : Stalled r.handle.segment id)
    (fits : 3 * slot (length m) ≤ r.handle.queue.size)
    (wraps : r.handle.queue.size ≤ writer_place r.handle + slot (length m) + 8) where
  -- the segment behind the send
  abbrev after : Segment
  after =
      put (message m) (u32 (higher r.handle.segment.write_pointer + 1)) 0
        (wrapped (higher r.handle.segment.write_pointer) (writer_place r.handle) r.handle.segment)

  beyond : slot (length m) + 8 ≤ writer_place r.handle
  beyond = omega (arith, fits, wraps, slot-ge (length m) some_bytes object)

  valid_after : after.read_valids id ≡ r.handle.segment.read_valids id
  valid_after =
      masked_miss
        (is_inside 0 (0 + slot (length m)) (u32 (higher r.handle.segment.write_pointer + 1)))
        r.handle.segment.num_readers id
        (wrapped (higher r.handle.segment.write_pointer) (writer_place r.handle) r.handle.segment)
        (is_inside-false 0 (0 + slot (length m)) _ _ (omega (arith, beyond, stalled.0)))
      ∙ masked_miss (is_beyond (writer_place r.handle) (higher r.handle.segment.write_pointer))
          r.handle.segment.num_readers id r.handle.segment
          (is_beyond-false _ _ _ (omega (arith, stalled.0)))

  writer_after : lower after.write_pointer ≡ slot (length m)
  writer_after = lower-pack64 _ (0 + slot (length m)) (omega (arith, w.small, fits)) ∙ omega arith

  tag_after : read64 after.bytes (place_of r.handle id) ≡ 2 ^ 64 - 1
  tag_after =
      read64-Agree (write64 r.handle.segment.bytes (writer_place r.handle) (2 ^ 64 - 1)) after.bytes
        (place_of r.handle id)
        (λ b l u.
          stored_outside 0 (message m) _ b (wide m object)
            (inr (omega (arith, l, beyond, stalled.0))))
      ∙ ap (read64 (write64 r.handle.segment.bytes (writer_place r.handle) (2 ^ 64 - 1))) stalled.0
      ∙ read64-write64 r.handle.segment.bytes (writer_place r.handle) (2 ^ 64 - 1) (omega arith)

  after-Attached : Attached (with_segment after r).handle id
  after-Attached = record {
    is_reader = a.is_reader;
    owned = a.owned;
    valid = λ e. a.valid (sym valid_after ∙ e);
  }

  -- the reader behind its first pass
  abbrev skipped : Reader
  skipped = record (with_segment after r) {
    handle = moved id (u32 (cycle_of r.handle id + 1)) 0 (with_segment after r).handle;
  }

  first_pass : recv_pass os (with_segment after r) ≡ again skipped
  first_pass =
      recv_pass-Attached os (with_segment after r) id after-Attached
      ∙ take_next-tag os (with_segment after r) id after-Attached.valid
          (λ e. omega (arith, e, stalled.0, writer_after, beyond)) tag_after

  skipped-Attached : Attached skipped.handle id
  skipped-Attached = Attached-moved (with_segment after r).handle id _ after-Attached

  skipped_place : place_of skipped.handle id ≡ 0
  skipped_place = place_of-moved id (with_segment after r).handle 0 _ (omega arith) (omega arith)

  stored_first : Chain after.bytes 0 (m ∷ []) (0 + slot (length m))
  stored_first =
      stored-Chain (write64 r.handle.segment.bytes (writer_place r.handle) (2 ^ 64 - 1)) 0 m
        some_bytes object

  -- the same memory and writer, seen from the reader behind its first pass
  second_pass :
      recv_pass os skipped
      ≡ finish (int_of (length m)) (record {
        handle =
            moved id
              (cycle_of skipped.handle id)
              (place_of skipped.handle id + slot (length m))
              skipped.handle;
        msg = message m;
      })
  unfolding set_pointer
  second_pass =
      recv_pass-Attached os skipped id skipped-Attached
      ∙ take_next-message os skipped id m skipped-Attached.valid
          (λ e. omega (arith, e, skipped_place, writer_after, slot-ge (length m) some_bytes object))
          (ap (read64 after.bytes) skipped_place ∙ stored_first.2)
          (ap (λ p. read_bytes after.bytes (p + 8) (length m)) skipped_place ∙ stored_first.3)
          some_bytes (omega (arith, skipped_place))
          (omega (arith, skipped_place, fits, slot-ge (length m) some_bytes object))
          (omega (arith, slot_bounds (length m) (wide m object))) w.small room
      ∙ delivered-last id m skipped (omega (arith, skipped_place, writer_after))

  both_passes :
      recv os (with_segment after r)
      ≡ done (
        int_of (length m),
        record {
          handle =
              moved id
                (cycle_of skipped.handle id)
                (place_of skipped.handle id + slot (length m))
                skipped.handle;
          msg = message m;
        },
      )
  unfolding recv
  both_passes =
      let n = r.handle.queue.size in
      let fuel : n + 8 ≡ suc (suc (n + 6)) = omega arith in
      ap (λ k. passes (recv_pass os) k (with_segment after r)) fuel
      ∙ passes-again (recv_pass os) (suc (n + 6)) _ _ first_pass
      ∙ passes-finish (recv_pass os) (n + 6) _ _ _ second_pass

-- A reader holds its slot and its flag, the writer stands at its place a cycle ahead, and a message
-- is written that is neither empty nor 2 GiB long, fits the queue three times, and needs a
-- wrap-around. The reader keeps its flag, and its next receive, memory being available, returns
-- this message: it skips all of the lap before, whatever the lap holds.
pub lapped_skips :
    (os : Os) (id : ℕ) (m : List ℕ) (r : Reader)
    → 0 < length m
    → length m < 2 ^ 31
    → os.alloc (length m) ≡ true
    → Attached r.handle id
    → WriterOk r.handle.queue.size r.handle.segment
    → Stalled r.handle.segment id
    → 3 * slot (length m) ≤ r.handle.queue.size
    → r.handle.queue.size ≤ writer_place r.handle + slot (length m) + 8
    → let t = write_message r.handle.queue.size (message m) r.handle.segment in
      (t.read_valids id ≡ r.handle.segment.read_valids id)
      × ((h : Handle) × (recv os (with_segment t r)
            ≡ done (int_of (length m), record { handle = h; msg = message m })))
lapped_skips os id m r some_bytes object room a w stalled fits wraps =
    rw
      (write_message-wraps r.handle.queue.size (message m) r.handle.segment w (wide m object) fits
        wraps)
      (
        valid_after os id m r some_bytes object room a w stalled fits wraps,
        (_, both_passes os id m r some_bytes object room a w stalled fits wraps),
      )
