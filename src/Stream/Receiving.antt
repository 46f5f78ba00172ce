-- ===== src/Stream/Receiving.antt =====
-- What one pass of `msgq_msg_recv` does for a reader that follows the writer.
use native.Mathlib.Nat.{mod-eq_of_lt}
use msgq.Words.{signed_le_zero, u32, pack64, higher, lower, int_of}
use msgq.Subscriber.{
  Pass, Os, Handle, Reader, msg_init_size, set_pointer, copy_message, take_tagged, take_next,
  recv_at, recv_pass, again, finish,
}
use msgq.Queue.{message}
use msgq.Publisher.Steps.{next_slot, slot}
use msgq.Memory.{read_bytes, read64}
use msgq.Base.{
  ◌≤◌, ap, ◌∙◌, false, arith, leb_of_lt, ◌+◌, ◌-◌, ◌%◌, ◌^◌, ◌<◌, ◌≡◌, ◌≢◌, true, not, ◌&&◌, List,
  length, ◌==◌, if◌then◌else◌, ==_of_eq, ==_of_ne, pos, ℕ,
}

-- The handle is the subscriber in slot `id`, neither evicted nor invalidated.
pub record Attached (h : Handle) (id : ℕ) : Type 0 where
  pub is_reader : h.queue.reader_id ≡ pos id
  pub owned : h.queue.read_uid_local ≡ h.segment.read_uids id
  pub valid : h.segment.read_valids id ≢ 0

-- the two halves of the read pointer of slot `id`, and the place of the writer
abbrev pub cycle_of : Handle → ℕ → ℕ
cycle_of h id = higher (h.segment.read_pointers id)

abbrev pub place_of : Handle → ℕ → ℕ
place_of h id = lower (h.segment.read_pointers id)

abbrev pub writer_place : Handle → ℕ
writer_place h = lower h.segment.write_pointer

-- the handle with the reader moved to `place` in cycle `cycles`
abbrev pub moved : ℕ → ℕ → ℕ → Handle → Handle
moved id cycles place h = set_pointer id (pack64 cycles place) h

pub recv_pass-Attached :
    (os : Os) (r : Reader) (id : ℕ) → Attached r.handle id → recv_pass os r ≡ take_next os id r
unfolding recv_pass recv_at
recv_pass-Attached os r id a = rw (a.is_reader, ==_of_eq _ _ a.owned, ==_of_ne _ _ a.valid)

-- An attached reader stays attached as its pointer moves.
pub Attached-moved :
    (h : Handle) (id packed : ℕ) → Attached h id → Attached (set_pointer id packed h) id
unfolding set_pointer
Attached-moved h id packed a = record { is_reader = a.is_reader; owned = a.owned; valid = a.valid }

-- Nothing to read.
pub take_next-empty :
    (os : Os) (r : Reader) (id : ℕ)
    → place_of r.handle id ≡ writer_place r.handle
    → take_next os id r ≡ finish (pos 0) (record r { msg = record (r.msg) { size = 0 } })
unfolding take_next
take_next-empty os r id e = rw (==_of_eq _ _ e)

-- The wrap-around tag moves the reader to the start of the next cycle.
pub take_next-tag :
    (os : Os) (r : Reader) (id : ℕ)
    → r.handle.segment.read_valids id ≢ 0
    → place_of r.handle id ≢ writer_place r.handle
    → read64 r.handle.segment.bytes (place_of r.handle id) ≡ 2 ^ 64 - 1
    → take_next os id r
      ≡ again (record r { handle = moved id (u32 (cycle_of r.handle id + 1)) 0 r.handle })
unfolding take_next take_tagged
take_next-tag os r id valid apart tag = rw (==_of_ne _ _ apart, ==_of_ne _ _ valid, tag)

signed_positive : (n : ℕ) → 0 < n → n < 2 ^ 32 → signed_le_zero n ≡ false
unfolding signed_le_zero
signed_positive n h k = ground arith

-- A copy that no one disturbs.
copy_message_lem :
    (os : Os) (id cycles p new : ℕ) (r : Reader) (m : List ℕ)
    → r.handle.segment.read_valids id ≢ 0
    → read_bytes r.handle.segment.bytes (p + 8) (length m) ≡ m
    → os.alloc (length m) ≡ true
    → copy_message os id cycles p (length m) new r
      ≡ finish
          (int_of (length m))
          (record { handle = moved id cycles new r.handle; msg = message m })
unfolding copy_message msg_init_size set_pointer
copy_message_lem os id cycles p new r m valid body room =
    rw (copy_message, msg_init_size, room, body, ==_of_ne _ _ valid, room)

-- A size tag of a message is there: it is skipped for conflation, or copied out.
take_tagged_lem :
    (os : Os) (id cycles p w n : ℕ) (r : Reader)
    → r.handle.segment.read_valids id ≢ 0
    → 0 < n
    → p % 8 ≡ 0
    → p + slot n < r.handle.queue.size
    → n + 8 ≤ slot n
    → r.handle.queue.size < 2 ^ 32
    → take_tagged os id cycles p w n r ≡ (
        if r.handle.queue.read_conflate && not (p + slot n == w)
        then again (record r { handle = moved id cycles (p + slot n) r.handle })
        else copy_message os id cycles p n (p + slot n) r)
unfolding take_tagged
take_tagged_lem os id cycles p w n r valid some_bytes aligned fits long small = rw (
  ==_of_ne _ _ valid,
  ==_of_ne n (2 ^ 64 - 1) (λ e. omega arith),
  leb_of_lt r.handle.queue.size n (omega arith),
  signed_positive n some_bytes (omega arith),
  (next_slot p n aligned (omega arith) (omega arith)).0,
  mod-eq_of_lt {n = p + slot n} {m = 2 ^ 32} (omega arith),
)

-- What the pass does with a message of these bytes, once it is moved past it.
abbrev pub delivered : ℕ → List ℕ → Reader → Pass Reader
delivered id m r =
    let place = place_of r.handle id + slot (length m) in
    let h = moved id (cycle_of r.handle id) place r.handle in
    if r.handle.queue.read_conflate && not (place == writer_place r.handle)
    then again (record r { handle = h })
    else finish (int_of (length m)) (record { handle = h; msg = message m })

pub take_next-message :
    (os : Os) (r : Reader) (id : ℕ) (m : List ℕ)
    → r.handle.segment.read_valids id ≢ 0
    → place_of r.handle id ≢ writer_place r.handle
    → read64 r.handle.segment.bytes (place_of r.handle id) ≡ length m
    → read_bytes r.handle.segment.bytes (place_of r.handle id + 8) (length m) ≡ m
    → 0 < length m
    → place_of r.handle id % 8 ≡ 0
    → place_of r.handle id + slot (length m) < r.handle.queue.size
    → length m + 8 ≤ slot (length m)
    → r.handle.queue.size < 2 ^ 32
    → os.alloc (length m) ≡ true
    → take_next os id r ≡ delivered id m r
unfolding take_next
take_next-message os r id m valid apart tag body some_bytes aligned fits long small room =
    rw (==_of_ne _ _ apart, tag)
      (take_tagged_lem os id (cycle_of r.handle id) (place_of r.handle id) (writer_place r.handle)
          (length m) r valid some_bytes aligned fits long small
        ∙ ap
            (λ c.
              if r.handle.queue.read_conflate
                && not (place_of r.handle id + slot (length m) == writer_place r.handle)
              then again (record r {
                handle =
                    moved id (cycle_of r.handle id) (place_of r.handle id + slot (length m))
                      r.handle;
              })
              else c)
            (copy_message_lem os id (cycle_of r.handle id) (place_of r.handle id) _ r m valid body
              room))
