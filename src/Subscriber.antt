-- ===== src/Subscriber.antt =====
-- The reading side of msgq/msgq.cc: `msgq_reset_reader`, `msgq_init_subscriber`,
-- `msgq_msg_ready` and `msgq_msg_recv`. A `goto start` ends a pass, and a loop makes the passes.
pub mod Joining
use msgq.Memory.{read_bytes, read64}
use msgq.Base.{
  ◌&&◌, ◌||◌, leb, ◌-◌, ◌^◌, [], List, ℕ, zero, suc, ◌+◌, Bool, not, ℤ, pos, negsuc, ltb, ◌==◌,
  if◌then◌else◌, update,
}
use msgq.Words.{signed_le_zero, int_of, pack64, align, higher, u32, u64, lower}
use msgq.Queue.{Msg, Segment, Queue, Run, done, aborted, spinning, max_readers, thread_signal}

-- What the process gets from outside during a call: the identity that `msgq_get_uid` draws, and
-- whether `new(std::nothrow) char[n]` succeeds.
pub record Os : Type 0 where
  pub uid : ℕ
  pub alloc : ℕ → Bool

-- A handle with the segment that it maps.
pub record Handle : Type 0 where
  pub queue : Queue
  pub segment : Segment

-- `msgq_reset_reader`, for the slot `id`
unfoldable pub reset_slot : ℕ → Segment → Segment
reset_slot id s = record s {
  read_valids = update s.read_valids id 1;
  read_pointers = update s.read_pointers id s.write_pointer;
}

-- `msgq_reset_reader`. A handle that is no subscriber would index by -1.
unfoldable pub reset_reader : Handle → Run Handle
reset_reader h = elim h.queue.reader_id [
  | pos id ↦ done (record h { segment = reset_slot id h.segment })
  | negsuc _ ↦ aborted
]

-- the eviction loop over the first `n` slots
unfoldable pub evict_slots : ℕ → Segment → Segment
unfolding thread_signal
evict_slots zero s = s
evict_slots (suc n) s =
    let t = evict_slots n s in
    let uid = t.read_uids n in
    thread_signal uid
      (record t { read_valids = update t.read_valids n 0; read_uids = update t.read_uids n 0 })

-- all slots are taken: the whole branch
unfoldable pub evict_all : Segment → Segment
evict_all s = evict_slots max_readers (record s { num_readers = 0 })

-- the branch of `msgq_init_subscriber` after a successful compare-and-swap
unfoldable pub claim_slot : ℕ → ℕ → Handle → Handle
claim_slot uid id h =
    let s = h.segment in
    record {
      queue = record (h.queue) { reader_id = pos id; read_uid_local = uid };
      segment = record s {
        read_valids = update s.read_valids id 0;
        read_pointers = update s.read_pointers id 0;
        read_uids = update s.read_uids id uid;
      };
    }

-- The loop of `msgq_init_subscriber` with the reset behind it. `others n` is what other threads do
-- to the segment between the load of the counter and the compare-and-swap, with `n` rounds left.
unfoldable pub subscribe : (ℕ → Segment → Segment) → ℕ → ℕ → Handle → Run Handle
subscribe others zero uid h = spinning
subscribe others (suc n) uid h =
    let current = h.segment.num_readers in
    let new = u64 (current + 1) in
    let evicted = subscribe others n uid (record h { segment = evict_all h.segment }) in
    let s = others n h.segment in
    let retried = subscribe others n uid (record h { segment = s }) in
    let claimed =
      reset_reader
        (claim_slot uid current (record h { segment = record s { num_readers = new } })) in
    if ltb max_readers new then evicted else if s.num_readers == current then claimed else retried

-- nobody else acts
abbrev pub quiet : ℕ → Segment → Segment
quiet n s = s

-- `msgq_init_subscriber` without interference: the second round succeeds if the first does not.
unfoldable pub init_subscriber : ℕ → Handle → Run Handle
init_subscriber uid h = subscribe quiet 2 uid h

-- How a pass from `start:` ends.
pub data Pass {ℓ} (S : Type ℓ) : Type ℓ where
  again : S → Pass S
  finish : ℤ → S → Pass S
  failed : Pass S
  stuck : Pass S

-- The passes, with a bound on their number.
unfoldable pub passes {ℓ} : {S : Type ℓ} → (S → Pass S) → ℕ → S → Run (ℤ × S)
passes pass zero s = spinning
passes pass (suc n) s = elim (pass s) [
  | again t ↦ passes pass n t
  | finish rc t ↦ done (rc, t)
  | failed ↦ aborted
  | stuck ↦ spinning
]

-- an evicted reader subscribes again and starts over
unfoldable pub reconnect : ℕ → Handle → Pass Handle
reconnect uid h = elim (init_subscriber uid h) [
  | done h' ↦ again h'
  | aborted ↦ failed
  | spinning ↦ stuck
]

-- `msgq_msg_ready` from `start:`, past the assertion
unfoldable pub ready_at : Os → ℕ → Handle → Pass Handle
ready_at os id h =
    let s = h.segment in
    if not (h.queue.read_uid_local == s.read_uids id)
    then reconnect os.uid h
    else if s.read_valids id == 0
    then again (record h { segment = reset_slot id s })
    else if lower (s.read_pointers id) == lower s.write_pointer
    then finish (pos 0) h
    else finish (pos 1) h

unfoldable pub ready_pass : Os → Handle → Pass Handle
ready_pass os h = elim h.queue.reader_id [ pos id ↦ ready_at os id h | negsuc _ ↦ failed ]

-- `msgq_msg_ready`: two passes at most restore the reader.
unfoldable pub ready : Os → Handle → Run (ℤ × Handle)
ready os h = passes (ready_pass os) 4 h

-- The reader of `msgq_msg_recv`: its handle, and the caller's message.
pub record Reader : Type 0 where
  pub handle : Handle
  pub msg : Msg

-- `msgq_msg_init_size`: the bytes are not initialised, so `fill` is what the caller copies in.
unfoldable pub msg_init_size : (ℕ → Bool) → ℕ → List ℕ → Msg × ℤ
msg_init_size alloc size fill =
    if alloc size
    then (record { size = size; content = fill }, pos 0)
    else (record { size = size; content = [] }, negsuc 0)

-- `msgq_msg_close`
unfoldable pub msg_close : Msg → Msg
msg_close msg = record { size = 0; content = [] }

-- the write to `q->read_pointers[id]`
unfoldable pub set_pointer : ℕ → ℕ → Handle → Handle
set_pointer id packed h = record h {
  segment = record (h.segment) { read_pointers = update h.segment.read_pointers id packed };
}

-- From the copy of the message to the end of `msgq_msg_recv`.
unfoldable pub copy_message : Os → ℕ → ℕ → ℕ → ℕ → ℕ → Reader → Pass Reader
copy_message os id read_cycles read_pointer size new_pointer r =
    let body = read_bytes r.handle.segment.bytes (read_pointer + 8) size in
    let (msg, rc) = msg_init_size os.alloc size body in
    let h = set_pointer id (pack64 read_cycles new_pointer) r.handle in
    elim rc [
      | negsuc n ↦ finish (negsuc 0) (record r { msg = msg })
      | pos n ↦
          if h.segment.read_valids id == 0
          then again (record {
            handle = record h { segment = reset_slot id h.segment };
            msg = msg_close msg;
          })
          else finish (int_of msg.size) (record { handle = h; msg = msg })
    ]

-- A size tag was read: from the second test of the flag on.
unfoldable pub take_tagged : Os → ℕ → ℕ → ℕ → ℕ → ℕ → Reader → Pass Reader
take_tagged os id read_cycles read_pointer write_pointer size r =
    let h = r.handle in
    let new_pointer = u32 (align (u64 (read_pointer + 8 + size))) in
    if h.segment.read_valids id == 0
    then again (record r { handle = record h { segment = reset_slot id h.segment } })
    else if size == 2 ^ 64 - 1
    then again (record r { handle = set_pointer id (pack64 (u32 (read_cycles + 1)) 0) h })
    else if leb h.queue.size size || signed_le_zero size
    then failed
    else if h.queue.read_conflate && not (new_pointer == write_pointer)
    then again (record r { handle = set_pointer id (pack64 read_cycles new_pointer) h })
    else copy_message os id read_cycles read_pointer size new_pointer r

-- The flag was found set: from the unpacking of the pointers on.
unfoldable pub take_next : Os → ℕ → Reader → Pass Reader
take_next os id r =
    let s = r.handle.segment in
    let read_pointer = lower (s.read_pointers id) in
    let write_pointer = lower s.write_pointer in
    if read_pointer == write_pointer
    then finish (pos 0) (record r { msg = record (r.msg) { size = 0 } })
    else take_tagged os id (higher (s.read_pointers id)) read_pointer write_pointer
        (read64 s.bytes read_pointer) r

-- `msgq_msg_recv` from `start:`, past the assertion
unfoldable pub recv_at : Os → ℕ → Reader → Pass Reader
recv_at os id r =
    let h = r.handle in
    let s = h.segment in
    if not (h.queue.read_uid_local == s.read_uids id)
    then elim (reconnect os.uid h) [
      | again h' ↦ again (record r { handle = h' })
      | finish rc h' ↦ finish rc (record r { handle = h' })
      | failed ↦ failed
      | stuck ↦ stuck
    ]
    else if s.read_valids id == 0
    then again (record r { handle = record h { segment = reset_slot id s } })
    else take_next os id r

unfoldable pub recv_pass : Os → Reader → Pass Reader
recv_pass os r = elim r.handle.queue.reader_id [ pos id ↦ recv_at os id r | negsuc _ ↦ failed ]

-- `msgq_msg_recv`. A pass that skips a message for conflation moves on by sixteen bytes at least,
-- so the size of the queue bounds the passes.
unfoldable pub recv : Os → Reader → Run (ℤ × Reader)
recv os r = passes (recv_pass os) (r.handle.queue.size + 8) r
