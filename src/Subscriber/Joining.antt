-- ===== src/Subscriber/Joining.antt =====
-- How `msgq_init_subscriber` finds a slot: with nobody else acting, and whatever others do to the
-- counter.
use msgq.Stream.Receiving.{moved}
use msgq.Words.{u64, lower}
use msgq.Subscriber.{
  quiet, Handle, reset_slot, reset_reader, evict_slots, evict_all, claim_slot, subscribe,
  init_subscriber,
}
use msgq.Queue.{max_readers, Segment, thread_signal, done}
use msgq.Publisher.Loops.{thread_ids, zeroed, update-zeroed, zeroed-at}
use msgq.Base.{
  refl, ◌∙◌, ◌≢◌, List, arith, ltb_of_le, ==_of_eq, ==_of_ne, zero, suc, ◌+◌, ◌<◌, ◌≡◌, ap, [], ◌∷◌,
  ◌++◌, append-nil, append_assoc, update, update-update, pos, ℕ,
}

-- A loop of eviction frees the first `n` slots and signals their threads, in order.
pub evict_slots_lem :
    (n : ℕ) (s : Segment)
    → evict_slots n s ≡ record s {
      read_valids = zeroed n s.read_valids;
      read_uids = zeroed n s.read_uids;
      signals = s.signals ++ thread_ids s.read_uids n;
    }
unfolding evict_slots thread_signal
evict_slots_lem zero s =
    ap
      (λ (v : (ℕ → ℕ) × (ℕ → ℕ) × List ℕ). record s {
        read_valids = v.0;
        read_uids = v.1;
        signals = v.2;
      })
      (ground (arith, append-nil s.signals))
evict_slots_lem (suc n) s =
    rw
      (
        evict_slots_lem n s,
        update-zeroed n s.read_valids,
        update-zeroed n s.read_uids,
        zeroed-at n s.read_uids,
      )
      (ap
        (λ l. record s {
          read_valids = zeroed (suc n) s.read_valids;
          read_uids = zeroed (suc n) s.read_uids;
          signals = l;
        })
        (append_assoc s.signals (thread_ids s.read_uids n) (lower (s.read_uids n) ∷ [])))

-- the segment when all readers are evicted
abbrev pub evicted : Segment → Segment
evicted s = record s {
  num_readers = 0;
  read_valids = zeroed max_readers s.read_valids;
  read_uids = zeroed max_readers s.read_uids;
  signals = s.signals ++ thread_ids s.read_uids max_readers;
}

evict_all_lem : (s : Segment) → evict_all s ≡ evicted s
unfolding evict_all
evict_all_lem s = evict_slots_lem max_readers (record s { num_readers = 0 })

-- the handle that joined in slot `id`: valid, at the write pointer, under its identity
abbrev pub joined : ℕ → ℕ → Handle → Handle
joined uid id h =
    let s = h.segment in
    record {
      queue = record (h.queue) { reader_id = pos id; read_uid_local = uid };
      segment = record s {
        num_readers = id + 1;
        read_valids = update s.read_valids id 1;
        read_pointers = update s.read_pointers id s.write_pointer;
        read_uids = update s.read_uids id uid;
      };
    }

claimed_lem :
    (uid id : ℕ) (h : Handle)
    → reset_reader
        (claim_slot uid id (record h { segment = record (h.segment) { num_readers = id + 1 } }))
      ≡ done (joined uid id h)
unfolding reset_reader claim_slot reset_slot
claimed_lem uid id h = rw (
  update-update h.segment.read_valids id 0 1,
  update-update h.segment.read_pointers id 0 h.segment.write_pointer,
)

-- One round of the loop: the slot is claimed, the counter has moved on, or all slots are taken.
module _ (others : ℕ → Segment → Segment) (n uid : ℕ) (h : Handle) where
  pub subscribe_claims :
      h.segment.num_readers < max_readers
      → (others n h.segment).num_readers ≡ h.segment.num_readers
      → subscribe others (suc n) uid h
        ≡ done (joined uid h.segment.num_readers (record h { segment = others n h.segment }))
  unfolding subscribe
  subscribe_claims free same =
      let new : u64 (h.segment.num_readers + 1) ≡ h.segment.num_readers + 1 = omega arith in
      rw (new, ltb_of_le max_readers (h.segment.num_readers + 1) (omega arith), ==_of_eq _ _ same)
        (claimed_lem uid h.segment.num_readers (record h { segment = others n h.segment }))

  pub subscribe_retries :
      h.segment.num_readers < max_readers
      → (others n h.segment).num_readers ≢ h.segment.num_readers
      → subscribe others (suc n) uid h
        ≡ subscribe others n uid (record h { segment = others n h.segment })
  unfolding subscribe
  subscribe_retries free moved =
      let new : u64 (h.segment.num_readers + 1) ≡ h.segment.num_readers + 1 = omega arith in
      rw (new, ltb_of_le max_readers (h.segment.num_readers + 1) (omega arith), ==_of_ne _ _ moved)

  pub subscribe_full :
      h.segment.num_readers ≡ max_readers
      → subscribe others (suc n) uid h
        ≡ subscribe others n uid (record h { segment = evicted h.segment })
  unfolding subscribe
  subscribe_full full =
      let new : u64 (h.segment.num_readers + 1) ≡ max_readers + 1 = omega arith in
      rw (new, evict_all_lem h.segment)

-- Without interference and with a free slot, the reader joins in the first free one, and no other
-- slot changes.
pub init_subscriber_joins :
    (uid : ℕ) (h : Handle)
    → h.segment.num_readers < max_readers
    → init_subscriber uid h ≡ done (joined uid h.segment.num_readers h)
unfolding init_subscriber
init_subscriber_joins uid h free = subscribe_claims quiet 1 uid h free refl

-- With all slots taken it evicts everyone, and joins in the first slot.
pub init_subscriber_evicts :
    (uid : ℕ) (h : Handle)
    → h.segment.num_readers ≡ max_readers
    → init_subscriber uid h ≡ done (joined uid 0 (record h { segment = evicted h.segment }))
unfolding init_subscriber
init_subscriber_evicts uid h full =
    subscribe_full quiet 1 uid h full
    ∙ subscribe_claims quiet 0 uid (record h { segment = evicted h.segment }) (omega arith) refl
