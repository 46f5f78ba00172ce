-- ===== src/Membership/Recovery.antt =====
-- An evicted or invalidated reader recovers in one call of `msgq_msg_recv` or `msgq_msg_ready`.
use msgq.Words.{higher, lower}
use msgq.Subscriber.{
  Os, Handle, reset_slot, init_subscriber, reconnect, ready_at, ready_pass, ready, Reader, recv_at,
  recv_pass, recv, again,
}
use msgq.Stream.Receiving.{Attached, place_of, writer_place, recv_pass-Attached, take_next-empty}
use msgq.Stream.Delivery.{passes-finish, passes-again}
use msgq.Stream.Answers.{ready_pass-Attached}
use msgq.Stream.{Same}
use msgq.Queue.{done}
use msgq.Membership.{Sane, Fresh, init_subscriber_total}
use msgq.Base.{suc, ◌+◌, ◌%◌, ◌≡◌, ap, ◌∙◌, ◌≢◌, [], arith, ==_of_eq, ==_of_ne, update_self, pos, ℕ}

-- A call whose first pass leads to an attached reader at the writer's place.
recv-again :
    (os : Os) (id : ℕ) (r t : Reader)
    → recv_pass os r ≡ again t
    → Attached t.handle id
    → place_of t.handle id ≡ writer_place t.handle
    → recv os r ≡ done (pos 0, record t { msg = record (t.msg) { size = 0 } })
unfolding recv
recv-again os id r t e a here =
    let fuel : r.handle.queue.size + 8 ≡ suc (suc (r.handle.queue.size + 6)) = omega arith in
    rw fuel (
      passes-again (recv_pass os) (suc (r.handle.queue.size + 6)) r t e
      ∙ passes-finish (recv_pass os) (r.handle.queue.size + 6) t _ (pos 0)
          (recv_pass-Attached os t id a ∙ take_next-empty os t id here))

ready-again :
    (os : Os) (id : ℕ) (h t : Handle)
    → ready_pass os h ≡ again t
    → Attached t id
    → place_of t id ≡ writer_place t
    → ready os h ≡ done (pos 0, t)
unfolding ready
ready-again os id h t e a here =
    passes-again (ready_pass os) 3 h t e
    ∙ passes-finish (ready_pass os) 2 t t (pos 0)
        (ready_pass-Attached os id t a ∙ rw (==_of_eq (place_of t id) (writer_place t) here))

-- the handle with the reader of slot `id` reset
abbrev pub reset_here : ℕ → Handle → Handle
reset_here id h = record h { segment = reset_slot id h.segment }

reset_here-Attached :
    (id : ℕ) (h : Handle)
    → h.queue.reader_id ≡ pos id
    → h.queue.read_uid_local ≡ h.segment.read_uids id
    → Attached (reset_here id h) id
unfolding reset_slot
reset_here-Attached id h is_reader owned = record {
  is_reader = is_reader;
  owned = owned;
  valid = λ e. omega (arith, update_self h.segment.read_valids id 1, e);
}

reset_here-pointer :
    (id : ℕ) (h : Handle) → (reset_here id h).segment.read_pointers id ≡ h.segment.write_pointer
unfolding reset_slot
reset_here-pointer id h = update_self h.segment.read_pointers id h.segment.write_pointer

reset_here-Same :
    (id : ℕ) (h : Handle)
    → lower h.segment.write_pointer % 8 ≡ 0
    → Same (reset_here id h).segment id []
unfolding reset_slot
reset_here-Same id h aligned =
    let here = update_self h.segment.read_pointers id h.segment.write_pointer in
    record {
      cycles = ap higher here;
      aligned = omega (arith, ap lower here);
      chain = ap lower here;
    }

recv_first :
    (os : Os) (id : ℕ) (r : Reader)
    → r.handle.queue.reader_id ≡ pos id
    → r.handle.queue.read_uid_local ≡ r.handle.segment.read_uids id
    → r.handle.segment.read_valids id ≡ 0
    → recv_pass os r ≡ again (record r { handle = reset_here id r.handle })
unfolding recv_pass recv_at
recv_first os id r is_reader owned off = rw (is_reader, ==_of_eq _ _ owned, ==_of_eq _ _ off)

ready_first :
    (os : Os) (id : ℕ) (h : Handle)
    → h.queue.reader_id ≡ pos id
    → h.queue.read_uid_local ≡ h.segment.read_uids id
    → h.segment.read_valids id ≡ 0
    → ready_pass os h ≡ again (reset_here id h)
unfolding ready_pass ready_at
ready_first os id h is_reader owned off = rw (is_reader, ==_of_eq _ _ owned, ==_of_eq _ _ off)

-- A reader that holds its slot but lost its flag, the write pointer being aligned, is reset by
-- the next call: `msgq_msg_recv` and `msgq_msg_ready`
-- report no message, and leave it attached with everything sent from now on to receive.
pub invalidated_recovers :
    (os : Os) (id : ℕ) (r : Reader)
    → r.handle.queue.reader_id ≡ pos id
    → r.handle.queue.read_uid_local ≡ r.handle.segment.read_uids id
    → r.handle.segment.read_valids id ≡ 0
    → lower r.handle.segment.write_pointer % 8 ≡ 0
    → let h = reset_here id r.handle in
      (recv os r ≡ done (pos 0, record { handle = h; msg = record (r.msg) { size = 0 } }))
      × (ready os r.handle ≡ done (pos 0, h))
      × Attached h id
      × Same h.segment id []
unfolding reset_slot
invalidated_recovers os id r is_reader owned off aligned =
    let a = reset_here-Attached id r.handle is_reader owned in
    let here = ap lower (reset_here-pointer id r.handle) in
    (
      recv-again os id r (record r { handle = reset_here id r.handle })
          (recv_first os id r is_reader owned off) a here,
      ready-again os id r.handle (reset_here id r.handle)
          (ready_first os id r.handle is_reader owned off) a here,
      a,
      reset_here-Same id r.handle aligned,
    )

reconnect_lem :
    (uid : ℕ) (h h' : Handle) → init_subscriber uid h ≡ done h' → reconnect uid h ≡ again h'
unfolding reconnect
reconnect_lem uid h h' e = rw (e, reconnect)

recv_pass-at :
    (os : Os) (id : ℕ) (r : Reader)
    → r.handle.queue.reader_id ≡ pos id
    → recv_pass os r ≡ recv_at os id r
unfolding recv_pass
recv_pass-at os id r e = ground arith

ready_pass-at :
    (os : Os) (id : ℕ) (h : Handle)
    → h.queue.reader_id ≡ pos id
    → ready_pass os h ≡ ready_at os id h
unfolding ready_pass
ready_pass-at os id h e = ground arith

recv_evicted :
    (os : Os) (id : ℕ) (r : Reader) (h : Handle)
    → r.handle.queue.read_uid_local ≢ r.handle.segment.read_uids id
    → init_subscriber os.uid r.handle ≡ done h
    → recv_at os id r ≡ again (record r { handle = h })
unfolding recv_at
recv_evicted os id r h lost e = rw (==_of_ne _ _ lost, reconnect_lem os.uid r.handle h e)

ready_evicted :
    (os : Os) (id : ℕ) (h h' : Handle)
    → h.queue.read_uid_local ≢ h.segment.read_uids id
    → init_subscriber os.uid h ≡ done h'
    → ready_at os id h ≡ again h'
unfolding ready_at
ready_evicted os id h h' lost e = rw (==_of_ne _ _ lost, reconnect_lem os.uid h h' e)

-- A reader whose slot no longer holds its identity subscribes again in the next call, under the
-- identity that the call draws: `msgq_msg_recv` and `msgq_msg_ready` report no message, and
-- leave the reader freshly subscribed.
pub evicted_rejoins :
    (os : Os) (id : ℕ) (r : Reader)
    → Sane r.handle.segment
    → r.handle.queue.reader_id ≡ pos id
    → r.handle.queue.read_uid_local ≢ r.handle.segment.read_uids id
    → (h : Handle) × (recv os r
        ≡ done (pos 0, record { handle = h; msg = record (r.msg) { size = 0 } }))
      × (ready os r.handle ≡ done (pos 0, h))
      × Fresh os.uid h
evicted_rejoins os id r sane is_reader lost =
    let (h, e, f) = init_subscriber_total os.uid r.handle sane in
    (
      h,
      recv-again os f.id r (record r { handle = h })
          (recv_pass-at os id r is_reader ∙ recv_evicted os id r h lost e) f.attached
          f.caught_up.chain,
      ready-again os f.id r.handle h
          (ready_pass-at os id r.handle is_reader ∙ ready_evicted os id r.handle h lost e)
          f.attached f.caught_up.chain,
      f,
    )
