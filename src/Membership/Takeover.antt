-- ===== src/Membership/Takeover.antt =====
-- A new publisher takes the queue over: `msgq_init_publisher` of msgq/msgq.cc.
use msgq.Queue.{max_readers, Segment, Queue, Msg, done}
use msgq.Publisher.Loops.{zeroed-lt, zeroed, clear_slots_lem}
use msgq.Publisher.{init_publisher, send, addr_in_use}
use msgq.Base.{◌∙◌, ◌<◌, ◌≡◌, refl, ap, ◌≢◌, some, ==_of_ne, negsuc, ℕ}

-- `msgq_init_publisher` in closed form.
pub init_publisher_lem :
    (uid : ℕ) (q : Queue) (s : Segment)
    → init_publisher uid q s ≡ (
      record q { write_uid_local = uid },
      record s {
        write_uid = uid;
        num_readers = 0;
        read_valids = zeroed max_readers s.read_valids;
        read_uids = zeroed max_readers s.read_uids;
      },
    )
unfolding init_publisher
init_publisher_lem uid q s =
    ap (λ t. (record q { write_uid_local = uid }, t))
      (clear_slots_lem max_readers (record s { write_uid = uid; num_readers = 0 }))

-- Once a publisher has started, it is the active one, a send by any handle of another identity
-- fails with `EADDRINUSE` and changes nothing, no slot is taken, and every subscriber with an
-- identity other than 0 finds itself evicted. The bytes and the write pointer stay.
pub init_publisher_takes_over :
    (uid : ℕ) (q : Queue) (s : Segment)
    → let (q', s') = init_publisher uid q s in
      (q'.write_uid_local ≡ s'.write_uid)
      × ((other : Queue) (msg : Msg)
          → other.write_uid_local ≢ uid
          → send msg other s'
            ≡ done (record { rc = negsuc 0; errno = some addr_in_use; segment = s' }))
      × (s'.num_readers ≡ 0)
      × ((id local : ℕ) → id < max_readers → local ≢ 0 → local ≢ s'.read_uids id)
      × (s'.bytes ≡ s.bytes)
      × (s'.write_pointer ≡ s.write_pointer)
unfolding send
init_publisher_takes_over uid q s = rw (init_publisher_lem uid q s) (
  refl,
  λ other msg ne. rw (==_of_ne _ _ ne),
  refl,
  λ id local small some_id e. some_id (e ∙ zeroed-lt max_readers s.read_uids id small),
  refl,
  refl,
)
