-- ===== src/Polling.antt =====
-- `msgq_poll` of msgq/msgq.cc, as it is built for Linux, over the queues that a process has open.
pub mod Passes
pub mod Counts
pub mod Ends
use msgq.Subscriber.{Os, Handle, ready}
use msgq.Queue.{◌>>=◌, Segment, Queue, Run, done, spinning}
use msgq.Base.{
  zero, suc, ◌+◌, ◌*◌, ◌/◌, ◌%◌, Bool, true, false, not, ◌&&◌, List, [], ◌∷◌, ◌==◌, if◌then◌else◌,
  ℤ, update, pos, negsuc, ℕ,
}

-- The queues of a process by number, the file that each maps, and the segments by file: two queues
-- on the same file share its segment.
pub record Process : Type 0 where
  pub queues : ℕ → Queue
  pub files : ℕ → ℕ
  pub segments : ℕ → Segment

abbrev pub handle_at : ℕ → Process → Handle
handle_at q p = record { queue = p.queues q; segment = p.segments (p.files q) }

abbrev pub put_handle : ℕ → Handle → Process → Process
put_handle q h p = record p {
  queues = update p.queues q h.queue;
  segments = update p.segments (p.files q) h.segment;
}

-- `msgq_msg_ready(items[i].q)`
unfoldable pub ready_queue : Os → ℕ → Process → Run (ℤ × Process)
ready_queue os q p = do (rc, h) ← ready os (handle_at q p); done (rc, put_handle q h p)

-- `msgq_pollitem_t`
pub record Item : Type 0 where
  pub queue : ℕ
  pub revents : ℤ

abbrev pub is_zero : ℤ → Bool
is_zero (pos zero) = true
is_zero (pos (suc n)) = false
is_zero (negsuc n) = false

-- the body of the first loop, with what it adds to `num`
unfoldable pub check_item : Os → Item → Process → Run (ℕ × Item × Process)
check_item os item p = do
  (rc, p') ← ready_queue os item.queue p
  done (if is_zero rc then 0 else 1, record item { revents = rc }, p')

-- what the loop behind the sleep makes of an item and what `msgq_msg_ready` returned for it
unfoldable pub set_event : Item → ℤ × Process → ℕ × Item × Process
set_event item (rc, p) =
    if is_zero rc then (0, item, p) else (1, record item { revents = pos 1 }, p)

-- its body
unfoldable pub recheck_item : Os → Item → Process → Run (ℕ × Item × Process)
recheck_item os item p =
    let tested = ready_queue os item.queue p >>= λ x. done (set_event item x) in
    if is_zero item.revents then tested else done (0, item, p)

-- a loop over the items, with the sum of what its body adds to `num`
unfoldable pub each_item :
    (Item → Process → Run (ℕ × Item × Process))
    → List Item
    → Process
    → Run (ℕ × List Item × Process)
each_item body [] p = done (0, [], p)
each_item body (item ∷ items) p = do
  (k, item', p1) ← body item p
  (n, items', p2) ← each_item body items p1
  done (k + n, item' ∷ items', p2)

pub record Timespec : Type 0 where
  pub sec : ℤ
  pub nsec : ℤ

-- What happens outside in a round, `n` rounds being left: what `nanosleep` returns and leaves as
-- the remaining time, and what other threads do to the segments meanwhile.
pub record World : Type 0 where
  pub nanosleep : ℕ → Timespec → ℤ × Timespec
  pub others : ℕ → (ℕ → Segment) → ℕ → Segment

abbrev pub is_minus_one : ℤ → Bool
is_minus_one (pos n) = false
is_minus_one (negsuc zero) = true
is_minus_one (negsuc (suc n)) = false

abbrev minus : ℕ → ℤ
minus zero = pos 0
minus (suc n) = negsuc n

-- `ms` and the two fields of `ts`; `/` and `%` of C round towards 0.
unfoldable pub timespec_of : ℤ → Timespec
timespec_of (pos ms) = record { sec = pos (ms / 1000); nsec = pos (ms % 1000 * 1000000) }
timespec_of (negsuc zero) = record { sec = pos 0; nsec = pos (100 * 1000000) }
timespec_of (negsuc (suc n)) = record {
  sec = minus ((n + 2) / 1000);
  nsec = minus ((n + 2) % 1000 * 1000000);
}

-- the loop `while (num == 0)`
unfoldable pub wait_items :
    Os → World → ℤ → ℕ → Timespec → List Item → Process → Run (ℕ × List Item × Process)
wait_items os world timeout zero ts items p = spinning
wait_items os world timeout (suc n) ts items p =
    let (ret, left) = world.nanosleep n ts in
    do
      (num, items', p') ←
          each_item (recheck_item os) items (record p { segments = world.others n p.segments })
      elim ((num == 0) && not (not (is_minus_one timeout) && is_zero ret)) [
        | true ↦ wait_items os world timeout n left items' p'
        | false ↦ done (num, items', p')
      ]

-- `msgq_poll`, with a bound on the sleeps.
unfoldable pub poll : Os → World → ℤ → ℕ → List Item → Process → Run (ℕ × List Item × Process)
poll os world timeout rounds items p = do
  (num, items', p') ← each_item (check_item os) items p
  elim (num == 0) [
    | true ↦ wait_items os world timeout rounds (timespec_of timeout) items' p'
    | false ↦ done (num, items', p')
  ]
