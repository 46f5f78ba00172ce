-- ===== src/Polling/Ends.antt =====
-- That `msgq_poll` and `msgq_msg_ready` of msgq/msgq.cc return.
use msgq.Polling.{
  timespec_of, poll, Process, handle_at, put_handle, ready_queue, Item, is_zero, check_item,
  set_event, recheck_item, each_item, Timespec, World, is_minus_one, wait_items,
}
use msgq.Subscriber.{Os, Handle, reset_slot, ready}
use msgq.Stream.Receiving.{Attached, place_of, writer_place}
use msgq.Stream.Answers.{ready_at_place, ready_elsewhere}
use msgq.Queue.{>>=-of-done, Segment, Run, message, done}
use msgq.Membership.Recovery.{reset_here, invalidated_recovers, evicted_rejoins}
use msgq.Membership.{Sane, Fresh}
use native.Mathlib.Decide.{ℕ_discrete}
use msgq.Base.{
  ◌+◌, not, ◌&&◌, ◌==◌, if◌then◌else◌, zero, suc, refl, inl, inr, false, List, ◌∷◌, ==_of_eq,
  ==_of_ne, Bool-cases, update, ◌≡◌, [], arith, ℤ, pos, ℕ,
}

-- a handle of a subscriber, on a segment in order
abbrev pub Sound : Handle → Type 0
Sound h = Sane h.segment × ((id : ℕ) × (h.queue.reader_id ≡ pos id))

Fresh-Sound : (uid : ℕ) (h : Handle) → Fresh uid h → Sound h
Fresh-Sound uid h f = (
  record {
    few = omega (arith, f.in_array, f.newest);
    aligned = omega (arith, f.caught_up.chain, f.caught_up.aligned);
  },
  (f.id, f.attached.is_reader),
)

-- `msgq_msg_ready` returns for every subscriber, whatever became of its slot, on a segment with no
-- more readers than slots and an aligned write pointer, and leaves it such a subscriber.
pub ready_returns :
    (os : Os) (h : Handle) → Sound h → (x : ℤ × Handle) × (ready os h ≡ done x) × Sound x.1
unfolding reset_slot
ready_returns os h (sane, (id, is_reader)) =
    elim (ℕ_discrete h.queue.read_uid_local (h.segment.read_uids id)) [
      | no lost ↦
          let (t, _, e, f) =
            evicted_rejoins os id (record { handle = h; msg = message [] }) sane is_reader lost in
          ((pos 0, t), e, Fresh-Sound os.uid t f)
      | yes owned ↦ elim (ℕ_discrete (h.segment.read_valids id) 0) [
        | yes off ↦
            let x =
              invalidated_recovers os id (record { handle = h; msg = message [] }) is_reader owned
                off sane.aligned in
            (
              (pos 0, reset_here id h),
              x.1,
              (record { few = sane.few; aligned = sane.aligned }, (id, is_reader)),
            )
        | no on ↦
            let a : Attached h id = record { is_reader = is_reader; owned = owned; valid = on } in
            elim (ℕ_discrete (place_of h id) (writer_place h)) [
              | yes here ↦ ((pos 0, h), ready_at_place os id h a here, (sane, (id, is_reader)))
              | no elsewhere ↦
                  ((pos 1, h), ready_elsewhere os id h a elsewhere, (sane, (id, is_reader)))
            ]
      ]
    ]

-- every segment is in order, and every queue of the process is a subscriber's
pub record Orderly (p : Process) : Type 0 where
  pub segments : (f : ℕ) → Sane (p.segments f)
  pub readers : (q : ℕ) → (id : ℕ) × ((p.queues q).reader_id ≡ pos id)

put_handle-Orderly :
    (q : ℕ) (h : Handle) (p : Process) → Sound h → Orderly p → Orderly (put_handle q h p)
put_handle-Orderly q h p s o = record {
  segments = λ f. at (p.segments) (p.files q) h.segment f Sane s.0 (o.segments f);
  readers =
      λ r. at (p.queues) q h.queue r (λ x. (id : ℕ) × (x.reader_id ≡ pos id)) s.1 (o.readers r);
}
  where
    at :
        {A : Type 0} (f : ℕ → A) (i : ℕ) (v : A) (j : ℕ) (P : A → Type 0)
        → P v
        → P (f j)
        → P (update f i v j)
    at f i v j P new old = elim (ℕ_discrete i j) [
      | yes e ↦ rw (==_of_eq i j e) new
      | no ne ↦ rw (==_of_ne i j ne) old
    ]

ready_queue_returns :
    (os : Os) (q : ℕ) (p : Process)
    → Orderly p
    → (x : ℤ × Process) × (ready_queue os q p ≡ done x) × Orderly x.1
unfolding ready_queue
ready_queue_returns os q p o =
    let (x, e, s) = ready_returns os (handle_at q p) (o.segments (p.files q), o.readers q) in
    ((x.0, put_handle q x.1 p), rw e refl, put_handle-Orderly q x.1 p s o)

Returns : (Item → Process → Run (ℕ × Item × Process)) → Type 0
Returns body =
    (item : Item) (p : Process)
    → Orderly p
    → (t : ℕ × Item × Process) × (body item p ≡ done t) × Orderly t.2

check_item-Returns : (os : Os) → Returns (check_item os)
unfolding check_item Returns
check_item-Returns os item p o =
    let (x, e, s) = ready_queue_returns os item.queue p o in
    ((if is_zero x.0 then 0 else 1, record item { revents = x.0 }, x.1), rw e refl, s)

set_event_process : (item : Item) (x : ℤ × Process) → Orderly x.1 → Orderly (set_event item x).2
unfolding set_event
set_event_process item (rc, p) o = elim (Bool-cases (is_zero rc)) [
  | inl still ↦ rw still o
  | inr ready ↦ rw ready o
]

recheck_item-Returns : (os : Os) → Returns (recheck_item os)
unfolding recheck_item Returns
recheck_item-Returns os item p o = elim (Bool-cases (is_zero item.revents)) [
  | inr old ↦ ((0, item, p), rw old refl, o)
  | inl new ↦
      let (x, e, s) = ready_queue_returns os item.queue p o in
      (set_event item x, rw (new, e) refl, set_event_process item x s)
]

each_item-Returns :
    (body : Item → Process → Run (ℕ × Item × Process))
    → Returns body
    → (items : List Item) (p : Process) → Orderly p
    → (t : ℕ × List Item × Process) × (each_item body items p ≡ done t) × Orderly t.2
unfolding each_item Returns
each_item-Returns body r [] p o = ((0, [], p), refl, o)
each_item-Returns body r (item ∷ items) p o =
    let (x, e, s) = r item p o in
    let (y, f, u) = each_item-Returns body r items x.2 s in
    ((x.0 + y.0, x.1 ∷ y.1, y.2), rw (e, f) refl, u)

-- what is outside keeps segments in order, and the sleep of the last round is not interrupted
pub record Benign (world : World) : Type 0 where
  pub keeps :
      (n : ℕ) (segments : ℕ → Segment)
      → ((f : ℕ) → Sane (segments f))
      → (f : ℕ) → Sane (world.others n segments f)
  pub ends : (ts : Timespec) → (world.nanosleep 0 ts).0 ≡ pos 0

wait_items_returns :
    (os : Os) (world : World) (timeout : ℤ) (n : ℕ) (ts : Timespec) (items : List Item)
    (p : Process)
    → is_minus_one timeout ≡ false
    → Benign world
    → Orderly p
    → (t : ℕ × List Item × Process) × (wait_items os world timeout (suc n) ts items p ≡ done t)
unfolding wait_items
wait_items_returns os world timeout zero ts items p finite b o =
    let (x, e, s) =
      each_item-Returns (recheck_item os) (recheck_item-Returns os) items
        (record p { segments = world.others 0 p.segments })
        (record { segments = b.keeps 0 p.segments o.segments; readers = o.readers }) in
    (
      x,
      >>=-of-done _ _ e (
          rw (finite, b.ends ts)
            (elim (Bool-cases (x.0 == 0)) [
              | inl empty ↦ rw empty refl
              | inr found ↦ rw found refl
            ])),
    )
wait_items_returns os world timeout (suc n) ts items p finite b o =
    let (x, e, s) =
      each_item-Returns (recheck_item os) (recheck_item-Returns os) items
        (record p { segments = world.others (suc n) p.segments })
        (record { segments = b.keeps (suc n) p.segments o.segments; readers = o.readers }) in
    let (ret, left) = world.nanosleep (suc n) ts in
    elim (Bool-cases ((x.0 == 0) && not (not (is_minus_one timeout) && is_zero ret))) [
      | inl on ↦
          let (t, f) = wait_items_returns os world timeout n left x.1 x.2 finite b s in
          (t, >>=-of-done _ _ e (rw on f))
      | inr over ↦ (x, >>=-of-done _ _ e (rw over refl))
    ]

-- With a timeout, and the last sleep not being interrupted, `msgq_poll` returns: for subscribers,
-- whatever became of their slots, and whatever other threads do during the sleeps, as long as
-- every segment keeps no more readers than slots and an aligned write pointer.
pub poll_returns :
    (os : Os) (world : World) (timeout : ℤ) (n : ℕ) (items : List Item) (p : Process)
    → is_minus_one timeout ≡ false
    → Benign world
    → Orderly p
    → (t : ℕ × List Item × Process) × (poll os world timeout (suc n) items p ≡ done t)
unfolding poll
poll_returns os world timeout n items p finite b o =
    let (x, e, s) = each_item-Returns (check_item os) (check_item-Returns os) items p o in
    elim (Bool-cases (x.0 == 0)) [
      | inl empty ↦
          let (t, f) =
            wait_items_returns os world timeout n (timespec_of timeout) x.1 x.2 finite b s in
          (t, >>=-of-done _ _ e (rw empty f))
      | inr found ↦ (x, >>=-of-done _ _ e (rw found refl))
    ]
