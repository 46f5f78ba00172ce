-- ===== src/Sockets/Joined.antt =====
-- What `connect` and `create` of `SubSocket` in msgq/ipc.cc leave.
use native.Mathlib.Decide.{dec_lt}
use msgq.Subscriber.Joining.{evicted, init_subscriber_joins, init_subscriber_evicts}
use msgq.Subscriber.{Os, Handle, init_subscriber}
use msgq.Sockets.{segment_bytes, set_conflate, connect_sub, keep_or_delete, create_sub, join}
use msgq.Queue.{done-injective, Segment, >>=-done, max_readers, Queue, done}
use msgq.Membership.{Sane, Fresh, joined-Fresh}
use msgq.Lifecycle.Balance.{Balanced, new_queue_balances, maps, unmaps}
use msgq.Lifecycle.{
  set_up, Host, new_queue, Call, close_queue, signal_handled, opened, truncated, mapped_in, closed,
  unmapped,
}
use msgq.Base.{
  zero, suc, sym, subst, ◌≢◌, some, negsuc, String, none, ℤ, ◌≡◌, refl, ap, ◌∙◌, inl, inr, Bool,
  true, false, List, [], ◌∷◌, ◌++◌, arith, Bool-cases, pos, ℕ,
}

maps-append : (xs ys : List Call) → maps (xs ++ ys) ≡ maps xs ++ maps ys
maps-append [] ys = refl
maps-append (signal_handled ∷ xs) ys = maps-append xs ys
maps-append (opened path fd ∷ xs) ys = maps-append xs ys
maps-append (truncated fd n ∷ xs) ys = maps-append xs ys
maps-append (mapped_in fd n ∷ xs) ys = ap (λ l. n ∷ l) (maps-append xs ys)
maps-append (closed fd ∷ xs) ys = maps-append xs ys
maps-append (unmapped n ∷ xs) ys = maps-append xs ys

unmaps-append : (xs ys : List Call) → unmaps (xs ++ ys) ≡ unmaps xs ++ unmaps ys
unmaps-append [] ys = refl
unmaps-append (signal_handled ∷ xs) ys = unmaps-append xs ys
unmaps-append (opened path fd ∷ xs) ys = unmaps-append xs ys
unmaps-append (truncated fd n ∷ xs) ys = unmaps-append xs ys
unmaps-append (mapped_in fd n ∷ xs) ys = unmaps-append xs ys
unmaps-append (closed fd ∷ xs) ys = unmaps-append xs ys
unmaps-append (unmapped n ∷ xs) ys = ap (λ l. n ∷ l) (unmaps-append xs ys)

close_queue-maps : (q : Queue) → maps (close_queue q) ≡ []
unfolding close_queue
close_queue-maps q = elim (Bool-cases q.mapped) [ inl e ↦ rw e refl | inr e ↦ rw e refl ]

close_queue_lem :
    (q q' : Queue) → q.mapped ≡ q'.mapped → q.size ≡ q'.size → close_queue q ≡ close_queue q'
unfolding close_queue
close_queue_lem q q' m z = rw (m, z) refl

-- the handle that a successful connect leaves
abbrev Joined : Os → Bool → ℕ → Handle → Type 0
Joined os conflate size h =
    Fresh os.uid h × (h.queue.read_conflate ≡ conflate) × (h.queue.size ≡ size)

-- the same fields of the handle are kept
abbrev SameQueue : Queue → Queue → Type 0
SameQueue q q' = (q'.read_conflate ≡ q.read_conflate) × (q'.size ≡ q.size) × (q'.mapped ≡ q.mapped)

init_subscriber_keeps :
    (uid : ℕ) (h : Handle)
    → Sane h.segment
    → (h' : Handle) × (init_subscriber uid h ≡ done h') × Fresh uid h' × SameQueue h.queue h'.queue
init_subscriber_keeps uid h sane = elim (dec_lt h.segment.num_readers max_readers) [
  | yes free ↦ (
    _,
    init_subscriber_joins uid h free,
    joined-Fresh uid h.segment.num_readers h free sane.aligned,
    (refl, refl, refl),
  )
  | no full ↦ (
    _,
    init_subscriber_evicts uid h (omega (arith, sane.few)),
    joined-Fresh uid 0 (record h { segment = evicted h.segment }) (omega arith) sane.aligned,
    (refl, refl, refl),
  )
]

set_conflate-Fresh : (uid : ℕ) (h : Handle) → Fresh uid h → Fresh uid (set_conflate h)
set_conflate-Fresh uid h f = record {
  id = f.id;
  in_array = f.in_array;
  newest = f.newest;
  attached = record {
    is_reader = f.attached.is_reader;
    owned = f.attached.owned;
    valid = f.attached.valid;
  };
  identity = f.identity;
  caught_up = f.caught_up;
}

join_joins :
    (os : Os) (conflate : Bool) (h : Handle) (calls : List Call)
    → Sane h.segment
    → h.queue.read_conflate ≡ false
    → (h' : Handle) × (join os conflate (pos 0) h calls ≡ done (pos 0, h', calls))
      × Joined os conflate h.queue.size h'
      × (h'.queue.mapped ≡ h.queue.mapped)
unfolding join
join_joins os true h calls sane plain =
    let (t, e, f, (c, z, m)) = init_subscriber_keeps os.uid h sane in
    (set_conflate t, rw e refl, (set_conflate-Fresh os.uid t f, refl, z), m)
join_joins os false h calls sane plain =
    let (t, e, f, (c, z, m)) = init_subscriber_keeps os.uid h sane in
    (t, rw e refl, (f, c ∙ plain, z), m)

plain :
    (fresh : Queue) (endpoint : String) (size : ℕ) (q : Queue)
    → q ≡ set_up fresh endpoint size
    → q.read_conflate ≡ false
unfolding set_up
plain fresh endpoint size q same = ap (λ x. x.read_conflate) same

sized :
    (fresh : Queue) (endpoint : String) (size : ℕ) (q : Queue)
    → q ≡ set_up fresh endpoint size
    → q.size ≡ size
unfolding set_up
sized fresh endpoint size q same = ap (λ x. x.size) same

join_failed :
    (os : Os) (conflate : Bool) (h : Handle) (calls : List Call) {h' : Handle} {calls' : List Call}
    → ¬ (join os conflate (negsuc 0) h calls ≡ done (pos 0, h', calls'))
unfolding join
join_failed os conflate h calls e = cc

join_negative :
    (os : Os) (conflate : Bool) (h : Handle) (calls : List Call)
    → join os conflate (negsuc 0) h calls ≡ done (negsuc 0, h, calls)
unfolding join
join_negative os conflate h calls = refl

join_zero :
    (os : Os) (conflate : Bool) (h : Handle) (calls : List Call) {t : ℤ × Handle × List Call}
    → join os conflate (pos 0) h calls ≡ done t
    → t.0 ≡ pos 0
unfolding join
join_zero os conflate h calls e =
    let (h', _, f) = >>=-done (init_subscriber os.uid h) _ e in
    ap (λ y. y.0) (sym (done-injective f))

some≢none {ℓ} : {A : Type ℓ} {a : A} → some a ≢ none
some≢none e = cc

kept :
    (t : ℤ × Handle × List Call) {calls : List Call}
    → t.0 ≡ pos 0
    → keep_or_delete t ≢ (none, calls)
unfolding keep_or_delete
kept (pos zero, h, c) z e = some≢none (ap (λ y. y.0) e)
kept (pos (suc n), h, c) z e = cc
kept (negsuc n, h, c) z e = cc

-- A `SubSocket::connect` that returns 0, for a file whose segment has no more readers than slots
-- and an aligned write pointer: the reader is freshly subscribed, it conflates exactly if asked to,
-- the queue has the size asked for, or the default one for 0, and closing the handle unmaps what
-- was mapped.
pub connect_sub_joins :
    (host : Host) (os : Os) (fresh : Queue) (segment : Segment) (endpoint : String)
    (conflate : Bool) (segment_size : ℕ) {h : Handle} {calls : List Call}
    → Sane segment
    → connect_sub host os fresh segment endpoint conflate segment_size ≡ done (pos 0, h, calls)
    → Joined os conflate (segment_bytes segment_size) h
      × (maps calls ≡ unmaps (close_queue h.queue))
unfolding connect_sub
connect_sub_joins host os fresh segment endpoint conflate segment_size {h} {calls} sane e =
    let (x, here, f) = >>=-done (new_queue host fresh endpoint (segment_bytes segment_size)) _ e in
    go x (new_queue_balances host fresh endpoint (segment_bytes segment_size) here) f
  where
    go :
        (x : ℤ × Queue × List Call)
        → Balanced fresh endpoint (segment_bytes segment_size) x
        → join os conflate x.0 (record { queue = x.1; segment = segment }) x.2
          ≡ done (pos 0, h, calls)
        → Joined os conflate (segment_bytes segment_size) h
          × (maps calls ≡ unmaps (close_queue h.queue))
    go (rc, q, c) (o, u, inl (ok, same, m)) f =
        let (h', joined_here, j, on) =
          join_joins os conflate (record { queue = q; segment = segment }) c sane
            (plain fresh endpoint _ q same) in
        let out = done-injective (
          sym joined_here
          ∙ ap (λ r. join os conflate r (record { queue = q; segment = segment }) c) (sym ok)
          ∙ f) in
        let size : q.size ≡ segment_bytes segment_size = sized fresh endpoint _ q same in
        subst
          (λ y.
            Joined os conflate (segment_bytes segment_size) y.1
            × (maps y.2 ≡ unmaps (close_queue y.1.queue)))
          out
          ((j.0, j.1, j.2 ∙ size), m ∙ ap unmaps (close_queue_lem q h'.queue (sym on) (sym j.2)))
    go (rc, q, c) (o, u, inr (bad, same, m)) f = absurd (
        join_failed os conflate _ c
          (ap (λ r. join os conflate r (record { queue = q; segment = segment }) c) (sym bad) ∙ f))

-- A `SubSocket::create` that fails mapped nothing, yet what its destructor unmaps is what the
-- uninitialised fields of the new handle say.
pub create_sub_fails :
    (host : Host) (os : Os) (fresh : Queue) (segment : Segment) (endpoint : String)
    (conflate : Bool) (segment_size : ℕ) {calls : List Call}
    → create_sub host os fresh segment endpoint conflate segment_size ≡ done (none, calls)
    → (maps calls ≡ []) × (unmaps calls ≡ unmaps (close_queue fresh))
unfolding create_sub connect_sub keep_or_delete
create_sub_fails host os fresh segment endpoint conflate segment_size {calls} e =
    let (t, there, g) =
      >>=-done (connect_sub host os fresh segment endpoint conflate segment_size) _ e in
    let (x, here, f) =
      >>=-done (new_queue host fresh endpoint (segment_bytes segment_size)) _ there in
    go x t (new_queue_balances host fresh endpoint (segment_bytes segment_size) here) f g
  where
    go :
        (x : ℤ × Queue × List Call) (t : ℤ × Handle × List Call)
        → Balanced fresh endpoint (segment_bytes segment_size) x
        → join os conflate x.0 (record { queue = x.1; segment = segment }) x.2 ≡ done t
        → done (keep_or_delete t) ≡ done (none, calls)
        → (maps calls ≡ []) × (unmaps calls ≡ unmaps (close_queue fresh))
    go (rc, q, c) t (o, u, inl (ok, same, m)) f g = absurd (
        kept t
          (join_zero os conflate _ c
            (ap (λ r. join os conflate r (record { queue = q; segment = segment }) c) (sym ok) ∙ f))
          (done-injective g))
    go (rc, q, c) t (o, u, inr (bad, same, m)) f g =
        let out : (none, c ++ close_queue q) ≡ (none, calls) =
          ap keep_or_delete (
            done-injective (
              sym (join_negative os conflate (record { queue = q; segment = segment }) c)
              ∙ ap (λ r. join os conflate r (record { queue = q; segment = segment }) c) (sym bad)
              ∙ f))
          ∙ done-injective g in
        subst (λ y. (maps y ≡ []) × (unmaps y ≡ unmaps (close_queue fresh))) (ap (λ y. y.1) out)
          (
            maps-append c (close_queue q) ∙ rw (m, close_queue-maps q) refl,
            unmaps-append c (close_queue q) ∙ rw (u, same) refl,
          )
