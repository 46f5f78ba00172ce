-- ===== src/Stream/Delivery.antt =====
-- `msgq_msg_recv` hands a following reader what its mailbox promises, in both modes.
use msgq.Words.{pack64, int_of}
use msgq.Subscriber.{Os, Handle, Pass, passes, Reader, set_pointer, recv_pass, again, finish}
use msgq.Stream.Receiving.{
  take_next-message, Attached, cycle_of, place_of, writer_place, moved, recv_pass-Attached,
  Attached-moved, delivered,
}
use msgq.Stream.Moving.{set_pointer-set_pointer, moved-Same}
use msgq.Stream.Chain.{Same-free, slot-ge, Chain-le}
use msgq.Stream.{Same, Tracking, Stalled}
use msgq.Queue.{message, Run, done}
use msgq.Publisher.Steps.{slot}
use msgq.Publisher.Bounds.{WriterOk}
use msgq.Base.{
  ◌^◌, ◌<◌, suc, ◌+◌, ◌≡◌, refl, ◌∙◌, ◌≢◌, inl, inr, true, false, List, ◌∷◌, arith, length,
  ==_of_eq, ==_of_ne, Bool-cases, ℤ, ℕ,
}

pub passes-finish {ℓ} :
    {S : Type ℓ} (pass : S → Pass S) (n : ℕ) (s t : S) (rc : ℤ)
    → pass s ≡ finish rc t
    → passes pass (suc n) s ≡ done (rc, t)
unfolding passes
passes-finish pass n s t rc e = rw (e, passes)

pub passes-again {ℓ} :
    {S : Type ℓ} (pass : S → Pass S) (n : ℕ) (s t : S)
    → pass s ≡ again t
    → passes pass (suc n) s ≡ passes pass n t
unfolding passes
passes-again pass n s t e = rw (e, passes)

-- How `delivered` ends, by the mode and by what is left.
pub delivered-skip :
    (id : ℕ) (m : List ℕ) (r : Reader)
    → r.handle.queue.read_conflate ≡ true
    → place_of r.handle id + slot (length m) ≢ writer_place r.handle
    → delivered id m r
      ≡ again (record r {
        handle = moved id (cycle_of r.handle id) (place_of r.handle id + slot (length m)) r.handle;
      })
delivered-skip id m r c apart = rw (c, ==_of_ne _ _ apart)

pub delivered-fifo :
    (id : ℕ) (m : List ℕ) (r : Reader)
    → r.handle.queue.read_conflate ≡ false
    → delivered id m r
      ≡ finish (int_of (length m)) (record {
        handle = moved id (cycle_of r.handle id) (place_of r.handle id + slot (length m)) r.handle;
        msg = message m;
      })
delivered-fifo id m r c = rw c

pub delivered-last :
    (id : ℕ) (m : List ℕ) (r : Reader)
    → place_of r.handle id + slot (length m) ≡ writer_place r.handle
    → delivered id m r
      ≡ finish (int_of (length m)) (record {
        handle = moved id (cycle_of r.handle id) (place_of r.handle id + slot (length m)) r.handle;
        msg = message m;
      })
delivered-last id m r e = elim (Bool-cases r.handle.queue.read_conflate) [
  | inl c ↦ rw (c, ==_of_eq _ _ e)
  | inr c ↦ rw c
]

-- The call returned the message `m`, moved nothing but this reader's pointer, and left `rest`.
pub record Got (id : ℕ) (h : Handle) (m : List ℕ) (rest : List (List ℕ)) (run : Run (ℤ × Reader))
    : Type 0 where
  pub reader : Reader
  pub returned : run ≡ done (int_of (length m), reader)
  pub bounds : (0 < length m) × (length m < 2 ^ 31)
  pub msg : reader.msg ≡ message m
  pub pointer : ℕ
  pub moves : reader.handle ≡ set_pointer id pointer h
  pub tracks : Tracking h.queue.size reader.handle.segment id rest
  pub free : ¬ Stalled reader.handle.segment id

-- What a reader needs of its surroundings: it is attached, the sizes are in range, and memory
-- for a message can be had.
pub record CanRead (os : Os) (id : ℕ) (h : Handle) : Type 0 where
  pub attached : Attached h id
  pub fine : WriterOk h.queue.size h.segment
  pub memory : (n : ℕ) → os.alloc n ≡ true

pub CanRead-moved :
    (os : Os) (id packed : ℕ) (h : Handle)
    → CanRead os id h
    → CanRead os id (set_pointer id packed h)
unfolding set_pointer
CanRead-moved os id packed h c = record {
  attached = Attached-moved h id packed c.attached;
  fine = record { small = c.fine.small; aligned = c.fine.aligned; room = c.fine.room };
  memory = c.memory;
}

module _ (os : Os) (id : ℕ) where
  -- one pass over a message in the writer's cycle
  pub pass-Same :
      (r : Reader) (m : List ℕ) (rest : List (List ℕ))
      → CanRead os id r.handle
      → Same r.handle.segment id (m ∷ rest)
      → recv_pass os r ≡ delivered id m r
  pass-Same r m rest c t =
      let (some_bytes, object, tag, body, chain) = t.chain in
      let bounds = slot-ge (length m) some_bytes object in
      let extent =
        Chain-le r.handle.segment.bytes (place_of r.handle id + slot (length m)) rest
          (writer_place r.handle) chain in
      recv_pass-Attached os r id c.attached
      ∙ take_next-message os r id m c.attached.valid (λ e. omega (arith, extent, bounds, e)) tag
          body some_bytes t.aligned (omega (arith, extent, c.fine.room)) (omega (arith, bounds))
          c.fine.small (c.memory (length m))

  -- a call that ends with this message
  pub Got-Same :
      (r : Reader) (m : List ℕ) (rest : List (List ℕ)) (fuel : ℕ)
      → Same r.handle.segment id (m ∷ rest)
      → recv_pass os r
        ≡ finish (int_of (length m)) (record {
          handle =
              moved id (cycle_of r.handle id) (place_of r.handle id + slot (length m)) r.handle;
          msg = message m;
        })
      → Got id r.handle m rest (passes (recv_pass os) (suc fuel) r)
  Got-Same r m rest fuel t e =
      let next = moved-Same id r.handle m rest t in
      record {
        reader = _;
        returned = passes-finish (recv_pass os) fuel r _ _ e;
        bounds = (t.chain.0, t.chain.1);
        msg = refl;
        pointer = _;
        moves = refl;
        tracks = inl next;
        free = Same-free _ id rest next;
      }

  -- the same call, seen from the handle before a pass that only moved the pointer
  pub Got-again :
      (r : Reader) (cycles place fuel : ℕ) (m : List ℕ) (rest : List (List ℕ))
      → recv_pass os r ≡ again (record r { handle = moved id cycles place r.handle })
      → Got id
          (moved id cycles place r.handle)
          m
          rest
          (passes (recv_pass os) fuel (record r { handle = moved id cycles place r.handle }))
      → Got id r.handle m rest (passes (recv_pass os) (suc fuel) r)
  unfolding set_pointer
  Got-again r cycles place fuel m rest e g = record {
    reader = g.reader;
    returned = passes-again (recv_pass os) fuel r _ e ∙ g.returned;
    bounds = g.bounds;
    msg = g.msg;
    pointer = g.pointer;
    moves = g.moves ∙ set_pointer-set_pointer id g.pointer (pack64 cycles place) r.handle;
    tracks = g.tracks;
    free = g.free;
  }
