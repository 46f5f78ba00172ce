-- ===== src/Stream/Refinement.antt =====
-- `msgq_msg_recv` refines the mailbox: the passes by induction on the pending messages, and the
-- bound on their number.
use msgq.Words.{int_of, u32}
use msgq.Memory.{Memory, read64}
use msgq.Subscriber.{finish, again, Os, passes, Reader, set_pointer, recv_pass}
use msgq.Stream.Receiving.{
  cycle_of, moved, recv_pass-Attached, take_next-tag, delivered, take_next-message, place_of,
  writer_place,
}
use msgq.Stream.Moving.{moved-Behind, moved-tag, moved-Same}
use msgq.Stream.Mailbox.{pick, pick-nil, pick-skip, pick-first}
use msgq.Stream.Delivery.{
  passes-finish, delivered-skip, delivered-fifo, delivered-last, CanRead-moved, pass-Same, Got-Same,
  Got-again, Got, CanRead,
}
use msgq.Stream.Chain.{slot-ge, Chain-le}
use msgq.Queue.{message, Run}
use msgq.Publisher.Steps.{slot}
use msgq.Base.{
  ◌^◌, refl, ◌≢◌, length-append, ap, zero, suc, ◌+◌, ◌<◌, ◌≡◌, sym, ◌∙◌, subst, inl, inr, List, [],
  ◌∷◌, arith, length, Bool-cases, ℤ, ℕ,
}
use msgq.Stream.{Chain, Same, Behind}

-- What is promised of the pending messages `m ∷ rest`, by the reader's mode.
abbrev pub Taken : ℕ → Reader → List ℕ → List (List ℕ) → Run (ℤ × Reader) → Type 0
Taken id r m rest run =
    Got id r.handle (pick r.handle.queue.read_conflate m rest).0
      (pick r.handle.queue.read_conflate m rest).1 run

Taken-of :
    (id : ℕ) (r : Reader) (m n : List ℕ) (rest left : List (List ℕ)) (run : Run (ℤ × Reader))
    → pick r.handle.queue.read_conflate m rest ≡ (n, left)
    → Got id r.handle n left run
    → Taken id r m rest run
Taken-of id r m n rest left run e g = subst (λ p. Got id r.handle p.0 p.1 run) (sym e) g

pub Chain-nonempty :
    (mem : Memory) (ms : List (List ℕ)) (e : ℕ) → Chain mem 0 ms e → 0 < e → 0 < length ms
Chain-nonempty mem [] e c h = omega arith
Chain-nonempty mem (m ∷ ms) e c h = omega arith

module _ (os : Os) (id : ℕ) where
  pub receive-Same :
      (m : List ℕ) (rest : List (List ℕ)) (r : Reader) (fuel : ℕ)
      → CanRead os id r.handle
      → Same r.handle.segment id (m ∷ rest)
      → length rest < fuel
      → Taken id r m rest (passes (recv_pass os) fuel r)
  unfolding set_pointer
  receive-Same m rest r zero c t h = absurd (omega arith)
  receive-Same m [] r (suc fuel) c t h =
      Taken-of id r m m [] [] _ (pick-nil _ m) (
        Got-Same os id r m [] fuel t (pass-Same os id r m [] c t ∙ delivered-last id m r t.chain.4))
  receive-Same m (n ∷ rest) r (suc fuel) c t h = elim (Bool-cases r.handle.queue.read_conflate) [
    | inr off ↦ Taken-of id r m m (n ∷ rest) (n ∷ rest) _ (pick-first _ m (n ∷ rest) off) (
        Got-Same os id r m (n ∷ rest) fuel t
          (pass-Same os id r m (n ∷ rest) c t ∙ delivered-fifo id m r off))
    | inl on ↦
        let next = moved-Same id r.handle m (n ∷ rest) t in
        let extent =
          Chain-le r.handle.segment.bytes (place_of r.handle id + slot (length m)) (n ∷ rest)
            (writer_place r.handle) t.chain.4 in
        Taken-of id r m _ (n ∷ rest) _ _ (pick-skip _ m n rest on) (
          Got-again os id r _ _ fuel _ _
            (pass-Same os id r m (n ∷ rest) c t
              ∙ delivered-skip id m r on (λ e. omega (arith, e, extent)))
            (receive-Same n rest _ fuel (CanRead-moved os id _ r.handle c) next (omega arith)))
  ]

  -- one pass over a message of the cycle before
  pass-Behind :
      (r : Reader) (m : List ℕ) (old rest : List (List ℕ))
      → CanRead os id r.handle
      → (b : Behind r.handle.queue.size r.handle.segment id (m ∷ rest)) → b.old ≡ m ∷ old
      → writer_place r.handle < place_of r.handle id
      → recv_pass os r ≡ delivered id m r
  pass-Behind r m old rest c b e ahead =
      let (some_bytes, object, tag, body, chain) =
        subst (λ l. Chain r.handle.segment.bytes (place_of r.handle id) l b.last) e b.chain_old in
      let bounds = slot-ge (length m) some_bytes object in
      let extent =
        Chain-le r.handle.segment.bytes (place_of r.handle id + slot (length m)) old b.last chain in
      recv_pass-Attached os r id c.attached
      ∙ take_next-message os r id m c.attached.valid (λ q. omega (arith, q)) tag body some_bytes
          b.aligned (omega (arith, extent, b.tag_in)) (omega (arith, bounds)) c.fine.small
          (c.memory (length m))

  -- one pass over the wrap-around tag
  pass-tag :
      (r : Reader) (pending : List (List ℕ))
      → CanRead os id r.handle
      → (b : Behind r.handle.queue.size r.handle.segment id pending) → b.old ≡ []
      → writer_place r.handle < place_of r.handle id
      → recv_pass os r
        ≡ again (record r { handle = moved id (u32 (cycle_of r.handle id + 1)) 0 r.handle })
  pass-tag r pending c b e ahead =
      let here : place_of r.handle id ≡ b.last =
        subst (λ l. Chain r.handle.segment.bytes (place_of r.handle id) l b.last) e b.chain_old in
      recv_pass-Attached os r id c.attached
      ∙ take_next-tag os r id c.attached.valid (λ q. omega (arith, q))
          (ap (read64 r.handle.segment.bytes) here ∙ b.tag)

  -- The writer has put a message behind the tag, so a message before the tag is not the last.
  pub not_alone :
      (r : Reader) (k m : List ℕ) (old rest : List (List ℕ))
      → (b : Behind r.handle.queue.size r.handle.segment id (m ∷ rest)) → b.old ≡ k ∷ old
      → 0 < writer_place r.handle
      → 0 < length rest
  not_alone r k m old rest b e started = omega (
    arith,
    ap length b.split,
    ap length e,
    length-append b.old b.new,
    Chain-nonempty r.handle.segment.bytes b.new (writer_place r.handle) b.chain_new started,
  )

  passed :
      (r : Reader) (m : List ℕ) (old rest : List (List ℕ))
      → (b : Behind r.handle.queue.size r.handle.segment id (m ∷ rest)) → b.old ≡ m ∷ old
      → writer_place r.handle < place_of r.handle id
      → place_of r.handle id + slot (length m) ≢ writer_place r.handle
  passed r m old rest b e ahead q = omega (arith, q)

  first_bounds :
      (r : Reader) (m : List ℕ) (old rest : List (List ℕ))
      → (b : Behind r.handle.queue.size r.handle.segment id (m ∷ rest)) → b.old ≡ m ∷ old
      → (0 < length m) × (length m < 2 ^ 31)
  first_bounds r m old rest b e =
      let chain =
        subst (λ l. Chain r.handle.segment.bytes (place_of r.handle id) l b.last) e b.chain_old in
      (chain.0, chain.1)

  -- a call that ends with this message of the cycle before
  Got-Behind :
      (r : Reader) (m : List ℕ) (rest : List (List ℕ)) (fuel : ℕ)
      → (0 < length m) × (length m < 2 ^ 31)
      → Behind r.handle.queue.size
          (moved id
            (cycle_of r.handle id)
            (place_of r.handle id + slot (length m))
            r.handle).segment
          id
          rest
      → 0 < writer_place r.handle
      → writer_place r.handle
        < place_of
            (moved id (cycle_of r.handle id) (place_of r.handle id + slot (length m)) r.handle)
            id
      → recv_pass os r
        ≡ finish (int_of (length m)) (record {
          handle =
              moved id (cycle_of r.handle id) (place_of r.handle id + slot (length m)) r.handle;
          msg = message m;
        })
      → Got id r.handle m rest (passes (recv_pass os) (suc fuel) r)
  unfolding set_pointer
  Got-Behind r m rest fuel bounds next started further e = record {
    reader = _;
    returned = passes-finish (recv_pass os) fuel r _ _ e;
    bounds = bounds;
    msg = refl;
    pointer = _;
    moves = refl;
    tracks = inr (next, started);
    free = λ s. omega (arith, further, s.0);
  }

  pub receive-Behind :
      (old : List (List ℕ)) (m : List ℕ) (rest : List (List ℕ)) (r : Reader) (fuel : ℕ)
      → CanRead os id r.handle
      → (b : Behind r.handle.queue.size r.handle.segment id (m ∷ rest)) → b.old ≡ old
      → 0 < writer_place r.handle
      → writer_place r.handle < place_of r.handle id
      → length rest + 1 < fuel
      → Taken id r m rest (passes (recv_pass os) fuel r)
  unfolding set_pointer
  receive-Behind old m rest r zero c b e started ahead h = absurd (omega arith)
  receive-Behind [] m rest r (suc fuel) c b e started ahead h =
      Got-again os id r _ _ fuel _ _ (pass-tag r (m ∷ rest) c b e ahead) (
        receive-Same m rest _ fuel (CanRead-moved os id _ r.handle c)
          (moved-tag r.handle.queue.size id r.handle (m ∷ rest) b e) (omega arith))
  receive-Behind (k ∷ old) m [] r (suc fuel) c b e started ahead h =
      absurd (omega (arith, not_alone r k m old [] b e started))
  receive-Behind (k ∷ old) m (n ∷ rest) r (suc fuel) c b e started ahead h =
      let e' : b.old ≡ m ∷ old = cc (b.split, e) in
      let (next, rest_old, further) =
        moved-Behind r.handle.queue.size id r.handle m old (n ∷ rest) b c.fine.small e' ahead in
      elim (Bool-cases r.handle.queue.read_conflate) [
        | inr off ↦ Taken-of id r m m (n ∷ rest) (n ∷ rest) _ (pick-first _ m (n ∷ rest) off) (
            Got-Behind r m (n ∷ rest) fuel (first_bounds r m old (n ∷ rest) b e') next started
              further (pass-Behind r m old (n ∷ rest) c b e' ahead ∙ delivered-fifo id m r off))
        | inl on ↦ Taken-of id r m _ (n ∷ rest) _ _ (pick-skip _ m n rest on) (
            Got-again os id r _ _ fuel _ _
              (pass-Behind r m old (n ∷ rest) c b e' ahead
                ∙ delivered-skip id m r on (λ q. passed r m old (n ∷ rest) b e' ahead q))
              (receive-Behind old n rest _ fuel (CanRead-moved os id _ r.handle c) next rest_old
                started further (omega arith)))
      ]
