-- ===== src/Stream/Moving.antt =====
-- A reader whose pointer moves past a message or a wrap-around tag.
use msgq.Words.{u32, pack64, higher, lower, higher-pack64, lower-pack64, lower-lt, higher-lt}
use msgq.Subscriber.{Handle, set_pointer}
use msgq.Stream.Receiving.{cycle_of, place_of, writer_place, moved}
use msgq.Stream.Chain.{slot-ge, Chain-le}
use msgq.Publisher.Steps.{slot}
use msgq.Base.{◌+◌, ◌^◌, ◌<◌, ◌≡◌, refl, ap, ◌∙◌, subst, fun_ext, List, [], ◌∷◌, arith, length, ℕ}
use msgq.Stream.{Chain, Same, Behind}

pub set_pointer-set_pointer :
    (id p q : ℕ) (h : Handle) → set_pointer id p (set_pointer id q h) ≡ set_pointer id p h
unfolding set_pointer
set_pointer-set_pointer id p q h =
    ap (λ (f : ℕ → ℕ). record h { segment = record (h.segment) { read_pointers = f } })
      (fun_ext λ i. ground arith)

-- The pointer that was set.
pub read_pointers-moved :
    (id cycles place : ℕ) (h : Handle)
    → (moved id cycles place h).segment.read_pointers id ≡ pack64 cycles place
unfolding set_pointer
read_pointers-moved id cycles place h = ground arith

module _ (id : ℕ) (h : Handle) (place cycles : ℕ) (small : place < 2 ^ 32)
    (fine : cycles < 2 ^ 32) where
  pub place_of-moved : place_of (moved id cycles place h) id ≡ place
  place_of-moved =
      ap lower (read_pointers-moved id cycles place h) ∙ lower-pack64 cycles place small

  pub cycle_of-moved : cycle_of (moved id cycles place h) id ≡ cycles
  cycle_of-moved =
      ap higher (read_pointers-moved id cycles place h) ∙ higher-pack64 cycles place fine

-- Past a message in the writer's cycle.
pub moved-Same :
    (id : ℕ) (h : Handle) (m : List ℕ) (rest : List (List ℕ))
    → Same h.segment id (m ∷ rest)
    → Same (moved id (cycle_of h id) (place_of h id + slot (length m)) h).segment id rest
unfolding set_pointer
moved-Same id h m rest t =
    let (some_bytes, object, tag, body, chain) = t.chain in
    let bounds = slot-ge (length m) some_bytes object in
    let extent =
      Chain-le h.segment.bytes (place_of h id + slot (length m)) rest (writer_place h) chain in
    let small : place_of h id + slot (length m) < 2 ^ 32 =
      omega (arith, extent, lower-lt h.segment.write_pointer) in
    let at =
      place_of-moved id h (place_of h id + slot (length m)) (cycle_of h id) small (higher-lt _) in
    record {
      cycles =
          cycle_of-moved id h (place_of h id + slot (length m)) (cycle_of h id) small (higher-lt _)
          ∙ t.cycles;
      aligned = rw at (omega (arith, t.aligned, bounds));
      chain = rw at chain;
    }

-- Past a message of the cycle before.
pub moved-Behind :
    (size id : ℕ) (h : Handle) (m : List ℕ) (old rest : List (List ℕ))
    (b : Behind size h.segment id (m ∷ rest))
    → size < 2 ^ 32
    → b.old ≡ m ∷ old
    → writer_place h < place_of h id
    → (c : Behind size
        (moved id (cycle_of h id) (place_of h id + slot (length m)) h).segment
        id
        rest)
      × (c.old ≡ old)
      × (writer_place h
          < place_of (moved id (cycle_of h id) (place_of h id + slot (length m)) h) id)
unfolding set_pointer
moved-Behind size id h m old rest b fine e ahead =
    let (some_bytes, object, tag, body, chain) =
      subst (λ l. Chain h.segment.bytes (place_of h id) l b.last) e b.chain_old in
    let bounds = slot-ge (length m) some_bytes object in
    let extent = Chain-le h.segment.bytes (place_of h id + slot (length m)) old b.last chain in
    let small : place_of h id + slot (length m) < 2 ^ 32 = omega (arith, extent, b.tag_in) in
    let at =
      place_of-moved id h (place_of h id + slot (length m)) (cycle_of h id) small (higher-lt _) in
    let cyc =
      cycle_of-moved id h (place_of h id + slot (length m)) (cycle_of h id) small (higher-lt _) in
    (
      record {
        old = old;
        new = b.new;
        last = b.last;
        cycles = rw cyc b.cycles;
        aligned = rw at (omega (arith, b.aligned, bounds));
        split = cc (b.split, e);
        chain_old = rw at chain;
        tag = b.tag;
        tag_in = b.tag_in;
        chain_new = b.chain_new;
        below = rw at (omega (arith, b.below));
      },
      refl,
      rw at (omega arith),
    )

-- Past the tag, into the writer's cycle.
pub moved-tag :
    (size id : ℕ) (h : Handle) (pending : List (List ℕ)) (b : Behind size h.segment id pending)
    → b.old ≡ []
    → Same (moved id (u32 (cycle_of h id + 1)) 0 h).segment id pending
unfolding set_pointer
moved-tag size id h pending b e =
    let at = place_of-moved id h 0 (u32 (cycle_of h id + 1)) (omega arith) (omega arith) in
    record {
      cycles =
          cycle_of-moved id h 0 (u32 (cycle_of h id + 1)) (omega arith) (omega arith) ∙ b.cycles;
      aligned = rw at refl;
      chain = rw (at, b.split, e) b.chain_new;
    }
