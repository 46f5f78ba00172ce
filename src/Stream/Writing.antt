-- ===== src/Stream/Writing.antt =====
-- The two parts of `msgq_msg_send`, a wrap-around and a plain write, as a reader that follows the
-- writer sees them.
use native.Mathlib.Decide.{dec_lt, ℕ_discrete}
use msgq.Words.{pack64, u32, higher, lower, higher-pack64, lower-pack64, higher-lt}
use msgq.Stream.Chain.{slot-ge, Chain-le, Chain-Agree, Chain-append, stored-Chain}
use msgq.Stream.{Chain, Follows, Same, Behind, Stalled}
use msgq.Queue.{Segment, message}
use msgq.Publisher.Steps.{stored, slot, put, wrapped, stored_outside}
use msgq.Publisher.Loops.{masked}
use msgq.Publisher.Bounds.{WriterOk}
use msgq.Publisher.{is_inside, is_beyond}
use msgq.Memory.Laws.{Agree, read64-Agree, read64-write64, write64_outside}
use msgq.Base.{
  ◌⊎◌, ◌≤◌, ap, ◌≢◌, inr, append_assoc, leb_of_le, ==_of_ne, ◌+◌, ◌^◌, ◌<◌, ◌≡◌, sym, ◌∙◌, inl,
  Bool, true, false, List, [], ◌∷◌, ◌++◌, append-nil, arith, length, lt→ltb, ℕ,
}

pub wide : (m : List ℕ) → length m < 2 ^ 31 → length m < 2 ^ 62
wide m h = omega arith

-- A loop of invalidation, at one slot.
pub masked_hit :
    (doomed : ℕ → Bool) (n id : ℕ) (s : Segment)
    → id < n
    → doomed (s.read_pointers id) ≡ true
    → masked doomed n s id ≡ 0
masked_hit doomed n id s h e = rw (lt→ltb id n h, e)

pub masked_miss :
    (doomed : ℕ → Bool) (n id : ℕ) (s : Segment)
    → doomed (s.read_pointers id) ≡ false
    → masked doomed n s id ≡ s.read_valids id
masked_miss doomed n id s e = ground arith

pub masked_keeps_zero :
    (doomed : ℕ → Bool) (n id : ℕ) (s : Segment) → s.read_valids id ≡ 0 → masked doomed n s id ≡ 0
masked_keeps_zero doomed n id s e = ground arith

pub Behind-apart :
    (size : ℕ) (s : Segment) (id : ℕ) (pending : List (List ℕ))
    → Behind size s id pending
    → higher (s.read_pointers id) ≢ higher s.write_pointer
Behind-apart size s id pending b e = omega (arith, b.cycles, higher-lt s.write_pointer)

pub Behind-below :
    (size : ℕ) (s : Segment) (id : ℕ) (pending : List (List ℕ))
    → Behind size s id pending
    → ¬ Stalled s id
    → lower s.write_pointer < lower (s.read_pointers id)
Behind-below size s id pending b free =
    elim (ℕ_discrete (lower (s.read_pointers id)) (lower s.write_pointer)) [
      | yes e ↦ absurd (free (e, Behind-apart size s id pending b))
      | no ne ↦ omega (arith, b.below)
    ]

pub is_beyond-true :
    (s : Segment) (id : ℕ)
    → higher (s.read_pointers id) ≢ higher s.write_pointer
    → lower s.write_pointer < lower (s.read_pointers id)
    → is_beyond (lower s.write_pointer) (higher s.write_pointer) (s.read_pointers id) ≡ true
unfolding is_beyond
is_beyond-true s id apart below = rw (lt→ltb _ _ below, ==_of_ne _ _ apart)

pub is_inside-true :
    (start end cycles pointer : ℕ)
    → start ≤ lower pointer
    → lower pointer < end
    → higher pointer ≢ cycles
    → is_inside start end cycles pointer ≡ true
unfolding is_inside
is_inside-true start end cycles pointer h k apart =
    rw (leb_of_le _ _ h, lt→ltb _ _ k, ==_of_ne _ _ apart)

-- A reader in the middle of a send, perhaps just behind a wrap-around.
abbrev pub Settling : ℕ → Segment → ℕ → List (List ℕ) → Type 0
Settling size s id pending = (s.read_valids id ≡ 0) ⊎ (Same s id pending ⊎ Behind size s id pending)

pub settle :
    (size : ℕ) (s : Segment) (id : ℕ) (pending : List (List ℕ))
    → Follows size s id pending
    → Settling size s id pending
settle size s id pending (inl off) = inl off
settle size s id pending (inr (inl t)) = inr (inl t)
settle size s id pending (inr (inr (b, started))) = inr (inr b)

-- The readers as seen by the wrap-around branch: one in the writer's cycle is now a cycle behind,
-- one a cycle behind loses its flag unless the writer stands at its very place.
module _ (size : ℕ) (s : Segment) (w : WriterOk size s) (id : ℕ) (listed : id < s.num_readers)
    (pending : List (List ℕ)) where
  pub wrapped-Same :
      Same s id pending
      → Behind size (wrapped (higher s.write_pointer) (lower s.write_pointer) s) id pending
  wrapped-Same t = record {
    old = pending;
    new = [];
    last = lower s.write_pointer;
    cycles =
        omega (arith, t.cycles, higher-pack64 (u32 (higher s.write_pointer + 1)) 0 (omega arith));
    aligned = t.aligned;
    split = sym (append-nil pending);
    chain_old =
        Chain-Agree s.bytes _ (lower (s.read_pointers id)) pending (lower s.write_pointer)
          (λ a l u. write64_outside s.bytes (lower s.write_pointer) _ a (inl u)) t.chain;
    tag = read64-write64 s.bytes (lower s.write_pointer) _ (omega arith);
    tag_in = w.room;
    chain_new = sym (lower-pack64 _ 0 (omega arith));
    below = omega (arith, lower-pack64 (u32 (higher s.write_pointer + 1)) 0 (omega arith));
  }

  pub wrapped-Behind :
      Behind size s id pending
      → ¬ Stalled s id
      → (wrapped (higher s.write_pointer) (lower s.write_pointer) s).read_valids id ≡ 0
  wrapped-Behind b free =
      masked_hit (is_beyond (lower s.write_pointer) (higher s.write_pointer)) s.num_readers id s
        listed
        (is_beyond-true s id (Behind-apart size s id pending b)
          (Behind-below size s id pending b free))

-- the test of the second loop for a message of `n` bytes at the write pointer
abbrev pub inside : Segment → ℕ → ℕ → Bool
inside s n =
    is_inside (lower s.write_pointer) (lower s.write_pointer + slot n) (higher s.write_pointer)

-- A plain write at the write pointer.
module _ (size : ℕ) (s : Segment) (id : ℕ) (listed : id < s.num_readers) (pending : List (List ℕ))
    (m : List ℕ) (some_bytes : 0 < length m) (object : length m < 2 ^ 31)
    (fits : lower s.write_pointer + slot (length m) < 2 ^ 32) where
  -- What was stored leaves alone a part of memory that ends at the write pointer or begins
  -- behind the new message.
  kept_below :
      (lo : ℕ)
      → Agree s.bytes
          (put (message m) (higher s.write_pointer) (lower s.write_pointer) s).bytes
          lo
          (lower s.write_pointer)
  kept_below lo a l u =
      stored_outside (lower s.write_pointer) (message m) s.bytes a (wide m object) (inl u)

  kept_above :
      (lo hi : ℕ)
      → lower s.write_pointer + slot (length m) ≤ lo
      → Agree s.bytes
          (put (message m) (higher s.write_pointer) (lower s.write_pointer) s).bytes
          lo
          hi
  kept_above lo hi h a l u =
      stored_outside (lower s.write_pointer) (message m) s.bytes a (wide m object)
        (inr (omega arith))

  -- The chain that ended at the write pointer now ends behind the new message.
  put-Chain :
      (p : ℕ) (ms : List (List ℕ))
      → Chain s.bytes p ms (lower s.write_pointer)
      → Chain
          (stored (lower s.write_pointer) (message m) s.bytes)
          p
          (ms ++ m ∷ [])
          (lower (pack64 (higher s.write_pointer) (lower s.write_pointer + slot (length m))))
  put-Chain p ms c = rw (lower-pack64 _ _ fits) (
      Chain-append _ p ms (m ∷ []) (lower s.write_pointer) _
        (Chain-Agree s.bytes _ p ms (lower s.write_pointer) (kept_below p) c)
        (stored-Chain s.bytes (lower s.write_pointer) m some_bytes object))

  pub put-Same :
      Same s id pending
      → Same
          (put (message m) (higher s.write_pointer) (lower s.write_pointer) s)
          id
          (pending ++ m ∷ [])
  put-Same t = record {
    cycles = t.cycles ∙ sym (higher-pack64 _ _ (higher-lt s.write_pointer));
    aligned = t.aligned;
    chain = put-Chain (lower (s.read_pointers id)) pending t.chain;
  }

  pub put-Behind_ahead :
      Behind size s id pending
      → lower s.write_pointer + slot (length m) ≤ lower (s.read_pointers id)
      → Behind size
          (put (message m) (higher s.write_pointer) (lower s.write_pointer) s)
          id
          (pending ++ m ∷ [])
  put-Behind_ahead b miss =
      let extent = Chain-le s.bytes (lower (s.read_pointers id)) b.old b.last b.chain_old in
      record {
        old = b.old;
        new = b.new ++ m ∷ [];
        last = b.last;
        cycles = b.cycles ∙ sym (higher-pack64 _ _ (higher-lt s.write_pointer));
        aligned = b.aligned;
        split = ap (λ l. l ++ m ∷ []) b.split ∙ append_assoc b.old b.new (m ∷ []);
        chain_old =
            Chain-Agree s.bytes _ (lower (s.read_pointers id)) b.old b.last
              (kept_above (lower (s.read_pointers id)) b.last miss) b.chain_old;
        tag =
            read64-Agree s.bytes _ b.last (kept_above b.last (b.last + 8) (omega (arith, extent)))
            ∙ b.tag;
        tag_in = b.tag_in;
        chain_new = put-Chain 0 b.new b.chain_new;
        below = rw (lower-pack64 _ _ fits) miss;
      }

  pub put-Behind :
      Behind size s id pending
      → Follows size
          (put (message m) (higher s.write_pointer) (lower s.write_pointer) s)
          id
          (pending ++ m ∷ [])
  put-Behind b =
      elim (dec_lt (lower (s.read_pointers id)) (lower s.write_pointer + slot (length m))) [
        | yes hit ↦ inl (
            masked_hit (inside s (length m)) s.num_readers id s listed (
              is_inside-true _ _ _ (s.read_pointers id) b.below hit
                (Behind-apart size s id pending b)))
        | no miss ↦ inr (
            inr (
              put-Behind_ahead b (omega arith),
              rw (lower-pack64 _ _ fits) (omega (arith, slot-ge (length m) some_bytes object)),
            ))
      ]

  pub put-Follows :
      Settling size s id pending
      → Follows size
          (put (message m) (higher s.write_pointer) (lower s.write_pointer) s)
          id
          (pending ++ m ∷ [])
  put-Follows (inl off) = inl (masked_keeps_zero (inside s (length m)) s.num_readers id s off)
  put-Follows (inr (inl t)) = inr (inl (put-Same t))
  put-Follows (inr (inr b)) = put-Behind b
