-- ===== src/Stream/Chain.antt =====
-- Chains of messages in memory: their extent, and what leaves them intact.
use msgq.Publisher.Bounds.{}
use msgq.Base.{
  refl, inl, ◌∙◌, take-length, arith, [], ◌∷◌, ◌≤◌, ◌*◌, ◌≡◌, ◌^◌, ◌+◌, ◌%◌, length, ◌++◌, List,
  ◌<◌, ℕ,
}
use msgq.Memory.{write64, Memory}
use msgq.Memory.Laws.{
  read_bytes-write_bytes, read64-write64, write_bytes_outside, read_bytes-Agree, read64-Agree,
  Agree,
}
use msgq.Publisher.Steps.{slot, slot_bounds, stored}
use msgq.Queue.{Segment, message}
use msgq.Stream.{Same, Stalled, Chain}

-- A message takes sixteen bytes at least.
pub slot-ge : (n : ℕ) → 0 < n → n < 2 ^ 31 → (16 ≤ slot n) × (slot n % 8 ≡ 0) × (n + 8 ≤ slot n)
slot-ge n pos_n small = omega (arith, slot_bounds n (omega arith))

pub Chain-le :
    (mem : Memory) (p : ℕ) (ms : List (List ℕ)) (e : ℕ) → Chain mem p ms e → p + 16 * length ms ≤ e
Chain-le mem p [] e c = omega arith
Chain-le mem p (m ∷ ms) e (some_bytes, small, tag, body, rest) =
    omega (arith, slot-ge (length m) some_bytes small, Chain-le mem (p + slot (length m)) ms e rest)

pub Chain-aligned :
    (mem : Memory) (p : ℕ) (ms : List (List ℕ)) (e : ℕ) → p % 8 ≡ 0 → Chain mem p ms e → e % 8 ≡ 0
Chain-aligned mem p [] e a c = omega arith
Chain-aligned mem p (m ∷ ms) e a (some_bytes, small, tag, body, rest) =
    Chain-aligned mem (p + slot (length m)) ms e
      (omega (arith, slot-ge (length m) some_bytes small)) rest

-- A chain survives changes outside its extent.
pub Chain-Agree :
    (mem mem' : Memory) (p : ℕ) (ms : List (List ℕ)) (e : ℕ)
    → Agree mem mem' p e
    → Chain mem p ms e
    → Chain mem' p ms e
Chain-Agree mem mem' p [] e same c = c
Chain-Agree mem mem' p (m ∷ ms) e same (some_bytes, small, tag, body, rest) =
    let bounds = slot-ge (length m) some_bytes small in
    let upto = Chain-le mem (p + slot (length m)) ms e rest in
    (
      some_bytes,
      small,
      read64-Agree mem mem' p (λ a l u. same a l (omega arith)) ∙ tag,
      read_bytes-Agree mem mem' (p + 8) (length m) (λ a l u. same a (omega arith) (omega arith))
          ∙ body,
      Chain-Agree mem mem' (p + slot (length m)) ms e (λ a l u. same a (omega arith) u) rest,
    )

pub Chain-append :
    (mem : Memory) (p : ℕ) (ms ns : List (List ℕ)) (e f : ℕ)
    → Chain mem p ms e
    → Chain mem e ns f
    → Chain mem p (ms ++ ns) f
Chain-append mem p [] ns e f c d = rw c d
Chain-append mem p (m ∷ ms) ns e f (some_bytes, small, tag, body, rest) d =
    (some_bytes, small, tag, body, Chain-append mem (p + slot (length m)) ms ns e f rest d)

-- What a send stores at `p` is a chain of that one message.
pub stored-Chain :
    (mem : Memory) (p : ℕ) (m : List ℕ)
    → 0 < length m
    → length m < 2 ^ 31
    → Chain (stored p (message m) mem) p (m ∷ []) (p + slot (length m))
stored-Chain mem p m some_bytes small = rw (take-length m) (
  some_bytes,
  small,
  read64-Agree (write64 mem p (length m)) _ p (λ a l u. write_bytes_outside _ (p + 8) m a (inl u))
      ∙ read64-write64 mem p (length m) (omega arith),
  read_bytes-write_bytes (write64 mem p (length m)) (p + 8) m,
  refl,
)

-- In the writer's cycle the writer is not a cycle ahead.
pub Same-free :
    (s : Segment) (id : ℕ) (pending : List (List ℕ)) → Same s id pending → ¬ Stalled s id
Same-free s id pending t (e, apart) = apart t.cycles
