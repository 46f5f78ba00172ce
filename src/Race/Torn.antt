-- ===== src/Race/Torn.antt =====
-- A receive that overlaps with sends of msgq/msgq.cc ends with its message, whole, or without one.
use msgq.Race.Sends.{begin_keeps, write_step-Off, write_step-Kept}
use msgq.Race.Writes.{idle, Writing}
use msgq.Race.WriterSteps.{Kept}
use msgq.Race.System.{System, Reach, start, begun, written, read}
use msgq.Race.ReaderSteps.{left, read_step-left, read_step-Safe, Before, Safe}
use msgq.Words.{higher, lower, higher-lt}
use msgq.Stream.Chain.{Chain-le}
use msgq.Stream.{Chain, Behind, Tracking}
use msgq.Race.Reads.{
  Ending, Reading, empty, lost, skipped, asserted, no_memory, received, loading, measuring,
  checking, skipping, copying, storing, rechecking, ended, Setting,
}
use msgq.Race.Invariant.{Held, Off, Target, Position, Intact, Sensible}
use msgq.Queue.{Segment}
use msgq.Publisher.Steps.{slot}
use msgq.Publisher.Bounds.{WriterOk}
use msgq.Memory.{read64}
use msgq.Base.{
  ◌-◌, ◌⊎◌, suc, ap, ◌∙◌, subst, ◌++◌, ◌+◌, ◌%◌, ◌^◌, ◌≤◌, ◌<◌, ◌≡◌, refl, sym, inl, inr, List, [],
  ◌∷◌, arith, length, ℕ,
}

-- The subscriber has messages to receive, and stands at the first of them.
pub record Facing (c : Setting) (s : Segment) (m : List ℕ) (rest : List (List ℕ)) : Type 0 where
  pub listed : c.id < s.num_readers
  pub fine : WriterOk c.size s
  pub tracking : Tracking c.size s c.id (m ∷ rest)
  pub tagged : read64 s.bytes (lower (s.read_pointers c.id)) ≡ length m

module _ (c : Setting) (s : Segment) (m : List ℕ) where
  abbrev target : Target
  target = record {
    cycles = higher (s.read_pointers c.id);
    place = lower (s.read_pointers c.id);
    bytes = m;
  }

  -- what both layouts give
  abbrev Start : Type 0
  Start =
      Sensible c target
      × Intact c target s.bytes
      × Position c target 1 (higher s.write_pointer) (lower s.write_pointer)

  laid_out :
      (ms : List (List ℕ)) (e : ℕ)
      → lower (s.read_pointers c.id) % 8 ≡ 0
      → Chain s.bytes (lower (s.read_pointers c.id)) (m ∷ ms) e
      → e + 8 ≤ c.size
      → c.size < 2 ^ 32
      → Sensible c target × Intact c target s.bytes
  laid_out ms e aligned (some_bytes, object, tag, body, chain) room small = (
    record {
      aligned = aligned;
      some_bytes = some_bytes;
      object = object;
      inside = omega (
        arith,
        room,
        Chain-le s.bytes (lower (s.read_pointers c.id) + slot (length m)) ms e chain,
      );
      small = small;
      range = higher-lt (s.read_pointers c.id);
    },
    record { tag = inl tag; body = body },
  )

  from_Behind :
      (rest : List (List ℕ))
      → Facing c s m rest
      → (b : Behind c.size s c.id (m ∷ rest)) → (old : List (List ℕ)) → b.old ≡ old
      → Start
  from_Behind rest f b [] none_old =
      let here =
        subst (λ o. Chain s.bytes (lower (s.read_pointers c.id)) o b.last) none_old b.chain_old in
      let new : b.new ≡ m ∷ rest = sym (b.split ∙ ap (λ o. o ++ b.new) none_old) in
      let chain = subst (λ o. Chain s.bytes 0 o (lower s.write_pointer)) new b.chain_new in
      absurd (omega (arith, ap (read64 s.bytes) here, b.tag, f.tagged, chain.1))
  from_Behind rest f b (x ∷ old) some_old =
      let split : m ∷ rest ≡ x ∷ (old ++ b.new) = b.split ∙ ap (λ o. o ++ b.new) some_old in
      let same : x ≡ m = cc split in
      let (sensible, intact) =
        laid_out old b.last b.aligned
          (subst (λ o. Chain s.bytes (lower (s.read_pointers c.id)) o b.last)
            (some_old ∙ ap (λ y. y ∷ old) same) b.chain_old)
          b.tag_in f.fine.small in
      (sensible, intact, inr (1, omega arith, omega arith, sym b.cycles, b.below))

  start_of : (rest : List (List ℕ)) → Facing c s m rest → Start
  start_of rest f = elim f.tracking [
    | inl same ↦
        let (sensible, intact) =
          laid_out rest (lower s.write_pointer) same.aligned same.chain f.fine.room f.fine.small in
        (
          sensible,
          intact,
          inl (
            sym same.cycles,
            omega (
              arith,
              Chain-le s.bytes (lower (s.read_pointers c.id) + slot (length m)) rest
                  (lower s.write_pointer) same.chain.4,
            ),
          ),
        )
    | inr behind ↦ from_Behind rest f behind.0 behind.0.old refl
  ]

module _ (c : Setting) (t : Target) (fine : Sensible c t) where
  -- What keeps the message, or clears the flag, keeps what is known of the reader.
  Before-moved :
      (n n' : ℕ) (s s' : Segment) (w w' : Writing) (P : Type 0)
      → (Off c t s → Off c t s')
      → (Held c t n s w → Kept c t fine n' (s', w'))
      → Before c t fine n s w P
      → Before c t fine n' s' w' P
  Before-moved n n' s s' w w' P off on (inl cleared) = inl (off cleared)
  Before-moved n n' s s' w w' P off on (inr (h, p)) = elim (on h) [
    | inl cleared ↦ inl cleared
    | inr held ↦ inr (held, p)
  ]

  still_cleared :
      (s s' : Segment) {P : Type 0} → (Off c t s → Off c t s') → Off c t s ⊎ P → Off c t s' ⊎ P
  still_cleared s s' off (inl cleared) = inl (off cleared)
  still_cleared s s' off (inr p) = inr p

  Safe-moved :
      (n n' : ℕ) (s s' : Segment) (w w' : Writing) (pc : Reading)
      → (Off c t s → Off c t s')
      → (Held c t n s w → Kept c t fine n' (s', w'))
      → Safe c t fine n s w pc
      → Safe c t fine n' s' w' pc
  Safe-moved n n' s s' w w' loading off on = Before-moved n n' s s' w w' _ off on
  Safe-moved n n' s s' w w' (measuring l) off on = Before-moved n n' s s' w w' _ off on
  Safe-moved n n' s s' w w' (checking v l) off on = Before-moved n n' s s' w w' _ off on
  Safe-moved n n' s s' w w' (skipping packed) off on = λ safe. safe
  Safe-moved n n' s s' w w' (copying k got l) off on = Before-moved n n' s s' w w' _ off on
  Safe-moved n n' s s' w w' (storing got l) off on = Before-moved n n' s s' w w' _ off on
  Safe-moved n n' s s' w w' (rechecking got) off on = still_cleared s s' off
  Safe-moved n n' s s' w w' (ended (received xs)) off on = λ safe. safe
  Safe-moved n n' s s' w w' (ended asserted) off on = λ safe. safe
  Safe-moved n n' s s' w w' (ended empty) off on = λ safe. safe
  Safe-moved n n' s s' w w' (ended lost) off on = λ safe. safe
  Safe-moved n n' s s' w w' (ended skipped) off on = λ safe. safe
  Safe-moved n n' s s' w w' (ended (no_memory v)) off on = λ safe. safe

  -- Of a system in which `n` sends began.
  abbrev Safely : ℕ → System → Type 0
  Safely n x = Safe c t fine (suc n) x.segment x.writer x.reader

  Reach-Safely :
      (x : System) (n k : ℕ) (y : System)
      → n + 1 < 2 ^ 32
      → Safely 0 x
      → Reach c x n k y
      → Safely n y
  Reach-Safely x n k y few safe start = safe
  Reach-Safely x n k y few safe (begun {n = j} {t = z} r msg idle_now object fits) =
      Safe-moved (suc j) (suc (suc j)) z.segment z.segment z.writer _ z.reader (λ off. off)
        (λ h. inr (
          begin_keeps c t fine (suc j) z.segment msg
            (subst (λ w. Held c t (suc j) z.segment w) idle_now h) object fits))
        (Reach-Safely x j k z (omega (arith, few)) safe r)
  Reach-Safely x n k y few safe (written {t = z} r) =
      Safe-moved (suc n) (suc n) z.segment _ z.writer _ z.reader
        (write_step-Off c t fine z.segment z.writer)
        (λ h. write_step-Kept c t fine (suc n) z.segment z.writer (omega (arith, few)) (inr h))
        (Reach-Safely x n k z few safe r)
  Reach-Safely x n k y few safe (read {k = j} {t = z} r) =
      read_step-Safe c t fine (suc n) z.segment z.writer z.reader (Reach-Safely x n j z few safe r)

  -- The steps that the pass takes are steps towards its end.
  Reach-left :
      (x : System) (n k : ℕ) (y : System)
      → n + 1 < 2 ^ 32
      → Safely 0 x
      → Reach c x n k y
      → left c t fine y.reader ≤ left c t fine x.reader - k
  Reach-left x n k y few safe start = omega arith
  Reach-left x n k y few safe (begun {n = j} {t = z} r msg idle_now object fits) =
      Reach-left x j k z (omega (arith, few)) safe r
  Reach-left x n k y few safe (written {t = z} r) = Reach-left x n k z few safe r
  Reach-left x n k y few safe (read {k = j} {t = z} r) = omega (
    arith,
    Reach-left x n j z few safe r,
    read_step-left c t fine (suc n) z.segment z.writer z.reader (Reach-Safely x n j z few safe r),
  )

  -- Nothing is left of a pass that has ended only.
  left-ended : (pc : Reading) → left c t fine pc ≤ 0 → (o : Ending) × (pc ≡ ended o)
  left-ended loading h = absurd (omega (arith, h))
  left-ended (measuring l) h = absurd (omega (arith, h))
  left-ended (checking v l) h = absurd (omega (arith, h))
  left-ended (skipping packed) h = absurd (omega (arith, h))
  left-ended (copying k got l) h = absurd (omega (arith, h))
  left-ended (storing got l) h = absurd (omega (arith, h))
  left-ended (rechecking got) h = absurd (omega (arith, h))
  left-ended (ended o) h = (o, refl)

-- What is acceptable of a pass that faces the message `m`: no other bytes, and no failed assertion.
abbrev pub Whole : List ℕ → Ending → Type 0
Whole m (received xs) = xs ≡ m
Whole m asserted = ⊥
Whole m empty = Unit
Whole m lost = Unit
Whole m skipped = Unit
Whole m (no_memory n) = Unit

module _ (c : Setting) (t : Target) (fine : Sensible c t) where
  Safe-Whole :
      (n : ℕ) (s : Segment) (w : Writing) (o : Ending)
      → Safe c t fine n s w (ended o)
      → Whole t.bytes o
  Safe-Whole n s w (received xs) safe = safe
  Safe-Whole n s w asserted safe = safe
  Safe-Whole n s w empty safe = tt
  Safe-Whole n s w lost safe = tt
  Safe-Whole n s w skipped safe = tt
  Safe-Whole n s w (no_memory v) safe = tt

-- A pass of a receive, from its load of the pointers on, in which other steps of one publisher
-- fall: after six steps more than the message has bytes it has ended, however many steps the
-- publisher took. If it yields a message, it is the first of those that the subscriber had to
-- receive, whole, and its assertions hold. Fewer than 2^32 - 1 sends begin meanwhile.
pub no_torn_read :
    (c : Setting) (x : System) (m : List ℕ) (rest : List (List ℕ)) (n k : ℕ) (y : System)
    → Facing c x.segment m rest
    → x.writer ≡ idle
    → x.reader ≡ loading
    → n + 1 < 2 ^ 32
    → length m + 6 ≤ k
    → Reach c x n k y
    → (o : Ending) × (y.reader ≡ ended o) × Whole m o
no_torn_read c x m rest n k y f still before few enough r =
    let (fine, intact, position) = start_of c x.segment m rest f in
    let t = target c x.segment m in
    let h : Held c t 1 x.segment idle = record {
      listed = f.listed;
      here_cycles = refl;
      here_place = refl;
      intact = intact;
      at = (f.fine, position);
    } in
    let safe : Safe c t fine 1 x.segment idle loading = inr (h, tt) in
    let begun_safe : Safe c t fine 1 x.segment x.writer x.reader = rw (still, before) safe in
    let steps : left c t fine x.reader ≡ length m + 6 = rw before refl in
    let (o, e) =
      left-ended c t fine y.reader
        (omega (arith, Reach-left c t fine x n k y few begun_safe r, steps, enough)) in
    (
      o,
      e,
      Safe-Whole c t fine (suc n) y.segment y.writer o (
          subst (λ pc. Safe c t fine (suc n) y.segment y.writer pc) e
            (Reach-Safely c t fine x n k y few begun_safe r)),
    )
