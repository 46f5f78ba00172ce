-- ===== src/Race/ReaderSteps.antt =====
-- A step of the reader of a message, beside a writer that leaves the message alone or clears the
-- reader's flag.

use msgq.Race.Repeated.{here}
use msgq.Memory.Laws.{read_bytes-at}
use msgq.Words.{lower, signed_le_zero}
use msgq.Race.Writes.{Writing}
use msgq.Race.WriterSteps.{bounds}
use msgq.Race.Reads.{
  next_place, read_step, Spot, Reading, Setting, judge, empty, lost, skipped, asserted, no_memory,
  received, loading, measuring, checking, skipping, copying, storing, rechecking, ended,
}
use msgq.Race.Invariant.{Intact, Target, Held, Sensible, Off}
use msgq.Queue.{Segment}
use msgq.Base.{
  ◌≤◌, ◌<◌, zero, suc, ◌+◌, sym, ◌∙◌, Bool, not, ◌&&◌, [], ◌∷◌, append-nil, append_assoc, ◌-◌, ◌^◌,
  ◌≡◌, refl, ◌⊎◌, inl, inr, false, List, ◌++◌, arith, length, ◌==◌, leb_of_lt, Bool-cases, ℕ,
}

module _ (c : Setting) (t : Target) (fine : Sensible c t) where
  -- Before the reader's own store: the flag is cleared, or the message is held and `P` holds.
  abbrev pub Before : ℕ → Segment → Writing → Type 0 → Type 0
  Before n s w P = Off c t s ⊎ (Held c t n s w × P)

  -- the pointers that the reader unpacked are those of the message
  abbrev pub Here : Spot → Type 0
  Here l = (l.cycles ≡ t.cycles) × (l.place ≡ t.place)

  -- What is known of a reader, by where it stands.
  abbrev pub Safe : ℕ → Segment → Writing → Reading → Type 0
  Safe n s w loading = Before n s w Unit
  Safe n s w (measuring l) = Before n s w (Here l)
  Safe n s w (checking v l) = Before n s w (Here l × ((v ≡ length t.bytes) ⊎ (v ≡ 2 ^ 64 - 1)))
  Safe n s w (skipping packed) = Unit
  Safe n s w (copying k got l) =
      Before n s w (Here l × ((rest : List ℕ) × (t.bytes ≡ got ++ rest) × (length rest ≡ k)))
  Safe n s w (storing got l) = Before n s w (got ≡ t.bytes)
  Safe n s w (rechecking got) = Off c t s ⊎ (got ≡ t.bytes)
  Safe n s w (ended (received xs)) = xs ≡ t.bytes
  Safe n s w (ended asserted) = ⊥
  Safe n s w (ended empty) = Unit
  Safe n s w (ended lost) = Unit
  Safe n s w (ended skipped) = Unit
  Safe n s w (ended (no_memory v)) = Unit

  judge_lost :
      (s : Segment) (v : ℕ) (l : Spot) → Off c t s → judge c (s.read_valids c.id) v l ≡ ended lost
  unfolding judge
  judge_lost s v l off = rw off refl

  -- A size that is the message's, or a tag, passes the assertions.
  judge-Safe :
      (n : ℕ) (s : Segment) (w : Writing) (v : ℕ) (l : Spot)
      → Held c t n s w
      → Here l
      → ((v ≡ length t.bytes) ⊎ (v ≡ 2 ^ 64 - 1))
      → Safe n s w (judge c (s.read_valids c.id) v l)
  unfolding judge signed_le_zero
  judge-Safe n s w v l h here size = elim (Bool-cases (s.read_valids c.id == 0)) [
    | inl off ↦ rw off tt
    | inr on ↦ elim (Bool-cases (v == 2 ^ 64 - 1)) [
      | inl tag ↦ rw (on, tag) tt
      | inr sized ↦
          let own : v ≡ length t.bytes = ground (arith, size, sized) in
          let short = leb_of_lt c.size v (omega (arith, own, bounds c t fine, fine.inside)) in
          let above : signed_le_zero v ≡ false =
            ground (arith, own, fine.some_bytes, fine.object) in
          rw (on, sized, short, above)
            (elim (Bool-cases skips) [
              | inl conflates ↦ rw conflates tt
              | inr stays ↦ elim (Bool-cases (c.alloc v)) [
                | inl room ↦ rw (stays, room) (inr (h, (here, (t.bytes, refl, sym own))))
                | inr full ↦ rw (stays, full) tt
              ]
            ])
    ]
  ]
    where
      skips : Bool
      skips = c.conflate && not (next_place v l == l.writer)

  -- One more byte of the message.
  copied_on :
      (k : ℕ) (got rest : List ℕ) (s : Segment) (l : Spot)
      → Intact c t s.bytes
      → Here l
      → t.bytes ≡ got ++ rest
      → length rest ≡ suc k
      → (more : List ℕ) × (t.bytes ≡ (got ++ s.bytes (l.place + 8 + length got) ∷ []) ++ more)
        × (length more ≡ k)
  copied_on k got [] s l i here split long = absurd (omega (arith, long))
  copied_on k got (x ∷ rest) s l i here split long = (
    rest,
    rw (here.1, read_bytes-at s.bytes (t.place + 8) (length t.bytes) got x rest (i.body ∙ split))
        (split ∙ sym (append_assoc got (x ∷ []) rest)),
    omega (arith, long),
  )

  all_read :
      {got : List ℕ} (rest : List ℕ) → t.bytes ≡ got ++ rest → length rest ≡ 0 → got ≡ t.bytes
  all_read {got} [] split long = sym (split ∙ append-nil got)
  all_read (x ∷ rest) split long = absurd (omega (arith, long))

  -- One step of the reader, which also leaves a cleared flag cleared.
  pub read_step-Safe :
      (n : ℕ) (s : Segment) (w : Writing) (pc : Reading)
      → Safe n s w pc
      → Safe n (read_step c s pc).0 w (read_step c s pc).1
  unfolding read_step
  read_step-Safe n s w loading safe = elim (Bool-cases at_writer) [
    | inl same ↦ rw same tt
    | inr apart ↦ rw apart (elim safe [
      | inl off ↦ inl off
      | inr held ↦ inr (held.0, (held.0.here_cycles, held.0.here_place))
    ])
  ]
    where
      at_writer : Bool
      at_writer = lower (s.read_pointers c.id) == lower s.write_pointer
  read_step-Safe n s w (measuring l) (inl off) = inl off
  read_step-Safe n s w (measuring l) (inr (h, here)) = inr (h, (here, rw (here.1) (h.intact.tag)))
  read_step-Safe n s w (checking v l) (inl off) = rw (judge_lost s v l off) tt
  read_step-Safe n s w (checking v l) (inr (h, (here, size))) = judge-Safe n s w v l h here size
  read_step-Safe n s w (skipping packed) safe = tt
  read_step-Safe n s w (copying zero got l) (inl off) = inl off
  read_step-Safe n s w (copying zero got l) (inr (h, (here, (rest, split, long)))) =
      inr (h, all_read rest split long)
  read_step-Safe n s w (copying (suc k) got l) (inl off) = inl off
  read_step-Safe n s w (copying (suc k) got l) (inr (h, (here, (rest, split, long)))) =
      inr (h, (here, copied_on k got rest s l h.intact here split long))
  read_step-Safe n s w (storing got l) (inl off) = inl off
  read_step-Safe n s w (storing got l) (inr (h, all)) = inr all
  read_step-Safe n s w (rechecking got) safe = elim (Bool-cases (s.read_valids c.id == 0)) [
    | inl off ↦ rw off tt
    | inr on ↦ rw on (ground (arith, safe, on))
  ]
  read_step-Safe n s w (ended (received xs)) safe = safe
  read_step-Safe n s w (ended asserted) safe = safe
  read_step-Safe n s w (ended empty) safe = safe
  read_step-Safe n s w (ended lost) safe = safe
  read_step-Safe n s w (ended skipped) safe = safe
  read_step-Safe n s w (ended (no_memory v)) safe = safe

  -- the steps that a safe pass has left, at most
  abbrev pub left : Reading → ℕ
  left loading = length t.bytes + 6
  left (measuring l) = length t.bytes + 5
  left (checking v l) = length t.bytes + 4
  left (skipping packed) = 1
  left (copying k got l) = k + 3
  left (storing got l) = 2
  left (rechecking got) = 1
  left (ended o) = 0

  judge-left :
      (n : ℕ) (s : Segment) (w : Writing) (v : ℕ) (l : Spot)
      → Safe n s w (checking v l)
      → left (judge c (s.read_valids c.id) v l) < length t.bytes + 4
  unfolding judge
  judge-left n s w v l (inl off) = rw (judge_lost s v l off) (omega arith)
  judge-left n s w v l (inr (h, (here, size))) = ground (arith, size)

  -- A step of a safe pass that has not ended is progress.
  pub read_step-left :
      (n : ℕ) (s : Segment) (w : Writing) (pc : Reading)
      → Safe n s w pc
      → left (read_step c s pc).1 ≤ left pc - 1
  unfolding read_step
  read_step-left n s w loading safe = ground arith
  read_step-left n s w (measuring l) safe = omega arith
  read_step-left n s w (checking v l) safe = omega (arith, judge-left n s w v l safe)
  read_step-left n s w (skipping packed) safe = omega arith
  read_step-left n s w (copying zero got l) safe = omega arith
  read_step-left n s w (copying (suc k) got l) safe = omega arith
  read_step-left n s w (storing got l) safe = omega arith
  read_step-left n s w (rechecking got) safe = ground arith
  read_step-left n s w (ended o) safe = omega arith
