-- ===== src/Race/WriterSteps.antt =====
-- A step of the writer leaves the message of an attached reader alone, or clears the reader's flag.
use msgq.Events.Choice.{not-below}
use msgq.Stream.Writing.{is_inside-true}
use msgq.Race.Invariant.{
  Position, WriterAt, Held, Off, last, Lapping, Frame, Fitting, Unhit, Missed, Intact, Sensible,
  Target,
}
use msgq.Words.{u32, higher, lower}
use msgq.Stream.Chain.{slot-ge}
use msgq.Race.Writes.{
  turning, Writing, write_step, tagging, sweeping_beyond, clearing_beyond, Send, end_of,
}
use msgq.Race.Reads.{Setting}
use msgq.Queue.{Segment}
use msgq.Publisher.Steps.{slot_bounds, next_slot, slot}
use msgq.Publisher.{is_beyond, is_inside}
use msgq.Memory.Laws.{Agree, read_bytes-Agree, read64-write64, write64_outside, read64-Agree}
use msgq.Memory.{Memory, write64}
use native.Mathlib.Decide.{dec_lt, ℕ_discrete}
use msgq.Base.{
  ltb, Bool-cases, update_self, true≢false, ◌+◌, ◌-◌, ◌%◌, ◌^◌, ◌≤◌, ◌<◌, ◌≡◌, refl, sym, ◌∙◌,
  subst, ◌≢◌, ◌⊎◌, inl, inr, false, arith, length, ==_of_ne, update, ℕ,
}

module _ (c : Setting) (t : Target) (fine : Sensible c t) where
  pub bounds :
      (16 ≤ slot (length t.bytes))
      × (slot (length t.bytes) % 8 ≡ 0)
      × (length t.bytes + 8 ≤ slot (length t.bytes))
  bounds = slot-ge (length t.bytes) fine.some_bytes fine.object

  -- the store does not touch the message
  Intact-Agree :
      (mem mem' : Memory) → Agree mem mem' t.place (last c t) → Intact c t mem → Intact c t mem'
  Intact-Agree mem mem' same i = record {
    tag =
        subst (λ v. (v ≡ length t.bytes) ⊎ (v ≡ 2 ^ 64 - 1))
          (sym (read64-Agree mem mem' t.place (λ a l u. same a l (omega (arith, u, bounds)))))
          i.tag;
    body =
        read_bytes-Agree mem mem' (t.place + 8) (length t.bytes)
          (λ a l u. same a (omega (arith, l)) (omega (arith, u, bounds)))
        ∙ i.body;
  }

  -- the tag of a wrap-around at the reader's place
  Intact-tagged : (mem : Memory) → Intact c t mem → Intact c t (write64 mem t.place (2 ^ 64 - 1))
  Intact-tagged mem i = record {
    tag = inr (read64-write64 mem t.place (2 ^ 64 - 1) (omega arith));
    body =
        read_bytes-Agree mem _ (t.place + 8) (length t.bytes)
          (λ a l u. write64_outside mem t.place (2 ^ 64 - 1) a (inr l))
        ∙ i.body;
  }

  pub Intact-write64 :
      (mem : Memory) (p v : ℕ)
      → ((p + 8 ≤ t.place) ⊎ (last c t ≤ p))
      → Intact c t mem
      → Intact c t (write64 mem p v)
  Intact-write64 mem p v (inl h) i =
      Intact-Agree mem _ (λ a l u. write64_outside mem p v a (inr (omega (arith, h, l)))) i
  Intact-write64 mem p v (inr h) i =
      Intact-Agree mem _ (λ a l u. write64_outside mem p v a (inl (omega (arith, h, u)))) i

  pub Intact-update :
      (mem : Memory) (p x : ℕ)
      → ((p < t.place) ⊎ (last c t ≤ p))
      → Intact c t mem
      → Intact c t (update mem p x)
  Intact-update mem p x (inl h) i =
      Intact-Agree mem _ (λ a l u. rw (==_of_ne p a (λ e. omega (arith, h, l, e))) refl) i
  Intact-update mem p x (inr h) i =
      Intact-Agree mem _ (λ a l u. rw (==_of_ne p a (λ e. omega (arith, h, u, e))) refl) i

  pub end_of_lem :
      {n : ℕ} (f : Send)
      → Frame c t n f
      → f.pointer + slot f.msg.size + 8 ≤ c.size
      → end_of f ≡ f.pointer + slot f.msg.size
  end_of_lem f frame fits =
      (next_slot f.pointer f.msg.size frame.aligned (omega (arith, fits, fine.small)) frame.small).0

  -- Laps fewer than 2^32 do not look like none.
  lapped_apart :
      {n k cycles pointer : ℕ}
      → n < 2 ^ 32
      → k ≤ n
      → Lapping c t k cycles pointer
      → cycles ≢ t.cycles
  lapped_apart small le (j, one, most, eq, below) e =
      omega (arith, small, le, one, most, eq, e, fine.range)

  -- A frame whose reader the first loop leaves.
  beyond_misses :
      (n k : ℕ) (s : Segment) (f : Send)
      → n < 2 ^ 32
      → k < n
      → Frame c t k f
      → higher (s.read_pointers c.id) ≡ t.cycles
      → lower (s.read_pointers c.id) ≡ t.place
      → is_beyond f.pointer f.cycles (s.read_pointers c.id) ≡ false
      → Unhit c t f
  unfolding is_beyond
  beyond_misses n k s f small lt frame cycles place e = elim frame.position [
    | inl ahead ↦ inl ahead
    | inr lapping ↦ inr (
        let apart = lapped_apart small (omega (arith, lt)) lapping in
        ground (arith, apart, lapping.4, cycles, place, e))
  ]

  -- A frame whose reader the second loop leaves.
  pub inside_misses :
      (n : ℕ) (s : Segment) (f : Send)
      → n < 2 ^ 32
      → Fitting c t n f
      → higher (s.read_pointers c.id) ≡ t.cycles
      → lower (s.read_pointers c.id) ≡ t.place
      → is_inside f.pointer (end_of f) f.cycles (s.read_pointers c.id) ≡ false
      → Missed c t f
  inside_misses n s f small (frame, fits) cycles place e = elim frame.position [
    | inl ahead ↦ inl ahead
    | inr lapping ↦ elim (dec_lt t.place (f.pointer + slot f.msg.size)) [
      | no past ↦ inr (omega (arith, past))
      | yes hit ↦ absurd (
          true≢false (
            sym (
              is_inside-true f.pointer (end_of f) f.cycles (s.read_pointers c.id)
                (omega (arith, place, lapping.4))
                (omega (arith, place, hit, end_of_lem f frame fits))
                (λ q. lapped_apart small (omega arith) lapping (sym q ∙ cycles)))
            ∙ e))
    ]
  ]

  abbrev pub Kept : ℕ → Segment × Writing → Type 0
  Kept n x = Off c t x.0 ⊎ Held c t n x.0 x.1

  -- Only the place of the writer changes.
  pub at_place :
      {n : ℕ} {s : Segment} {w v : Writing} → Held c t n s w → WriterAt c t n s v → Held c t n s v
  at_place h at = record {
    listed = h.listed;
    here_cycles = h.here_cycles;
    here_place = h.here_place;
    intact = h.intact;
    at = at;
  }

  -- The bytes change as well.
  pub stored_place :
      {n : ℕ} {s : Segment} {w v : Writing} (mem : Memory)
      → Held c t n s w
      → Intact c t mem
      → WriterAt c t n (record s { bytes = mem }) v
      → Held c t n (record s { bytes = mem }) v
  stored_place mem h i at = record {
    listed = h.listed;
    here_cycles = h.here_cycles;
    here_place = h.here_place;
    intact = i;
    at = at;
  }

  pub Lapping-more :
      {k n cycles pointer : ℕ}
      → k ≤ n
      → Position c t k cycles pointer
      → Position c t n cycles pointer
  Lapping-more le (inl ahead) = inl ahead
  Lapping-more le (inr (j, one, most, eq, below)) = inr (j, one, omega (arith, most, le), eq, below)

  pub tagging_keeps :
      (n : ℕ) (s : Segment) (f : Send)
      → Held c t n s (tagging f)
      → Kept n (write_step s (tagging f))
  unfolding write_step
  tagging_keeps n s f h =
      let (k, lt, frame) = h.at in
      inr (stored_place _ h (tagged frame) (h.at, λ less. absurd (not-below _ less)))
    where
      tagged : {k : ℕ} → Frame c t k f → Intact c t (write64 s.bytes f.pointer (2 ^ 64 - 1))
      tagged frame = elim frame.position [
        | inl ahead ↦ Intact-write64 s.bytes f.pointer _ (inr ahead.1) h.intact
        | inr lapping ↦ elim (ℕ_discrete f.pointer t.place) [
          | yes same ↦ rw same (Intact-tagged s.bytes h.intact)
          | no apart ↦
              Intact-write64 s.bytes f.pointer _
                (inl (omega (arith, apart, lapping.4, frame.aligned, fine.aligned))) h.intact
        ]
      ]

  pub sweeping_beyond_keeps :
      (n i : ℕ) (s : Segment) (f : Send)
      → n < 2 ^ 32
      → Held c t n s (sweeping_beyond i f)
      → Kept n (write_step s (sweeping_beyond i f))
  unfolding write_step
  sweeping_beyond_keeps n i s f small h = elim (Bool-cases (ltb i f.readers)) [
    | inr over ↦
        rw (write_step, over)
          (inr (at_place h (h.at.0, h.at.1 (ground (arith, h.at.0.2.listed, over)))))
    | inl more ↦ elim (Bool-cases (is_beyond f.pointer f.cycles (s.read_pointers i))) [
      | inl hit ↦ rw (write_step, more, hit) (inr (at_place h h.at))
      | inr miss ↦ rw (write_step, more, miss) (inr (at_place h (h.at.0, passed miss)))
    ]
  ]
    where
      passed : is_beyond f.pointer f.cycles (s.read_pointers i) ≡ false → c.id < i + 1 → Unhit c t f
      passed miss less = elim (ℕ_discrete i c.id) [
        | yes same ↦
            beyond_misses n h.at.0.0 s f small h.at.0.1 h.at.0.2 h.here_cycles h.here_place
              (subst (λ j. is_beyond f.pointer f.cycles (s.read_pointers j) ≡ false) same miss)
        | no apart ↦ h.at.1 (omega (arith, less, apart))
      ]

  pub clearing_beyond_keeps :
      (n i : ℕ) (s : Segment) (f : Send)
      → Held c t n s (clearing_beyond i f)
      → Kept n (write_step s (clearing_beyond i f))
  unfolding write_step
  clearing_beyond_keeps n i s f h = elim (ℕ_discrete i c.id) [
    | yes same ↦ inl (rw same (update_self s.read_valids c.id 0))
    | no apart ↦ inr (record {
      listed = h.listed;
      here_cycles = h.here_cycles;
      here_place = h.here_place;
      intact = h.intact;
      at = (h.at.0, λ less. h.at.1 (omega (arith, less, apart)));
    })
  ]

  pub turning_keeps :
      (n : ℕ) (s : Segment) (f : Send)
      → Held c t n s (turning f)
      → Kept n (write_step s (turning f))
  unfolding write_step
  turning_keeps n s f h = inr (record {
    listed = h.listed;
    here_cycles = h.here_cycles;
    here_place = h.here_place;
    intact = h.intact;
    at = (
      (turned h.at.0.1 h.at.0.2 h.at.1, fits_at_start h.at.0.2),
      λ less. absurd (not-below _ less),
    );
  })
    where
      fits_at_start : {k : ℕ} → Frame c t k f → 0 + slot f.msg.size + 8 ≤ c.size
      fits_at_start frame = omega (arith, frame.fits, slot_bounds f.msg.size frame.small)

      moved_on :
          {k : ℕ} → k < n → Frame c t k f → Unhit c t f → Position c t n (u32 (f.cycles + 1)) 0
      moved_on lt frame (inl ahead) =
          inr (1, omega arith, omega (arith, lt), omega (arith, ahead.0), omega arith)
      moved_on lt frame (inr same) = elim frame.position [
        | inl ahead ↦ absurd (omega (arith, ahead.1, same, bounds))
        | inr lapping ↦ inr (
          lapping.0 + 1,
          omega arith,
          omega (arith, lt, lapping.2),
          omega (arith, lapping.3),
          omega arith,
        )
      ]

      turned :
          {k : ℕ}
          → k < n
          → Frame c t k f
          → Unhit c t f
          → Frame c t n (record f { cycles = u32 (f.cycles + 1); pointer = 0 })
      turned lt frame past = record {
        listed = frame.listed;
        small = frame.small;
        fits = frame.fits;
        aligned = refl;
        room = omega (arith, frame.fits, slot_bounds f.msg.size frame.small);
        range = omega arith;
        position = moved_on lt frame past;
      }
