-- ===== src/Race/ReceiveAlone.antt =====
-- A pass of a receive that nothing interrupts is `take_next`.
use msgq.Memory.Laws.{length-read_bytes}
use msgq.Words.{higher, pack64, lower, signed_le_zero, int_of}
use msgq.Subscriber.{
  msg_init_size, set_pointer, Os, reset_slot, Pass, Reader, copy_message, take_tagged, take_next,
  again, finish, failed,
}
use msgq.Race.Repeated.{repeat, then_on, Leads, here, by_step}
use msgq.Queue.{Segment, message}
use msgq.Race.Reads.{
  measuring, rechecking, move_pointer, skipping, Ending, Spot, Reading, Setting, next_place, judge,
  read_step, empty, lost, skipped, asserted, no_memory, received, loading, copying, storing, ended,
}
use msgq.Memory.{read64, read_bytes}
use msgq.Base.{
  ◌-◌, ◌^◌, ap, ◌∙◌, subst, inl, inr, not, ◌&&◌, ◌||◌, ◌∷◌, append_assoc, arith, length-append, leb,
  ◌==◌, ==_of_ne, Bool-cases, zero, suc, ◌+◌, ◌≡◌, refl, ◌≢◌, true, List, [], ◌++◌, append-nil,
  length, pos, negsuc, ℕ,
}

abbrev pub read_on : Setting → Segment × Reading → Segment × Reading
read_on c x = read_step c x.0 x.1

-- what the pass knows of the subscriber in slot `id`
abbrev pub setting_of : Os → ℕ → Reader → Setting
setting_of os id r = record {
  id = id;
  size = r.handle.queue.size;
  conflate = r.handle.queue.read_conflate;
  alloc = os.alloc;
}

-- The end of a pass that nothing interrupts, with the message and the segment that it leaves. The
-- flag is then found cleared by the first test of it, if at all, before memory is taken.
unfoldable pub as_pass : ℕ → Reader → Segment → Ending → Pass Reader
as_pass id r s empty = finish (pos 0) (record r { msg = record (r.msg) { size = 0 } })
as_pass id r s lost = again (record r { handle = record (r.handle) { segment = reset_slot id s } })
as_pass id r s skipped = again (record r { handle = record (r.handle) { segment = s } })
as_pass id r s asserted = failed
as_pass id r s (no_memory n) =
    finish (negsuc 0) (record r { msg = record { size = n; content = [] } })
as_pass id r s (received xs) =
    finish (int_of (length xs))
      (record { handle = record (r.handle) { segment = s }; msg = message xs })

module _ (os : Os) (id : ℕ) (r : Reader) where
  abbrev c : Setting
  c = setting_of os id r

  abbrev s : Segment
  s = r.handle.segment

  -- the copy
  copy_loop :
      (n : ℕ) (got : List ℕ) (l : Spot)
      → Leads
          (read_on c)
          (s, copying n got l)
          (s, storing (got ++ read_bytes s.bytes (l.place + 8 + length got) n) l)
  unfolding read_step read_bytes
  copy_loop zero got l = by_step (read_on c) _ (rw (append-nil got) refl) (here (read_on c) _)
  copy_loop (suc n) got l =
      let x = s.bytes (l.place + 8 + length got) in
      let next : l.place + 8 + length (got ++ x ∷ []) ≡ l.place + 8 + length got + 1 =
        omega (arith, length-append got (x ∷ [])) in
      let all : (got ++ x ∷ []) ++ read_bytes s.bytes (l.place + 8 + length (got ++ x ∷ [])) n
          ≡ got ++ x ∷ read_bytes s.bytes (l.place + 8 + length got + 1) n =
        append_assoc got (x ∷ []) _ ∙ ap (λ q. got ++ x ∷ read_bytes s.bytes q n) next in
      by_step (read_on c) _ refl (
        subst (λ xs. Leads (read_on c) (s, copying n (got ++ x ∷ []) l) (s, storing xs l)) all
          (copy_loop n (got ++ x ∷ []) l))

  -- The steps from a state on end, and leave this.
  abbrev pub Ends : Reading → Pass Reader → Type 0
  Ends pc pass =
      (t : Segment) × (o : Ending) × Leads (read_on c) (s, pc) (t, ended o)
      × (as_pass id r t o ≡ pass)

  copy_alone :
      (size : ℕ) (l : Spot)
      → s.read_valids id ≢ 0
      → c.alloc size ≡ true
      → Ends (copying size [] l) (copy_message os id l.cycles l.place size (next_place size l) r)
  unfolding copy_message as_pass msg_init_size set_pointer read_step
  copy_alone size l on room =
      let got = read_bytes s.bytes (l.place + 8) size in
      let long : length got ≡ size = length-read_bytes s.bytes (l.place + 8) size in
      let from : l.place + 8 + 0 ≡ l.place + 8 = omega arith in
      let copied =
        subst
          (λ q. Leads (read_on c) (s, copying size [] l) (s, storing (read_bytes s.bytes q size) l))
          from (copy_loop size [] l) in
      let set = ==_of_ne (s.read_valids id) 0 on in
      let t = move_pointer id (pack64 l.cycles (next_place size l)) s in
      let store : read_on c (s, storing got l) ≡ (t, rechecking got) = rw long refl in
      let recheck : read_on c (t, rechecking got) ≡ (t, ended (received got)) = rw set refl in
      (
        t,
        received got,
        then_on (read_on c) _ copied
            (by_step (read_on c) _ store (by_step (read_on c) _ recheck (here (read_on c) _))),
        rw (room, copy_message, msg_init_size) (rw set (rw long (rw room refl))),
      )

  -- a pass that moves the pointer and starts over
  skip_alone :
      (packed : ℕ)
      → Ends (skipping packed) (again (record r { handle = set_pointer id packed r.handle }))
  unfolding as_pass set_pointer read_step
  skip_alone packed = (_, skipped, by_step (read_on c) _ refl (here (read_on c) _), refl)

  ended_alone : (o : Ending) → Ends (ended o) (as_pass id r s o)
  ended_alone o = (s, o, here (read_on c) _, refl)

  judge_alone :
      (size : ℕ) (l : Spot)
      → Ends
          (judge c (s.read_valids id) size l)
          (take_tagged os id l.cycles l.place l.writer size r)
  unfolding judge take_tagged as_pass copy_message msg_init_size
  judge_alone size l = elim (Bool-cases (s.read_valids id == 0)) [
    | inl off ↦ rw off (ended_alone lost)
    | inr on ↦ elim (Bool-cases (size == 2 ^ 64 - 1)) [
      | inl tag ↦ rw (on, tag) (skip_alone _)
      | inr sized ↦ elim (Bool-cases (leb r.handle.queue.size size || signed_le_zero size)) [
        | inl wrong ↦ rw (on, sized, wrong) (ended_alone asserted)
        | inr right ↦
            elim (Bool-cases
              (r.handle.queue.read_conflate && not (next_place size l == l.writer))) [
                | inl older ↦ rw (on, sized, right, older) (skip_alone _)
                | inr latest ↦ elim (Bool-cases (os.alloc size)) [
                  | inl room ↦
                      rw (on, sized, right, latest, room)
                        (copy_alone size l (λ e. ground (arith, e, on)) room)
                  | inr full ↦
                      rw (on, sized, right, latest)
                        (rw (full, copy_message, msg_init_size)
                          (rw full (ended_alone (no_memory size))))
                ]
              ]
      ]
    ]
  ]

  -- the whole pass
  pass_alone : Ends loading (take_next os id r)
  unfolding take_next as_pass read_step
  pass_alone = elim (Bool-cases (lower (s.read_pointers id) == lower s.write_pointer)) [
    | inl same ↦
        let load : read_on c (s, loading) ≡ (s, ended empty) = rw same refl in
        (s, empty, by_step (read_on c) _ load (here (read_on c) _), rw same refl)
    | inr apart ↦
        let load : read_on c (s, loading) ≡ (s, measuring l) = rw apart refl in
        let (t, o, leads, eq) = judge_alone (read64 s.bytes l.place) l in
        (
          t,
          o,
          by_step (read_on c) _ load
              (by_step (read_on c) _ refl (by_step (read_on c) _ refl leads)),
          rw apart eq,
        )
  ]
    where
      l : Spot
      l = record {
        cycles = higher (s.read_pointers id);
        place = lower (s.read_pointers id);
        writer = lower s.write_pointer;
      }

-- The steps of a pass that nothing interrupts end, and what they leave is what `take_next` leaves.
pub receive_alone :
    (os : Os) (id : ℕ) (r : Reader)
    → (t : Segment) × (o : Ending) × ((k : ℕ) × (repeat
            (read_on (setting_of os id r))
            k
            (r.handle.segment, loading)
          ≡ (t, ended o)))
      × (as_pass id r t o ≡ take_next os id r)
receive_alone os id r = pass_alone os id r
