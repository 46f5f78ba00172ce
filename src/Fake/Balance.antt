-- ===== src/Fake/Balance.antt =====
-- What the handles of msgq/event.cc leave open, mapped or on the file system.
use msgq.Fake.Counts.{opens, closes, maps, unmaps, fifos, unlinks, >>=-some}
use msgq.Fake.Names.{event_path_max, fifo_path}
use msgq.Fake.Handle.{
  give, SocketEventHandle, new_handle, delete_handle, checked, make_pipe, make_pipes, state_size,
  ◌>>◌, act, open_event_fifo, EventState, Files, Act, Tried, map_shared, size_shared,
  event_state_shm_mmap, opened, closed, truncated, mapped, fifo_made, unlinked,
}
use msgq.Base.{
  subst, arith, ◌∙◌, length, leb, update, some-injective, Bool, true, false, Option, ltb,
  Bool-cases, ℤ, pos, negsuc, ◌≡◌, refl, sym, ap, ◌⊎◌, inl, inr, none, some, List, [], ◌∷◌, ◌++◌,
  ℤ-cases, ℕ,
}

-- how the part of `event_state_shm_mmap` behind `shm_open` goes
data Sized (fd : ℕ) : Tried EventState → Type 0 where
  refused : Sized fd (closed fd ∷ [], none)
  grown_refused : Sized fd (truncated fd ∷ closed fd ∷ [], none)
  taken : (state : EventState) → Sized fd (mapped ∷ closed fd ∷ [], some state)
  grown : (state : EventState) → Sized fd (truncated fd ∷ mapped ∷ closed fd ∷ [], some state)

size_shared-Sized : (files : Files) (fd : ℕ) → Sized fd (size_shared files fd)
unfolding size_shared map_shared
size_shared-Sized files fd = elim (ℤ-cases (files.size_of fd)) [
  | inr (n, e) ↦ rw (size_shared, e) refused
  | inl (size, e) ↦ elim (Bool-cases (ltb size state_size)) [
    | inr large ↦ rw (size_shared, e) (rw large (go (files.map_state fd) refl))
    | inl small ↦ elim (ℤ-cases (files.truncate fd)) [
      | inr (n, t) ↦ rw (size_shared, e) (rw small (rw t refused))
      | inl (n, t) ↦ rw (size_shared, e) (rw small (rw t (go_grown (files.map_state fd) refl)))
    ]
  ]
]
  where
    go : (o : Option EventState) → files.map_state fd ≡ o → Sized fd (map_shared files fd)
    go none e = rw (map_shared, e) refused
    go (some state) e = rw (map_shared, e) (taken state)

    go_grown :
        (o : Option EventState)
        → files.map_state fd ≡ o
        → Sized fd (act (truncated fd) >> map_shared files fd)
    go_grown none e = rw (map_shared, e) grown_refused
    go_grown (some state) e = rw (map_shared, e) (grown state)

-- the calls of a state that is mapped
abbrev Shared : List Act → Type 0
Shared acts =
    (fd : ℕ) × ((acts ≡ opened fd ∷ mapped ∷ closed fd ∷ [])
      ⊎ (acts ≡ opened fd ∷ truncated fd ∷ mapped ∷ closed fd ∷ []))

event_state-Shared :
    (files : Files) (name : List ℕ) {acts : List Act} {state : EventState}
    → event_state_shm_mmap files name ≡ (acts, some state)
    → Shared acts
unfolding event_state_shm_mmap
event_state-Shared files name {acts} {state} done_so = elim (ℤ-cases (files.open_shared name)) [
  | inr (n, e) ↦ absurd (cc (rw (e, event_state_shm_mmap) at done_so))
  | inl (fd, e) ↦ (fd, go fd (size_shared-Sized files fd) (rw (e, event_state_shm_mmap) at done_so))
]
  where
    go :
        (fd : ℕ) {x : Tried EventState}
        → Sized fd x
        → (act (opened fd) >> x) ≡ (acts, some state)
        → ((acts ≡ opened fd ∷ mapped ∷ closed fd ∷ [])
            ⊎ (acts ≡ opened fd ∷ truncated fd ∷ mapped ∷ closed fd ∷ []))
    go fd refused e = absurd (cc (ap (λ x. x.1) e))
    go fd grown_refused e = absurd (cc (ap (λ x. x.1) e))
    go fd (taken s) e = inl (sym (ap (λ x. x.0) e))
    go fd (grown s) e = inr (sym (ap (λ x. x.0) e))

-- the calls of a pipe that is opened
abbrev opening : ℤ → List Act
opening (pos fd) = opened fd ∷ []
opening (negsuc n) = []

-- how `open_event_fifo` goes
data Tries : Tried ℤ → Type 0 where
  passed : (n : ℕ) → Tries ([], some (negsuc n))
  reached : (fd : ℕ) → Tries (opened fd ∷ [], some (pos fd))
  broke : Tries ([], none)

open_event_fifo-Tries : (files : Files) (path : List ℕ) → Tries (open_event_fifo files path)
unfolding open_event_fifo
open_event_fifo-Tries files [] = passed 0
open_event_fifo-Tries files (c ∷ path) = elim (ℤ-cases (files.open_fifo (c ∷ path))) [
  | inl (fd, e) ↦ rw (open_event_fifo, e) (reached fd)
  | inr (n, e) ↦ elim (Bool-cases (files.missing (c ∷ path))) [
    | inl gone ↦ rw (open_event_fifo, e) (rw gone (passed n))
    | inr there ↦ rw (open_event_fifo, e) (rw there broke)
  ]
]

Tries-opening :
    {x : Tried ℤ} {acts : List Act} {fd : ℤ} → Tries x → x ≡ (acts, some fd) → acts ≡ opening fd
Tries-opening (passed n) e = sym (ap (λ x. x.0) e) ∙ ap opening (some-injective (ap (λ x. x.1) e))
Tries-opening (reached fd) e = sym (ap (λ x. x.0) e) ∙ ap opening (some-injective (ap (λ x. x.1) e))
Tries-opening broke e = absurd (cc (ap (λ x. x.1) e))

-- the calls of the pipes that a handle makes
abbrev making : Bool → EventState → List Act
making false state = []
making true state =
    unlinked (state.paths 0)
    ∷ fifo_made (state.paths 0)
    ∷ unlinked (state.paths 1)
    ∷ fifo_made (state.paths 1)
    ∷ []

-- how a round of the loop over the pipes goes
data Pipes (p : List ℕ) (i : ℕ) (state : EventState) : Tried EventState → Type 0 where
  too_long : Pipes p i state ([], none)
  refused_pipe : Pipes p i state (unlinked p ∷ [], none)
  piped :
      Pipes p i state
        (unlinked p ∷ fifo_made p ∷ [], some (record state { paths = update state.paths i p }))

make_pipe-Pipes :
    (files : Files) (pid counter i : ℕ) (state : EventState)
    → Pipes (fifo_path pid counter i) i state (make_pipe files pid counter i state)
unfolding make_pipe
make_pipe-Pipes files pid counter i state =
    let p = fifo_path pid counter i in
    elim (Bool-cases (leb event_path_max (length p))) [
      | inl long ↦ rw long too_long
      | inr short ↦ elim (ℤ-cases (files.make_fifo p)) [
        | inl (n, e) ↦ rw short (rw (e, checked) piped)
        | inr (n, e) ↦ rw short (rw (e, checked) refused_pipe)
      ]
    ]

Pipes-some :
    {p : List ℕ} {i : ℕ} {state : EventState} {x : Tried EventState} {acts : List Act}
    {next : EventState}
    → Pipes p i state x
    → x ≡ (acts, some next)
    → (acts ≡ unlinked p ∷ fifo_made p ∷ [])
      × (next ≡ record state { paths = update state.paths i p })
Pipes-some too_long e = absurd (cc (ap (λ x. x.1) e))
Pipes-some refused_pipe e = absurd (cc (ap (λ x. x.1) e))
Pipes-some piped e = (sym (ap (λ x. x.0) e), sym (some-injective (ap (λ x. x.1) e)))

-- two rounds of the loop, put together
two_pipes :
    (state : EventState) {p0 p1 : List ℕ} {s0 s1 prepared : EventState}
    {acts a0 a1 r0 r1 : List Act}
    → (a0 ≡ unlinked p0 ∷ fifo_made p0 ∷ [])
      × (s0 ≡ record state { paths = update state.paths 0 p0 })
    → (a1 ≡ unlinked p1 ∷ fifo_made p1 ∷ []) × (s1 ≡ record s0 { paths = update s0.paths 1 p1 })
    → give (record s1 { enabled = false }) ≡ (r1, some prepared)
    → acts ≡ a0 ++ r0
    → r0 ≡ a1 ++ r1
    → acts ≡ making true prepared
two_pipes state {p0} {p1} {s1 = s1} {prepared = prepared} (c0, n0) (c1, n1) final e0 e1 =
    let end : prepared ≡ record s1 { enabled = false } =
      sym (some-injective (ap (λ x. x.1) final)) in
    let nothing = ap (λ x. x.0) final in
    let path0 : prepared.paths 0 ≡ p0 =
      ap (λ x. x.paths 0) end ∙ ap (λ x. x.paths 0) n1 ∙ ap (λ x. x.paths 0) n0 in
    let path1 : prepared.paths 1 ≡ p1 = ap (λ x. x.paths 1) end ∙ ap (λ x. x.paths 1) n1 in
    rw (path0, path1) (rw (e0, c0, e1, c1, ← nothing) refl)

make_pipes-making :
    (files : Files) (pid counter : ℕ) (override : Bool) (state : EventState) {acts : List Act}
    {prepared : EventState}
    → make_pipes files pid counter override state ≡ (acts, some prepared)
    → acts ≡ making override prepared
unfolding make_pipes
make_pipes-making files pid counter false state e = sym (ap (λ x. x.0) e)
make_pipes-making files pid counter true state e =
    let (s0, a0, r0, m0, f0, e0) = >>=-some (make_pipe files pid counter 0 state) _ e in
    let (s1, a1, r1, m1, f1, e1) = >>=-some (make_pipe files pid counter 1 s0) _ f0 in
    two_pipes state (Pipes-some (make_pipe-Pipes files pid counter 0 state) m0)
      (Pipes-some (make_pipe-Pipes files pid counter 1 s0) m1) f1 e0 e1

-- Closing a handle undoes what making it did: it closes what is still open, in order, unlinks the
-- pipes that were made, and unmaps the state that was mapped once.
abbrev pub Undone : List Act → SocketEventHandle → Type 0
Undone acts h =
    (opens acts ≡ closes (acts ++ delete_handle h))
    × (fifos acts ≡ unlinks (delete_handle h))
    × (maps acts ≡ 1)
    × (unmaps (acts ++ delete_handle h) ≡ 1)

parts-Undone :
    (override : Bool) (prepared : EventState) (fd0 fd1 : ℤ) (name : List ℕ) (a0 : List Act)
    → Shared a0
    → Undone (a0 ++ (making override prepared ++ (opening fd0 ++ (opening fd1 ++ [])))) (record {
      shm_name = name;
      state = prepared;
      owns_fifos = override;
      recv_called = fd0;
      recv_ready = fd1;
    })
unfolding delete_handle
parts-Undone override prepared fd0 fd1 name a0 (fd, inl e) = rw e (ground arith)
parts-Undone override prepared fd0 fd1 name a0 (fd, inr e) = rw e (ground arith)

-- the same, through the equations that the steps of the constructor give
steps-Undone :
    (override : Bool) (prepared : EventState) (fd0 fd1 : ℤ) (name : List ℕ)
    {acts a0 a1 a2 a3 r0 r1 r2 r3 : List Act} {h : SocketEventHandle}
    → (acts ≡ a0 ++ r0) × Shared a0
    → (r0 ≡ a1 ++ r1) × (a1 ≡ making override prepared)
    → (r1 ≡ a2 ++ r2) × (a2 ≡ opening fd0)
    → (r2 ≡ a3 ++ r3) × (a3 ≡ opening fd1)
    → give (record {
      shm_name = name;
      state = prepared;
      owns_fifos = override;
      recv_called = fd0;
      recv_ready = fd1;
    })
      ≡ (r3, some h)
    → Undone acts h
steps-Undone override prepared fd0 fd1 name {acts} {a0} {h = h} (e0, c0) (e1, c1) (e2, c2) (e3, c3)
      e4 =
    let parts : acts ≡ a0 ++ (making override prepared ++ (opening fd0 ++ (opening fd1 ++ []))) =
      rw (e0, e1, e2, e3, ← (ap (λ x. x.0) e4), c1, c2, c3) refl in
    subst (Undone acts) (some-injective (ap (λ x. x.1) e4)) (
      subst
        (λ l. Undone l (record {
          shm_name = name;
          state = prepared;
          owns_fifos = override;
          recv_called = fd0;
          recv_ready = fd1;
        }))
        (sym parts) (parts-Undone override prepared fd0 fd1 name a0 c0))

-- A handle whose constructor returns: its destructor, the state being as the constructor left it,
-- closes each descriptor that is still open, removes exactly the pipes that were made, and unmaps
-- the state, which was mapped once.
pub handle-Undone :
    (files : Files) (pid counter : ℕ) (name : List ℕ) (override : Bool) {acts : List Act}
    {h : SocketEventHandle}
    → new_handle files pid counter name override ≡ (acts, some h)
    → Undone acts h
unfolding new_handle
handle-Undone files pid counter name override {acts} {h} e =
    let (state, a0, r0, m0, f0, e0) = >>=-some (event_state_shm_mmap files name) _ e in
    let (prepared, a1, r1, m1, f1, e1) =
      >>=-some (make_pipes files pid counter override state) _ f0 in
    let (fd0, a2, r2, m2, f2, e2) = >>=-some (open_event_fifo files (prepared.paths 0)) _ f1 in
    let (fd1, a3, r3, m3, f3, e3) = >>=-some (open_event_fifo files (prepared.paths 1)) _ f2 in
    steps-Undone override prepared fd0 fd1 name (e0, event_state-Shared files name m0)
      (e1, make_pipes-making files pid counter override state m1)
      (e2, Tries-opening (open_event_fifo-Tries files (prepared.paths 0)) m2)
      (e3, Tries-opening (open_event_fifo-Tries files (prepared.paths 1)) m3) f3
