-- ===== src/Fake/Handle.antt =====
-- `event_state_shm_mmap`, `open_event_fifo` and the constructor and destructor of
-- `SocketEventHandle`, of msgq/event.cc. What they do outside the process is a list of system calls.
use msgq.Fake.Names.{event_path_max, fifo_path}
use msgq.Base.{
  ◌+◌, ◌*◌, Bool, true, false, Option, none, some, List, [], ◌∷◌, ◌++◌, length, ltb, leb,
  if◌then◌else◌, ℤ, update, pos, negsuc, ℕ,
}

-- `EventState`, its paths as C strings
pub record EventState : Type 0 where
  pub paths : ℕ → List ℕ
  pub enabled : Bool

-- `sizeof(EventState)`
abbrev pub state_size : ℕ
state_size = 2 * event_path_max + 1

-- What the operating system answers: `shm_open`, `fstat` (the size) and `ftruncate`, what a
-- successful `mmap` shows, `mkfifo`, `open`, and whether a failed `open` set ENOENT.
pub record Files : Type 0 where
  pub open_shared : List ℕ → ℤ
  pub size_of : ℕ → ℤ
  pub truncate : ℕ → ℤ
  pub map_state : ℕ → Option EventState
  pub make_fifo : List ℕ → ℤ
  pub open_fifo : List ℕ → ℤ
  pub missing : List ℕ → Bool

pub data Act : Type 0 where
  opened : ℕ → Act
  closed : ℕ → Act
  truncated : ℕ → Act
  mapped : Act
  unmapped : Act
  fifo_made : List ℕ → Act
  unlinked : List ℕ → Act
  shared_unlinked : List ℕ → Act

-- The calls of a function, and its result unless it throws.
abbrev pub Tried : Type 0 → Type 0
Tried A = List Act × Option A

infixl 5 ◌>>=◌ ◌>>◌
abbrev pub ◌>>=◌ : {A B : Type 0} → Tried A → (A → Tried B) → Tried B
◌>>=◌ (acts, none) f = (acts, none)
◌>>=◌ (acts, some a) f = let (more, r) = f a in (acts ++ more, r)

abbrev pub ◌>>◌ : {B : Type 0} → Tried (Unit {0}) → Tried B → Tried B
m >> k = m >>= λ _. k

abbrev pub act : Act → Tried (Unit {0})
act a = (a ∷ [], some tt)

abbrev pub give : {A : Type 0} → A → Tried A
give a = ([], some a)

abbrev pub throw : {A : Type 0} → Tried A
throw = ([], none)

-- a call that reports a failure by a negative number
abbrev pub checked : ℤ → Act → Tried (Unit {0})
checked (pos n) a = act a
checked (negsuc n) a = throw

-- from the call of `mmap` on
unfoldable pub map_shared : Files → ℕ → Tried EventState
map_shared files fd = elim (files.map_state fd) [
  | none ↦ (closed fd ∷ [], none)
  | some state ↦ (mapped ∷ closed fd ∷ [], some state)
]

-- from the call of `fstat` on
unfoldable pub size_shared : Files → ℕ → Tried EventState
size_shared files fd = elim (files.size_of fd) [
  | negsuc _ ↦ (closed fd ∷ [], none)
  | pos size ↦
      if ltb size state_size
      then elim (files.truncate fd) [
        | negsuc _ ↦ (closed fd ∷ [], none)
        | pos _ ↦ do act (truncated fd); map_shared files fd
      ]
      else map_shared files fd
]

-- `event_state_shm_mmap`, given the name that it computes
unfoldable pub event_state_shm_mmap : Files → List ℕ → Tried EventState
event_state_shm_mmap files name = elim (files.open_shared name) [
  | negsuc _ ↦ throw
  | pos fd ↦ do act (opened fd); size_shared files fd
]

-- `open_event_fifo`
unfoldable pub open_event_fifo : Files → List ℕ → Tried ℤ
open_event_fifo files [] = give (negsuc 0)
open_event_fifo files (c ∷ path) = elim (files.open_fifo (c ∷ path)) [
  | pos fd ↦ do act (opened fd); give (pos fd)
  | negsuc n ↦ if files.missing (c ∷ path) then give (negsuc n) else throw
]

-- one round of the loop over the pipes
unfoldable pub make_pipe : Files → ℕ → ℕ → ℕ → EventState → Tried EventState
make_pipe files pid counter i state =
    let p = fifo_path pid counter i in
    if leb event_path_max (length p) then throw else do
      act (unlinked p)
      checked (files.make_fifo p) (fifo_made p)
      give (record state { paths = update state.paths i p })

-- the branch on `override`
unfoldable pub make_pipes : Files → ℕ → ℕ → Bool → EventState → Tried EventState
make_pipes files pid counter false state = give state
make_pipes files pid counter true state = do
  s0 ← make_pipe files pid counter 0 state
  s1 ← make_pipe files pid counter 1 s0
  give (record s1 { enabled = false })

-- `SocketEventHandle`, with the state that it maps
pub record SocketEventHandle : Type 0 where
  pub shm_name : List ℕ
  pub state : EventState
  pub owns_fifos : Bool
  pub recv_called : ℤ
  pub recv_ready : ℤ

-- the constructor, in the process `pid` at a value of the counter
unfoldable pub new_handle : Files → ℕ → ℕ → List ℕ → Bool → Tried SocketEventHandle
new_handle files pid counter name override = do
  state ← event_state_shm_mmap files name
  prepared ← make_pipes files pid counter override state
  fd0 ← open_event_fifo files (prepared.paths 0)
  fd1 ← open_event_fifo files (prepared.paths 1)
  give (record {
    shm_name = name;
    state = prepared;
    owns_fifos = override;
    recv_called = fd0;
    recv_ready = fd1;
  })

-- `if (fd >= 0) close(fd)`
abbrev pub close_if_open : ℤ → List Act
close_if_open (pos fd) = closed fd ∷ []
close_if_open (negsuc n) = []

-- the destructor
unfoldable pub delete_handle : SocketEventHandle → List Act
delete_handle h =
    let owned =
      unlinked (h.state.paths 0) ∷ unlinked (h.state.paths 1) ∷ shared_unlinked h.shm_name ∷ [] in
    close_if_open h.recv_called
    ++ (close_if_open h.recv_ready ++ ((if h.owns_fifos then owned else []) ++ unmapped ∷ []))
