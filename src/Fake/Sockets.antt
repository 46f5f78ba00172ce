-- ===== src/Fake/Sockets.antt =====
-- `SubSocket` of msgq/ipc.cc with its fake mode: the shared state that it maps, the pipes that it
-- opens, and the rendezvous before a receive.
use msgq.Subscriber.{Os}
use msgq.Sockets.{SubSocket, receive}
use msgq.Queue.{Msg, Run}
use msgq.Polling.{Process, World}
use msgq.Fake.Handle.{
  EventState, Files, Act, Tried, ◌>>=◌, give, event_state_shm_mmap, close_if_open, opened, unmapped,
}
use msgq.Events.{Kernel, Effect, set, clear, wait, returned, thrown, unfinished}
use msgq.Base.{Bool, true, false, Option, none, some, List, [], ◌∷◌, ◌++◌, ℤ, pos, negsuc, ℕ}

-- the members of `SubSocket` beside its queue and timeout
pub record FakeMode : Type 0 where
  pub state : Option EventState
  pub recv_called : ℤ
  pub recv_ready : ℤ

-- the initialisers of the class
abbrev pub no_fake : FakeMode
no_fake = record { state = none; recv_called = negsuc 0; recv_ready = negsuc 0 }

-- one round of `open_fake_fifos`: a descriptor that is there stays, and a path that is not there
-- yet is left for later
unfoldable pub open_fake_fifo : Files → List ℕ → ℤ → List Act × ℤ
open_fake_fifo files path (pos fd) = ([], pos fd)
open_fake_fifo files [] (negsuc n) = ([], negsuc n)
open_fake_fifo files (c ∷ path) (negsuc n) = elim (files.open_fifo (c ∷ path)) [
  | pos fd ↦ (opened fd ∷ [], pos fd)
  | negsuc e ↦ ([], negsuc e)
]

-- `SubSocket::open_fake_fifos`
unfoldable pub open_fake_fifos : Files → EventState → FakeMode → List Act × FakeMode
open_fake_fifos files state f =
    let (acts, called) = open_fake_fifo files (state.paths 0) f.recv_called in
    let (more, release) = open_fake_fifo files (state.paths 1) f.recv_ready in
    (acts ++ more, record f { recv_called = called; recv_ready = release })

-- the branch of `SubSocket::connect` on the fake mode, given the name of the shared state
unfoldable pub connect_fake : Files → Bool → List ℕ → FakeMode → Tried FakeMode
connect_fake files false name f = give f
connect_fake files true name f = do
  state ← event_state_shm_mmap files name
  let (acts, g) = open_fake_fifos files state (record f { state = some state })
  (acts, some g)

-- what the destructor does for the fake mode
unfoldable pub delete_fake : FakeMode → List Act
delete_fake f =
    close_if_open f.recv_called
    ++ (close_if_open f.recv_ready ++ elim f.state [ none ↦ [] | some state ↦ unmapped ∷ [] ])

-- `a; b` where both may throw
abbrev pub then_do {ℓ} :
    {W : Type 0} {A : Type 0} {B : Type ℓ} → Effect W A → (W → Effect W B) → Effect W B
then_do (returned a w) f = f w
then_do (thrown w) f = thrown w
then_do unfinished f = unfinished

module _ {W : Type 0} (kernel : Kernel W) where
  -- the three calls before a receive: `set`, `wait` without a timeout, `clear`
  unfoldable pub rendezvous : ℕ → ℤ → ℤ → W → Effect W ℕ
  rendezvous n called release w =
      then_do (set kernel n called w)
        (λ w1. then_do (wait kernel n release (negsuc 0) w1) (λ w2. clear kernel n release w2))

  -- the head of `SubSocket::receive`; `now` is what the shared state holds then
  unfoldable pub await_release :
      Files → ℕ → EventState → FakeMode → W → List Act × FakeMode × Effect W (Unit {0})
  await_release files n now f w = elim f.state [
    | none ↦ ([], f, returned tt w)
    | some mapped_state ↦ elim now.enabled [
      | false ↦ ([], f, returned tt w)
      | true ↦
          let (acts, g) = open_fake_fifos files now f in
          (acts, g, then_do (rendezvous n g.recv_called g.recv_ready w) (λ w'. returned tt w'))
    ]
  ]

  -- `SubSocket::receive` in either mode
  unfoldable pub receive_in_mode :
      Files
      → ℕ
      → EventState
      → FakeMode
      → Os
      → (ℕ → World)
      → ℕ
      → ℕ
      → Bool
      → SubSocket
      → Msg
      → Process
      → W
      → List Act × FakeMode × Effect W (Run (Option Msg × Process))
  receive_in_mode files n now f os worlds sleeps rounds non_blocking socket msg p w =
      let (acts, g, released) = await_release files n now f w in
      (
        acts,
        g,
        then_do released
            (λ w'. returned (receive os worlds sleeps rounds non_blocking socket msg p) w'),
      )
