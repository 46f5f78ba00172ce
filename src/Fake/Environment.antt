-- ===== src/Fake/Environment.antt =====
-- The environment variables of the fake mode, and the accessors of `SocketEventHandle`, of
-- msgq/event.cc; `messaging_use_fake` of msgq/ipc.cc.
use msgq.Words.{u64}
use msgq.Fake.Sockets.{FakeMode, no_fake, connect_fake}
use msgq.Fake.Names.{event_shm_name}
use msgq.Fake.Handle.{Files, Tried, event_state_shm_mmap, SocketEventHandle, new_handle}
use msgq.Base.{◌+◌, ◌≡◌, refl, Bool, true, Option, none, some, List, [], ◌∷◌, if◌then◌else◌, ℕ}

-- whether CEREAL_FAKE is set, and CEREAL_FAKE_PREFIX
pub record Environment : Type 0 where
  pub fake : Bool
  pub prefix : Option (List ℕ)

-- `messaging_use_fake`
unfoldable pub messaging_use_fake : Environment → Bool
messaging_use_fake env = env.fake

-- `SocketEventHandle::toggle_fake_events`
unfoldable pub toggle_fake_events : Bool → Environment → Environment
toggle_fake_events enabled env = record env { fake = enabled }

-- `SocketEventHandle::set_fake_prefix`
unfoldable pub set_fake_prefix : List ℕ → Environment → Environment
set_fake_prefix [] env = record env { prefix = none }
set_fake_prefix (c ∷ prefix) env = record env { prefix = some (c ∷ prefix) }

-- `SocketEventHandle::fake_prefix`, and `identifier` in `SubSocket::connect`
unfoldable pub fake_prefix : Environment → List ℕ
fake_prefix env = elim env.prefix [ none ↦ [] | some prefix ↦ prefix ]

-- What is set is read back, an empty prefix too.
fake_prefix-set_fake_prefix :
    (prefix : List ℕ) (env : Environment) → fake_prefix (set_fake_prefix prefix env) ≡ prefix
unfolding fake_prefix set_fake_prefix
fake_prefix-set_fake_prefix [] env = refl
fake_prefix-set_fake_prefix (c ∷ prefix) env = refl

-- `is_enabled` and `set_enabled`
unfoldable pub is_enabled : SocketEventHandle → Bool
is_enabled h = h.state.enabled

unfoldable pub set_enabled : Bool → SocketEventHandle → SocketEventHandle
set_enabled enabled h = record h { state = record (h.state) { enabled = enabled } }

-- `SocketEventHandle::SocketEventHandle`, given the variable OPENPILOT_PREFIX, and the counter of
-- the handles behind it, which goes up once the state is mapped
unfoldable pub socket_event_handle :
    Files → Option (List ℕ) → ℕ → ℕ → List ℕ → List ℕ → Bool → Tried SocketEventHandle × ℕ
socket_event_handle files op_prefix pid counter endpoint identifier override =
    let name = event_shm_name op_prefix endpoint identifier in
    (
      new_handle files pid counter name override,
      elim (event_state_shm_mmap files name).1 [
        | none ↦ counter
        | some state ↦ if override then u64 (counter + 1) else counter
      ],
    )

-- The fake branch of `SubSocket::connect`, which looks at the variables.
unfoldable pub connect_in_mode :
    Files → Option (List ℕ) → Environment → List ℕ → FakeMode → Tried FakeMode
connect_in_mode files op_prefix env endpoint f =
    connect_fake files (messaging_use_fake env)
      (event_shm_name op_prefix endpoint (fake_prefix env)) f

-- A socket and a handle that are given one endpoint and prefix share their state.
same_state :
    (files : Files) (op_prefix : Option (List ℕ)) (pid counter : ℕ) (env : Environment)
    (endpoint prefix : List ℕ)
    → ((connect_in_mode files op_prefix (set_fake_prefix prefix env) endpoint no_fake)
        ≡ connect_fake files env.fake (event_shm_name op_prefix endpoint prefix) no_fake)
      × ((socket_event_handle files op_prefix pid counter endpoint prefix true).0
          ≡ new_handle files pid counter (event_shm_name op_prefix endpoint prefix) true)
unfolding connect_in_mode socket_event_handle messaging_use_fake fake_prefix set_fake_prefix
same_state files op_prefix pid counter env endpoint [] = (refl, refl)
same_state files op_prefix pid counter env endpoint (c ∷ prefix) = (refl, refl)
