-- ===== src/Vision/Listener.antt =====
-- The thread of msgq/visionipc/visionipc_server.cc that answers clients. What it meets is a list of
-- rounds of its loop.
use msgq.Vision.Server.{Server, Response, respond, nothing, types, copies}
use msgq.Vision.Channels.{Net, Op, ipc_bind}
use msgq.Queue.{Run, ◌>>=◌, done, aborted, spinning}
use msgq.Base.{
  ◌*◌, Bool, true, false, not, ◌&&◌, List, [], ◌∷◌, ◌++◌, length, ◌==◌, if◌then◌else◌, ℤ, pos,
  negsuc, ℕ,
}

-- What a round meets: `should_exit` at the test of the loop, the result of `poll` with whether
-- `errno` is EINTR or EAGAIN, `should_exit` behind it, whether there are events, the result of
-- `accept`, the request with the bytes received, `should_exit` after a bad one, and the result of
-- sending the answer.
pub record Round : Type 0 where
  pub exiting : Bool
  pub polled : ℤ
  pub retryable : Bool
  pub woken : Bool
  pub pending : Bool
  pub accepted : ℤ
  pub received : ℤ
  pub request : ℕ
  pub leaving : Bool
  pub sent : ℤ

pub data Deed : Type 0 where
  took : ℕ → Deed
  answered : ℕ → Response → Deed
  dropped : ℕ → Deed
  stopped : ℕ → Deed
  path_removed : List ℕ → Deed

-- `r != sizeof(type)`
abbrev pub is_bad : ℤ → Bool
is_bad (pos r) = not (r == 4)
is_bad (negsuc n) = true

abbrev pub is_equal : ℤ → ℕ → Bool
is_equal (pos r) n = r == n
is_equal (negsuc _) n = false

-- from the response on, with whether the loop goes on
unfoldable pub answer : ℕ → Round → Response → Run (List Deed × Bool)
answer fd round nothing =
    done (took fd ∷ dropped fd ∷ [], not (is_bad round.received && round.leaving))
answer fd round (types kinds) =
    if is_equal round.sent (4 * length kinds)
    then done (took fd ∷ answered fd (types kinds) ∷ dropped fd ∷ [], true)
    else aborted
answer fd round (copies bufs) = done (took fd ∷ answered fd (copies bufs) ∷ dropped fd ∷ [], true)

-- from the call of `accept` on
unfoldable pub serve : Server → Round → Run (List Deed × Bool)
serve server round = elim round.accepted [
  | negsuc _ ↦ aborted
  | pos fd ↦ do response ← respond server round.received round.request; answer fd round response
]

-- one round
unfoldable pub one_round : Server → Round → Run (List Deed × Bool)
one_round server round = if round.exiting then done ([], false) else elim round.polled [
  | negsuc _ ↦ done ([], round.retryable)
  | pos _ ↦
      if round.woken
      then done ([], false)
      else if not round.pending
      then done ([], true)
      else serve server round
]

-- the loop
unfoldable pub listen_loop : Server → List Round → Run (List Deed)
listen_loop server [] = spinning
listen_loop server (round ∷ rounds) = do
  (deeds, go_on) ← one_round server round
  elim go_on [
    | false ↦ done deeds
    | true ↦ do rest ← listen_loop server rounds; done (deeds ++ rest)
  ]

-- `VisionIpcServer::listener`
unfoldable pub listener : Net → List ℕ → Server → List Round → Run (List Op × List Deed)
listener net path server rounds = do
  (ops, sock) ← ipc_bind net path
  elim sock [
    | negsuc _ ↦ aborted
    | pos fd ↦ do
      deeds ← listen_loop server rounds
      done (ops, deeds ++ stopped fd ∷ path_removed path ∷ [])
  ]
