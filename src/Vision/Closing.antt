-- ===== src/Vision/Closing.antt =====
-- That the listener of msgq/visionipc/visionipc_server.cc ends, and closes what it took.
use msgq.Vision.Server.{
  Stream, Server, find_stream, Response, copy_buffers, stream_types, respond, nothing, types,
  copies,
}
use msgq.Vision.Listener.{
  Round, Deed, answer, serve, one_round, listen_loop, took, answered, dropped, stopped,
  path_removed,
}
use msgq.Vision.{max_fds, stream_list, VisionBuf}
use msgq.Queue.{◌>>=◌, Run, done, aborted}
use msgq.Base.{
  ◌*◌, ◌≤◌, ◌≡◌, refl, sym, ap, ◌∙◌, subst, inl, inr, Bool, true, false, Option, none, some, List,
  [], ◌∷◌, ◌++◌, length, leb, ◌==◌, if◌then◌else◌, leb_of_le, ==_of_eq, Bool-cases, ℤ, ℤ-cases,
  some-injective, pos, negsuc, ℕ,
}

-- the connections taken, and those closed, in order
abbrev pub takes : List Deed → List ℕ
takes [] = []
takes (took fd ∷ deeds) = fd ∷ takes deeds
takes (answered fd r ∷ deeds) = takes deeds
takes (dropped fd ∷ deeds) = takes deeds
takes (stopped fd ∷ deeds) = takes deeds
takes (path_removed p ∷ deeds) = takes deeds

abbrev pub drops : List Deed → List ℕ
drops [] = []
drops (took fd ∷ deeds) = drops deeds
drops (answered fd r ∷ deeds) = drops deeds
drops (dropped fd ∷ deeds) = fd ∷ drops deeds
drops (stopped fd ∷ deeds) = drops deeds
drops (path_removed p ∷ deeds) = drops deeds

takes-append : (xs ys : List Deed) → takes (xs ++ ys) ≡ takes xs ++ takes ys
takes-append [] ys = refl
takes-append (took fd ∷ xs) ys = ap (λ l. fd ∷ l) (takes-append xs ys)
takes-append (answered fd r ∷ xs) ys = takes-append xs ys
takes-append (dropped fd ∷ xs) ys = takes-append xs ys
takes-append (stopped fd ∷ xs) ys = takes-append xs ys
takes-append (path_removed p ∷ xs) ys = takes-append xs ys

drops-append : (xs ys : List Deed) → drops (xs ++ ys) ≡ drops xs ++ drops ys
drops-append [] ys = refl
drops-append (took fd ∷ xs) ys = drops-append xs ys
drops-append (answered fd r ∷ xs) ys = drops-append xs ys
drops-append (dropped fd ∷ xs) ys = ap (λ l. fd ∷ l) (drops-append xs ys)
drops-append (stopped fd ∷ xs) ys = drops-append xs ys
drops-append (path_removed p ∷ xs) ys = drops-append xs ys

-- the streams fit the arrays of the listener
abbrev pub Small : List Stream → Type 0
Small [] = Unit
Small (s ∷ streams) = (length s.buffers ≤ max_fds) × Small streams

-- `accept` and the sending of the list of streams do not fail.
abbrev pub Orderly : Server → Round → Type 0
Orderly server round =
    ((fd : ℕ) × (round.accepted ≡ pos fd))
    × (round.sent ≡ pos (4 * length (stream_types server.streams)))

abbrev pub AllOrderly : Server → List Round → Type 0
AllOrderly server [] = Unit
AllOrderly server (round ∷ rounds) = Orderly server round × AllOrderly server rounds

find_stream-Small :
    (kind : ℕ) (streams : List Stream) {s : Stream}
    → Small streams
    → find_stream kind streams ≡ some s
    → length s.buffers ≤ max_fds
unfolding find_stream
find_stream-Small kind [] small e = absurd (cc e)
find_stream-Small kind (x ∷ streams) (fits, small) e = elim (Bool-cases (x.kind == kind)) [
  | inl here ↦
      subst (λ y. length y.buffers ≤ max_fds) (some-injective (rw (here, find_stream) at e)) fits
  | inr past ↦ find_stream-Small kind streams small (rw (past, find_stream) at e)
]

-- The listener has an answer to every request.
data Answers (server : Server) : Run Response → Type 0 where
  silent : Answers server (done nothing)
  lists : Answers server (done (types (stream_types server.streams)))
  gives : (bufs : List VisionBuf) → Answers server (done (copies bufs))

respond-Answers :
    (server : Server) (r : ℤ) (kind : ℕ)
    → Small server.streams
    → Answers server (respond server r kind)
unfolding respond
respond-Answers server (negsuc n) kind small = silent
respond-Answers server (pos r) kind small = elim (Bool-cases (r == 4)) [
  | inr odd ↦ rw odd silent
  | inl whole ↦ elim (Bool-cases (kind == stream_list)) [
    | inl all ↦ rw (whole, all) lists
    | inr one ↦ rw (whole, one) (go (find_stream kind server.streams) refl)
  ]
]
  where
    go :
        (o : Option Stream)
        → find_stream kind server.streams ≡ o
        → Answers server (elim o [
          | none ↦ done nothing
          | some s ↦
              if leb (length s.buffers) max_fds
              then done (copies (copy_buffers server.server_id s.buffers))
              else aborted
        ])
    go none e = silent
    go (some s) e =
        rw (leb_of_le (length s.buffers) max_fds (find_stream-Small kind server.streams small e))
          (gives _)

-- A round comes to an end, and closes the connection that it took.
abbrev Ends : Run (List Deed × Bool) → Type 0
Ends x =
    (deeds : List Deed) × (go_on : Bool) × (x ≡ done (deeds, go_on)) × (takes deeds ≡ drops deeds)

answer-Ends :
    (server : Server) (fd : ℕ) (round : Round) {x : Run Response}
    → round.sent ≡ pos (4 * length (stream_types server.streams))
    → Answers server x
    → Ends (x >>= answer fd round)
unfolding answer
answer-Ends server fd round sent_all silent = (_, _, refl, refl)
answer-Ends server fd round sent_all lists =
    let kinds = stream_types server.streams in
    (
      took fd ∷ answered fd (types kinds) ∷ dropped fd ∷ [],
      true,
      rw (sent_all, ==_of_eq (4 * length kinds) (4 * length kinds) refl) refl,
      refl,
    )
answer-Ends server fd round sent_all (gives bufs) = (_, _, refl, refl)

one_round-Ends :
    (server : Server) (round : Round)
    → Small server.streams
    → Orderly server round
    → Ends (one_round server round)
unfolding one_round serve answer
one_round-Ends server round small ((fd, took_it), sent_all) = elim (Bool-cases round.exiting) [
  | inl stops ↦ rw (one_round, stops) ([], false, refl, refl)
  | inr runs ↦ elim (ℤ-cases round.polled) [
    | inr (n, e) ↦ rw (one_round, runs, e) ([], round.retryable, refl, refl)
    | inl (n, e) ↦ elim (Bool-cases round.woken) [
      | inl up ↦ rw (one_round, runs, e) (rw up ([], false, refl, refl))
      | inr on ↦ elim (Bool-cases round.pending) [
        | inr idle_now ↦ rw (one_round, runs, e) (rw (on, idle_now) ([], true, refl, refl))
        | inl some_event ↦
            rw (one_round, runs, e)
              (rw (on, some_event)
                (rw (serve, took_it)
                  (answer-Ends server fd round sent_all
                    (respond-Answers server round.received round.request small))))
      ]
    ]
  ]
]

-- A server of streams of at most 128 buffers, whose listener fails neither in `accept` nor in
-- sending the list of streams: once it sees that it should exit, the loop ends, and it has closed
-- every connection that it took, in order.
pub listen_loop-ends :
    (server : Server) (rounds : List Round) (final : Round)
    → Small server.streams
    → AllOrderly server rounds
    → final.exiting ≡ true
    → (deeds : List Deed) × (listen_loop server (rounds ++ final ∷ []) ≡ done deeds)
      × (takes deeds ≡ drops deeds)
unfolding listen_loop
listen_loop-ends server [] final small orderly stops =
    ([], unfold one_round in rw (one_round, stops) refl, refl)
listen_loop-ends server (round ∷ rounds) final small (orderly, later) stops =
    let (deeds, go_on, e, balanced) = one_round-Ends server round small orderly in
    let (rest, f, balanced_rest) = listen_loop-ends server rounds final small later stops in
    elim (Bool-cases go_on) [
      | inr leaves ↦ (deeds, rw e (rw leaves refl), balanced)
      | inl stays ↦ (
        deeds ++ rest,
        rw e (rw (stays, f) refl),
        takes-append deeds rest ∙ rw (balanced, balanced_rest) (sym (drops-append deeds rest)),
      )
    ]
