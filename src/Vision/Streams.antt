-- ===== src/Vision/Streams.antt =====
-- How a client of msgq/visionipc/visionipc_client.cc reaches the server, asks for its streams, and
-- ends, and how the server ends.
use msgq.Vision.Server.{
  put_stream, create_buffers_with_sizes, Stream, Server, stream_types, respond, types,
}
use msgq.Vision.Mapping.{Shm, Mapping, free_bufs}
use msgq.Vision.Client.{Client}
use msgq.Vision.Channels.{Net, Op, ipc_connect, shut}
use msgq.Vision.{stream_list, VisionBuf}
use msgq.Queue.{◌>>=◌, Run, done, aborted, spinning}
use msgq.Base.{
  subst, inl, inr, ltb→lt, ==_iff, Bool-cases, take-length, zero, suc, ◌*◌, ◌/◌, ◌%◌, ◌<◌, ◌≡◌,
  refl, Bool, true, false, List, [], ◌∷◌, ◌++◌, arith, length, take, ltb, ◌==◌, if◌then◌else◌,
  lt→ltb, ==_of_ne, ℤ, pos, negsuc, ℕ,
}

-- `connect_to_vipc_server`. The list is what the operating system answers in each try.
unfoldable pub connect_to_vipc_server : List ℕ → Bool → List Net → Run (List Op × ℤ)
connect_to_vipc_server path blocking [] = spinning
connect_to_vipc_server path blocking (net ∷ nets) =
    let (ops, sock) = ipc_connect net path in
    elim sock [
      | pos fd ↦ done (ops, pos fd)
      | negsuc n ↦ elim blocking [
        | false ↦ done (ops, negsuc n)
        | true ↦ do (more, found) ← connect_to_vipc_server path true nets; done (ops ++ more, found)
      ]
    ]

-- What `ipc_sendrecv_with_fds` gives a client that asks for the streams: a failure, with whether
-- `errno` is ECONNRESET, or the number of bytes with the types.
pub data Listing : Type 0 where
  not_listed : Bool → Listing
  listing : ℕ → List ℕ → Listing

-- `std::set` of a range
unfoldable pub insert_type : ℕ → List ℕ → List ℕ
insert_type k [] = k ∷ []
insert_type k (l ∷ kinds) =
    let rest = insert_type k kinds in
    if k == l then l ∷ kinds else if ltb k l then k ∷ l ∷ kinds else l ∷ rest

unfoldable pub set_of : List ℕ → List ℕ
set_of [] = []
set_of (k ∷ kinds) = insert_type k (set_of kinds)

-- `VisionIpcClient::getAvailableStreams` on a connection, given how many bytes of the request were
-- sent and what came back
unfoldable pub ask_streams : ℕ → ℤ → Listing → Run (List Op × List ℕ)
ask_streams fd (negsuc n) came = aborted
ask_streams fd (pos n) came =
    if n == 4
    then elim came [
      | not_listed reset ↦ if reset then done (shut (pos fd) ∷ [], []) else aborted
      | listing r kinds ↦
          if r % 4 == 0 then done (shut (pos fd) ∷ [], set_of (take (r / 4) kinds)) else aborted
    ]
    else aborted

-- `VisionIpcClient::getAvailableStreams`
unfoldable pub available_streams : List ℕ → Bool → List Net → ℤ → Listing → Run (List Op × List ℕ)
available_streams path blocking nets wrote came = do
  (ops, sock) ← connect_to_vipc_server path blocking nets
  elim sock [
    | negsuc _ ↦ done (ops, [])
    | pos fd ↦ do (more, kinds) ← ask_streams fd wrote came; done (ops ++ more, kinds)
  ]

-- the buffers of a client, which are freed when it connects again, and at its end
unfoldable pub client_bufs : ℕ → Client → List VisionBuf
client_bufs zero client = []
client_bufs (suc n) client = client_bufs n client ++ client.buffers n ∷ []

unfoldable pub drop_client : Shm → Client → List Mapping
drop_client shm client = free_bufs shm (client_bufs client.num_buffers client)

unfoldable pub server_bufs : List Stream → List VisionBuf
server_bufs [] = []
server_bufs (s ∷ streams) = s.buffers ++ server_bufs streams

-- `VisionIpcServer::~VisionIpcServer`: a connection wakes the listener, if there is one.
unfoldable pub drop_server : Net → Shm → List ℕ → Bool → Server → List Op × List Mapping
drop_server net shm path joinable server = (
  elim joinable [
    | false ↦ []
    | true ↦
        let (ops, sock) = ipc_connect net path in
        ops ++ elim sock [ pos fd ↦ shut (pos fd) ∷ [] | negsuc n ↦ [] ]
  ],
  free_bufs shm (server_bufs server.streams),
)

-- in ascending order, each once
abbrev pub Above : ℕ → List ℕ → Type 0
Above k [] = Unit
Above k (l ∷ kinds) = (k < l) × Above l kinds

abbrev pub Sorted : List ℕ → Type 0
Sorted [] = Unit
Sorted (k ∷ kinds) = Above k kinds

insert_type-Above : (k : ℕ) (kinds : List ℕ) → Above k kinds → insert_type k kinds ≡ k ∷ kinds
unfolding insert_type
insert_type-Above k [] above = refl
insert_type-Above k (l ∷ kinds) (less, above) =
    rw (==_of_ne k l (λ e. omega (arith, less, e)), lt→ltb k l less) refl

-- A set of what is in order already has the same order.
set_of-Sorted : (kinds : List ℕ) → Sorted kinds → set_of kinds ≡ kinds
unfolding set_of
set_of-Sorted [] sorted = refl
set_of-Sorted (k ∷ kinds) above =
    rw (set_of-Sorted kinds (tail kinds above)) (insert_type-Above k kinds above)
  where
    tail : (ls : List ℕ) → Above k ls → Sorted ls
    tail [] h = tt
    tail (l ∷ ls) h = h.1

-- A client that asks a server, whose streams stand in the order of their types, gets their types.
streams_listed :
    (fd : ℕ) (server : Server)
    → Sorted (stream_types server.streams)
    → respond server (pos 4) stream_list ≡ done (types (stream_types server.streams))
      × (ask_streams fd
            (pos 4)
            (listing (4 * length (stream_types server.streams)) (stream_types server.streams))
          ≡ done (shut (pos fd) ∷ [], stream_types server.streams))
unfolding respond ask_streams
streams_listed fd server sorted =
    let kinds = stream_types server.streams in
    let quarter : 4 * length kinds / 4 ≡ length kinds = omega arith in
    let whole : 4 * length kinds % 4 ≡ 0 = omega arith in
    (refl, rw (whole, quarter) (rw (take-length kinds, set_of-Sorted kinds sorted) refl))

put_stream-Above :
    (k : ℕ) (t : Stream) (streams : List Stream)
    → k < t.kind
    → Above k (stream_types streams)
    → Above k (stream_types (put_stream t streams))
unfolding put_stream stream_types
put_stream-Above k t [] less above = (less, tt)
put_stream-Above k t (s ∷ streams) less (below, above) = elim (Bool-cases (s.kind == t.kind)) [
  | inl same ↦
      rw same
        (less, subst (λ x. Above x (stream_types streams)) ((==_iff s.kind t.kind).0 same) above)
  | inr apart ↦ elim (Bool-cases (ltb t.kind s.kind)) [
    | inl before ↦ rw (apart, before) (less, (ltb→lt t.kind s.kind before, above))
    | inr behind ↦
        rw (apart, behind)
          (below, put_stream-Above s.kind t streams (ground (arith, apart, behind)) above)
  ]
]

-- A server's streams stay in the order of their types.
put_stream-Sorted :
    (t : Stream) (streams : List Stream)
    → Sorted (stream_types streams)
    → Sorted (stream_types (put_stream t streams))
unfolding put_stream stream_types
put_stream-Sorted t [] sorted = tt
put_stream-Sorted t (s ∷ streams) above = elim (Bool-cases (s.kind == t.kind)) [
  | inl same ↦
      rw same (subst (λ x. Above x (stream_types streams)) ((==_iff s.kind t.kind).0 same) above)
  | inr apart ↦ elim (Bool-cases (ltb t.kind s.kind)) [
    | inl before ↦ rw (apart, before) (ltb→lt t.kind s.kind before, above)
    | inr behind ↦
        rw (apart, behind) (put_stream-Above s.kind t streams (ground (arith, apart, behind)) above)
  ]
]

-- A client that asks a server gets the types of the streams, those created last included.
created_listed :
    (fd : ℕ) (fds : ℕ → ℕ) (kind n width height size stride uv_offset : ℕ) (server : Server)
    → Sorted (stream_types server.streams)
    → let server' =
        create_buffers_with_sizes fds kind n width height size stride uv_offset server in
      let kinds = stream_types server'.streams in
      (respond server' (pos 4) stream_list ≡ done (types kinds))
      × (ask_streams fd (pos 4) (listing (4 * length kinds) kinds)
          ≡ done (shut (pos fd) ∷ [], kinds))
unfolding create_buffers_with_sizes
created_listed fd fds kind n width height size stride uv_offset server sorted =
    streams_listed fd
      (create_buffers_with_sizes fds kind n width height size stride uv_offset server)
      (put_stream-Sorted _ server.streams sorted)
