-- ===== src/Vision/Turns.antt =====
-- Which buffers `VisionIpcServer` of msgq/visionipc/visionipc_server.cc creates and hands out.
use msgq.Words.{u64}
use native.Mathlib.Nat.{mod-eq_of_lt}
use msgq.Vision.Server.{
  create_buffers_with_sizes, create_buffers, choose_index, Stream, Server, find_stream, put_stream,
  make_buffers, buffer_at, get_buffer,
}
use msgq.Vision.{max_fds, VisionBuf, allocate, init_yuv}
use msgq.Queue.{done-injective, aborted, >>=-of-done, Run, ◌>>=◌, done}
use msgq.Base.{
  ltb→lt, ◌*◌, ◌/◌, none, ◌^◌, sym, subst, Bool, true, false, map, if◌then◌else◌, ==_iff,
  some-injective, zero, suc, ◌+◌, ◌%◌, ◌<◌, ◌≡◌, refl, ap, ◌∙◌, inl, inr, some, List, [], ◌∷◌,
  arith, length, ltb, ◌==◌, ==_of_eq, Bool-cases, pos, negsuc, ℕ,
}

-- A stream put into the map is found there.
find_stream-put_stream :
    (t : Stream) (streams : List Stream) → find_stream t.kind (put_stream t streams) ≡ some t
unfolding find_stream put_stream
find_stream-put_stream t [] = rw (==_of_eq t.kind t.kind refl) refl
find_stream-put_stream t (s ∷ streams) = elim (Bool-cases (s.kind == t.kind)) [
  | inl same ↦ rw (same, ==_of_eq t.kind t.kind refl) refl
  | inr differ ↦ elim (Bool-cases (ltb t.kind s.kind)) [
    | inl before ↦ rw (differ, before, ==_of_eq t.kind t.kind refl) refl
    | inr behind ↦ rw (differ, behind, differ) (find_stream-put_stream t streams)
  ]
]

buffer_at-make_buffers :
    (fds : ℕ → ℕ) (kind width height size stride uv_offset i n j : ℕ)
    → j < n
    → (b : VisionBuf) × (buffer_at (make_buffers fds kind width height size stride uv_offset i n) j
        ≡ done b)
      × (b.idx ≡ i + j)
      × (b.kind ≡ kind)
      × (b.fd ≡ pos (fds (i + j)))
      × (b.len ≡ size)
unfolding buffer_at make_buffers allocate init_yuv
buffer_at-make_buffers fds kind width height size stride uv_offset i zero j h =
    absurd (omega (arith, h))
buffer_at-make_buffers fds kind width height size stride uv_offset i (suc n) zero h =
    (_, refl, omega arith, refl, ap (λ k. pos (fds k)) (omega arith), refl)
buffer_at-make_buffers fds kind width height size stride uv_offset i (suc n) (suc j) h =
    let (b, e, at, same, file, len) =
      buffer_at-make_buffers fds kind width height size stride uv_offset (i + 1) n j
        (omega (arith, h)) in
    (b, e, omega (arith, at), same, file ∙ ap (λ k. pos (fds k)) (omega arith), len)

length-make_buffers :
    (fds : ℕ → ℕ) (kind width height size stride uv_offset i n : ℕ)
    → length (make_buffers fds kind width height size stride uv_offset i n) ≡ n
unfolding make_buffers
length-make_buffers fds kind width height size stride uv_offset i zero = refl
length-make_buffers fds kind width height size stride uv_offset i (suc n) =
    omega (arith, length-make_buffers fds kind width height size stride uv_offset (i + 1) n)

-- The successive buffers that `get_buffer(type)` hands out.
unfoldable pub take_turns : ℕ → ℕ → Server → Run (List VisionBuf)
take_turns kind zero server = done []
take_turns kind (suc n) server = do
  (b, server') ← get_buffer kind (negsuc 0) server
  bs ← take_turns kind n server'
  done (b ∷ bs)

-- the places of the buffers handed out, from a counter on
abbrev pub places : ℕ → ℕ → ℕ → List ℕ
places size current zero = []
places size current (suc n) = current % size ∷ places size (current + 1) n

find_stream-kind :
    (kind : ℕ) (streams : List Stream) {s : Stream}
    → find_stream kind streams ≡ some s
    → s.kind ≡ kind
unfolding find_stream
find_stream-kind kind [] e = cc
find_stream-kind kind (x ∷ streams) {s} e =
    go (λ f. find_stream-kind kind streams f) (x.kind == kind) refl e
  where
    go :
        (find_stream kind streams ≡ some s → s.kind ≡ kind)
        → (b : Bool) → (x.kind == kind) ≡ b
        → (if b then some x else find_stream kind streams) ≡ some s
        → s.kind ≡ kind
    go rest true q f =
        ap (λ (y : Stream). y.kind) (sym (some-injective f)) ∙ (==_iff x.kind kind).0 q
    go rest false q f = rest f

buffer_at_total :
    (bs : List VisionBuf) (j : ℕ) → j < length bs → (b : VisionBuf) × (buffer_at bs j ≡ done b)
unfolding buffer_at
buffer_at_total [] j h = absurd (omega (arith, h))
buffer_at_total (b ∷ bs) zero h = (b, refl)
buffer_at_total (b ∷ bs) (suc j) h = buffer_at_total bs j (omega (arith, h))

choose_index_lem :
    (current size : ℕ)
    → 0 < size
    → current + 1 < 2 ^ 64
    → choose_index (negsuc 0) current size ≡ done (current % size, current + 1)
unfolding choose_index
choose_index_lem current zero h k = absurd (omega (arith, h))
choose_index_lem current (suc n) h k = ap (λ c. done (current % suc n, c)) (omega (arith, k))

get_buffer_lem :
    (kind : ℕ) (server : Server) (s : Stream) (b : VisionBuf)
    → find_stream kind server.streams ≡ some s
    → 0 < length s.buffers
    → s.current + 1 < 2 ^ 64
    → buffer_at s.buffers (s.current % length s.buffers) ≡ done b
    → get_buffer kind (negsuc 0) server
      ≡ done (
        b,
        record server {
          streams = put_stream (record s { current = s.current + 1 }) server.streams;
        },
      )
unfolding get_buffer
get_buffer_lem kind server s b found some_buffers small at =
    rw (get_buffer, found)
      (>>=-of-done _ _ (choose_index_lem s.current (length s.buffers) some_buffers small)
        (>>=-of-done _ _ at refl))

-- A stream has buffers, and its counter is at `current`: asking for a buffer `n` times succeeds
-- each time, as long as the counter does not reach 2^64, and hands out the buffers in turn, at the
-- places `current`, `current + 1` and so on, modulo their number.
pub take_turns_rotates :
    (kind n : ℕ) (server : Server) (s : Stream)
    → find_stream kind server.streams ≡ some s
    → 0 < length s.buffers
    → s.current + n < 2 ^ 64
    → (bs : List VisionBuf) × (take_turns kind n server ≡ done bs)
      × (map done bs ≡ map (buffer_at s.buffers) (places (length s.buffers) s.current n))
unfolding take_turns
take_turns_rotates kind zero server s found some_buffers small = ([], refl, refl)
take_turns_rotates kind (suc n) server s found some_buffers small =
    let next : Stream = record s { current = s.current + 1 } in
    let server' : Server = record server { streams = put_stream next server.streams } in
    let (b, at) =
      buffer_at_total s.buffers (s.current % length s.buffers) (omega (arith, some_buffers)) in
    let (bs, e, picks) =
      take_turns_rotates kind n server' next
        (subst (λ k. find_stream k (put_stream next server.streams) ≡ some next)
          (find_stream-kind kind server.streams found) (find_stream-put_stream next server.streams))
        some_buffers (omega (arith, small)) in
    (
      b ∷ bs,
      >>=-of-done _ _ (get_buffer_lem kind server s b found some_buffers (omega (arith, small)) at)
          (>>=-of-done _ _ e refl),
      cc,
    )

created_lem :
    (fds : ℕ → ℕ) (kind n width height size stride uv_offset : ℕ) (server : Server)
    → find_stream kind server.streams ≡ none
    → create_buffers_with_sizes fds kind n width height size stride uv_offset server
      ≡ record server {
        streams =
            put_stream
              (record {
                kind = kind;
                buffers = make_buffers fds kind width height size stride uv_offset 0 n;
                current = 0;
              })
              server.streams;
      }
unfolding create_buffers_with_sizes
created_lem fds kind n width height size stride uv_offset server absent =
    rw (create_buffers_with_sizes, absent) refl

-- A server creates `n` buffers of a type that it does not have: the stream is there, with the first
-- buffer as the next one, and the buffer at each place below `n` has its place as its index, the
-- type, its own file, and room for a frame of one and a half times the pixels.
pub create_buffers_places :
    (fds : ℕ → ℕ) (kind n width height j : ℕ) (server : Server) {server' : Server}
    → find_stream kind server.streams ≡ none
    → width * height * 3 < 2 ^ 64
    → j < n
    → create_buffers fds kind n width height server ≡ done server'
    → (s : Stream) × (b : VisionBuf) × (find_stream kind server'.streams ≡ some s)
      × (s.current ≡ 0)
      × (length s.buffers ≡ n)
      × (n < max_fds)
      × (buffer_at s.buffers j ≡ done b)
      × (b.idx ≡ j)
      × (b.kind ≡ kind)
      × (b.fd ≡ pos (fds j))
      × (b.len ≡ width * height * 3 / 2)
unfolding create_buffers
create_buffers_places fds kind n width height j server {server'} absent fits h e =
    go (ltb n max_fds) refl e
  where
    s : Stream
    s = record {
      kind = kind;
      buffers =
          make_buffers fds kind width height (u64 (width * height * 3) / 2) width
            (u64 (width * height)) 0 n;
      current = 0;
    }

    go :
        (c : Bool)
        → ltb n max_fds ≡ c
        → (if c
            then done (
                create_buffers_with_sizes fds kind n width height
                  (u64 (width * height * 3) / 2)
                  width
                  (u64 (width * height))
                  server)
            else aborted)
          ≡ done server'
        → (s : Stream) × (b : VisionBuf) × (find_stream kind server'.streams ≡ some s)
          × (s.current ≡ 0)
          × (length s.buffers ≡ n)
          × (n < max_fds)
          × (buffer_at s.buffers j ≡ done b)
          × (b.idx ≡ j)
          × (b.kind ≡ kind)
          × (b.fd ≡ pos (fds j))
          × (b.len ≡ width * height * 3 / 2)
    go false q f = cc
    go true q f =
        let (b, e, at, same, file, len) =
          buffer_at-make_buffers fds kind width height (u64 (width * height * 3) / 2) width
            (u64 (width * height)) 0 n j h in
        (
          s,
          b,
          ap (λ (x : Server). find_stream kind x.streams)
                (sym (done-injective f)
                  ∙ created_lem fds kind n width height (u64 (width * height * 3) / 2) width
                      (u64 (width * height)) server absent)
              ∙ find_stream-put_stream s server.streams,
          refl,
          length-make_buffers fds kind width height _ width _ 0 n,
          ltb→lt n max_fds q,
          e,
          omega (arith, at),
          same,
          file ∙ ap (λ k. pos (fds k)) (omega arith),
          len ∙ ap (λ x. x / 2) (mod-eq_of_lt fits),
        )
