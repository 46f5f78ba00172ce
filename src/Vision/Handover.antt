-- ===== src/Vision/Handover.antt =====
-- That a client of msgq/visionipc accepts the frames of the server it is connected to.
use msgq.Vision.Server.{
  Stream, Server, find_stream, buffer_at, packet_of, copy_buffers, respond, copies,
}
use msgq.Vision.Packets.{InRange, length-to_packet_bytes, of_packet_bytes-to_packet_bytes}
use msgq.Vision.Client.{
  buf_bytes, importable, take_buffers, Client, import_buffers, connect, accept_message,
  received_copies,
}
use msgq.Vision.{max_fds, stream_list, VisionBuf, Extra, Packet, to_packet_bytes}
use msgq.Stream.Writing.{inside}
use msgq.Queue.{done-injective, message, done}
use msgq.Base.{
  ◌*◌, Bool, sym, ap, subst, leb_of_lt, ==_of_eq, update, update_self, zero, suc, ◌+◌, ◌^◌, ◌≤◌,
  ◌<◌, ◌≡◌, refl, ◌∙◌, ◌≢◌, true, some, List, [], ◌∷◌, arith, length, lt→ltb, leb_of_le, ==_of_ne,
  ℤ, pos, ℕ,
}

-- the copy of a buffer that a client of this server imports under this descriptor
abbrev pub imported : ℕ → ℤ → VisionBuf → VisionBuf
imported server_id fd b = record b { handle = 0; server_id = server_id; fd = fd }

length-copy_buffers :
    (server_id : ℕ) (bs : List VisionBuf) → length (copy_buffers server_id bs) ≡ length bs
unfolding copy_buffers
length-copy_buffers server_id [] = refl
length-copy_buffers server_id (b ∷ bs) = omega (arith, length-copy_buffers server_id bs)

import_buffers_before :
    (fds : ℕ → ℤ) (i : ℕ) (bs : List VisionBuf) (buffers : ℕ → VisionBuf) (k : ℕ)
    → k < i
    → import_buffers fds i bs buffers k ≡ buffers k
unfolding import_buffers
import_buffers_before fds i [] buffers k h = refl
import_buffers_before fds i (b ∷ bs) buffers k h =
    import_buffers_before fds (i + 1) bs _ k (omega (arith, h))
    ∙ rw (==_of_ne i k (omega (arith, h))) refl

buffer_at-lt :
    (bs : List VisionBuf) (j : ℕ) {b : VisionBuf} → buffer_at bs j ≡ done b → j < length bs
unfolding buffer_at
buffer_at-lt [] j e = cc
buffer_at-lt (b ∷ bs) zero e = omega arith
buffer_at-lt (b ∷ bs) (suc j) e = omega (arith, buffer_at-lt bs j e)

-- Copied and imported, each buffer stands at its place.
import_buffers_lem :
    (server_id : ℕ) (fds : ℕ → ℤ) (i : ℕ) (bs : List VisionBuf) (buffers : ℕ → VisionBuf) (j : ℕ)
    {b : VisionBuf}
    → buffer_at bs j ≡ done b
    → import_buffers fds i (copy_buffers server_id bs) buffers (i + j)
      ≡ imported server_id (fds (i + j)) b
unfolding import_buffers copy_buffers buffer_at
import_buffers_lem server_id fds i [] buffers j e = cc
import_buffers_lem server_id fds i (x ∷ bs) buffers zero {b} e =
    let here : i + 0 ≡ i = omega arith in
    subst
      (λ k.
        import_buffers fds (i + 1) (copy_buffers server_id bs)
          (update buffers i (imported server_id (fds i) x)) k
        ≡ imported server_id (fds k) b)
      (sym here)
      (import_buffers_before fds (i + 1) (copy_buffers server_id bs) _ i (omega arith)
        ∙ update_self buffers i (imported server_id (fds i) x)
        ∙ ap (λ y. imported server_id (fds i) y) (done-injective e))
import_buffers_lem server_id fds i (x ∷ bs) buffers (suc j) {b} e =
    let there : i + 1 + j ≡ i + suc j = omega arith in
    subst
      (λ k.
        import_buffers fds (i + 1) (copy_buffers server_id bs)
          (update buffers i (imported server_id (fds i) x)) k
        ≡ imported server_id (fds k) b)
      there
      (import_buffers_lem server_id fds (i + 1) bs (update buffers i (imported server_id (fds i) x))
        j e)

-- what the fields of `VisionIpcBufExtra` can hold
pub record Holds (extra : Extra) : Type 0 where
  pub frame_id : extra.frame_id < 2 ^ 32
  pub timestamp_sof : extra.timestamp_sof < 2 ^ 64
  pub timestamp_eof : extra.timestamp_eof < 2 ^ 64

packet_of_lem :
    (server : Server) (b : VisionBuf) (s : Stream) (extra : Extra)
    → find_stream b.kind server.streams ≡ some s
    → b.idx < length s.buffers
    → packet_of server b extra
      ≡ done (record { server_id = server.server_id; idx = b.idx; extra = extra })
unfolding packet_of
packet_of_lem server b s extra found inside =
    rw (packet_of, found, lt→ltb b.idx (length s.buffers) inside) refl

-- A client accepts a packet for a buffer that it has from the same server.
accept_message_lem :
    (p : Packet) (c : Client)
    → InRange p
    → p.idx < c.num_buffers
    → (c.buffers p.idx).server_id ≡ p.server_id
    → accept_message (message (to_packet_bytes p)) c ≡ done (some (c.buffers p.idx, p.extra), c)
unfolding accept_message
accept_message_lem p c h inside same =
    rw
      (
        of_packet_bytes-to_packet_bytes p h,
        length-to_packet_bytes p,
        leb_of_lt c.num_buffers p.idx inside,
        ==_of_eq _ _ same,
      )
      refl

-- A server has a stream of at most 128 buffers, and a buffer whose index is its place: a client
-- that connects, its descriptors and mappings being good and the copies received whole, gets the
-- copies of them all, and, given the bytes of the packet that the server then sends for the
-- buffer, returns its own copy of this buffer with what was sent along.
pub frame_handed_over :
    (server : Server) (kind : ℕ) (s : Stream) (client : Client) (map_file : ℤ → ℕ → Bool)
    (fds : ℕ → ℤ) (b : VisionBuf) (extra : Extra)
    → find_stream kind server.streams ≡ some s
    → kind ≢ stream_list
    → length s.buffers ≤ max_fds
    → server.server_id < 2 ^ 64
    → Holds extra
    → b.kind ≡ kind
    → buffer_at s.buffers b.idx ≡ done b
    → importable map_file fds 0 (copy_buffers server.server_id s.buffers) ≡ true
    → (bs : List VisionBuf) × (c : Client) × (p : Packet) × (respond server (pos 4) kind
        ≡ done (copies bs))
      × (connect map_file true (pos 4) (received_copies (buf_bytes * length bs) fds bs) client
          ≡ done (true, c))
      × (packet_of server b extra ≡ done p)
      × (accept_message (message (to_packet_bytes p)) c
          ≡ done (some (imported server.server_id (fds b.idx) b, extra), c))
unfolding respond connect take_buffers packet_of accept_message
frame_handed_over server kind s client map_file fds b extra found real few small holds same at
      can_import =
    let bs = copy_buffers server.server_id s.buffers in
    let c : Client = record {
      connected = true;
      kind = client.kind;
      num_buffers = length bs;
      buffers = import_buffers fds 0 bs client.buffers;
    } in
    let p : Packet = record { server_id = server.server_id; idx = b.idx; extra = extra } in
    let inside = buffer_at-lt s.buffers b.idx at in
    let here : c.buffers b.idx ≡ imported server.server_id (fds b.idx) b =
      subst (λ k. c.buffers k ≡ imported server.server_id (fds k) b) (omega arith)
        (import_buffers_lem server.server_id fds 0 s.buffers client.buffers b.idx at) in
    let range : InRange p = record {
      server_id = small;
      idx = omega (arith, inside, few);
      frame_id = holds.frame_id;
      timestamp_sof = holds.timestamp_sof;
      timestamp_eof = holds.timestamp_eof;
    } in
    (
      bs,
      c,
      p,
      rw (==_of_ne kind stream_list real, found, leb_of_le (length s.buffers) max_fds few) refl,
      rw (==_of_eq (buf_bytes * length bs) (buf_bytes * length bs) refl, can_import) refl,
      packet_of_lem server b s extra (ap (λ k. find_stream k server.streams) same ∙ found) inside,
      accept_message_lem p c range
            (omega (arith, inside, length-copy_buffers server.server_id s.buffers))
            (ap (λ (x : VisionBuf). x.server_id) here)
          ∙ ap (λ x. done (some (x, extra), c)) here,
    )
