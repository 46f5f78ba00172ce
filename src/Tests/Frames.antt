-- ===== src/Tests/Frames.antt =====
-- The theorems about msgq/visionipc, at a server with three buffers of one stream.
use msgq.Vision.Closing.{takes, drops, listen_loop-ends}
use msgq.Vision.Listener.{
  Round, Deed, answer, serve, one_round, listen_loop, took, answered, dropped,
}
use msgq.Vision.Passing.{Accounted, recv_with_fds-Accounted, fds_arrive}
use msgq.Vision.Channels.{Control, count_fds, deliver, recv_with_fds, send_with_fds}
use msgq.Vision.Turns.{take_turns, take_turns_rotates, create_buffers_places}
use msgq.Vision.Server.{
  copy_buffers, stream_types, types, Stream, Server, find_stream, create_buffers, buffer_at,
  packet_of, respond, copies,
}
use msgq.Vision.Packets.{InRange}
use msgq.Vision.Handover.{imported, Holds, frame_handed_over}
use msgq.Vision.Client.{buf_bytes, importable, Client, connect, accept_message, received_copies}
use msgq.Vision.{stream_list, VisionBuf, new_buf, Extra, Packet, to_packet_bytes}
use msgq.Queue.{message, done}
use msgq.Base.{
  ◌*◌, negsuc, ◌+◌, ◌<◌, ◌≡◌, refl, true, false, none, some, List, [], ◌∷◌, map, arith, length, pos,
  ℕ,
}

abbrev no_streams : Server
no_streams = record { server_id = 77; streams = [] }

abbrev buf : ℕ → VisionBuf
buf i = record new_buf {
  len = 12;
  mmap_len = 20;
  fd = pos (i + 5);
  width = 4;
  height = 2;
  stride = 4;
  uv_offset = 8;
  idx = i;
  kind = 1;
}

abbrev stream : Stream
stream = record { kind = 1; buffers = buf 0 ∷ buf 1 ∷ buf 2 ∷ []; current = 2 }

abbrev server : Server
server = record no_streams { streams = stream ∷ [] }

abbrev client : Client
client = record { connected = false; kind = 1; num_buffers = 0; buffers = λ i. new_buf }

abbrev extra : Extra
extra = record { frame_id = 10; timestamp_sof = 1000; timestamp_eof = 2000; valid = true }

abbrev packet : Packet
packet = record { server_id = 77; idx = 1; extra = extra }

in_range : InRange packet
in_range = record {
  server_id = omega arith;
  idx = omega arith;
  frame_id = omega arith;
  timestamp_sof = omega arith;
  timestamp_eof = omega arith;
}

holds : Holds extra
holds = record { frame_id = omega arith; timestamp_sof = omega arith; timestamp_eof = omega arith }

found : find_stream 1 server.streams ≡ some stream
unfolding find_stream
found = refl

second : buffer_at stream.buffers 1 ≡ done (buf 1)
unfolding buffer_at
second = refl

can_import :
    importable (λ fd len. true) (λ i. pos (i + 30)) 0 (copy_buffers server.server_id stream.buffers)
    ≡ true
unfolding importable copy_buffers
can_import = refl

frame_handed_over_example :
    (bs : List VisionBuf) × (c : Client) × (p : Packet) × (respond server (pos 4) 1
      ≡ done (copies bs))
    × (connect
          (λ fd len. true)
          true
          (pos 4)
          (received_copies (buf_bytes * length bs) (λ i. pos (i + 30)) bs)
          client
        ≡ done (true, c))
    × (packet_of server (buf 1) extra ≡ done p)
    × (accept_message (message (to_packet_bytes p)) c
        ≡ done (some (imported 77 (pos 31) (buf 1), extra), c))
frame_handed_over_example =
    frame_handed_over server 1 stream client (λ fd len. true) (λ i. pos (i + 30)) (buf 1) extra
      found (λ e. omega (arith, e)) (omega arith) (omega arith) holds refl second can_import

take_turns_rotates_example :
    (bs : List VisionBuf) × (take_turns 1 4 server ≡ done bs)
    × (map done bs ≡ map (buffer_at stream.buffers) (2 ∷ 0 ∷ 1 ∷ 2 ∷ []))
take_turns_rotates_example = take_turns_rotates 1 4 server stream found (omega arith) (omega arith)

created : (s : Server) × (create_buffers (λ i. i + 5) 1 3 4 2 no_streams ≡ done s)
unfolding create_buffers
created = (_, refl)

absent : find_stream 1 no_streams.streams ≡ none
unfolding find_stream
absent = refl

create_buffers_places_example :
    (s : Stream) × (b : VisionBuf) × (find_stream 1 created.0.streams ≡ some s)
    × (s.current ≡ 0)
    × (length s.buffers ≡ 3)
    × (3 < 128)
    × (buffer_at s.buffers 2 ≡ done b)
    × (b.idx ≡ 2)
    × (b.kind ≡ 1)
    × (b.fd ≡ pos 7)
    × (b.len ≡ 12)
create_buffers_places_example =
    create_buffers_places (λ i. i + 5) 1 3 4 2 2 no_streams absent (omega arith) (omega arith)
      created.1

-- two descriptors that arrive, and the same cut off
abbrev two_fds : Control
two_fds = record { rights = true; payload = 8; fds = 7 ∷ 8 ∷ [] }

recv_with_fds-Accounted_example :
    Accounted
      (record { rc = pos 16; control = some two_fds; flagged = true })
      (record { rc = negsuc 0; fds = none; closed = 7 ∷ 8 ∷ [] })
unfolding recv_with_fds count_fds deliver
recv_with_fds-Accounted_example =
    recv_with_fds-Accounted true 128
      (record { rc = pos 16; control = some two_fds; flagged = true }) refl refl

fds_arrive_example :
    recv_with_fds true 128 (record { rc = pos 1; control = some two_fds; flagged = false })
    ≡ done (record { rc = pos 1; fds = some (7 ∷ 8 ∷ [], 2); closed = [] })
unfolding send_with_fds
fds_arrive_example =
    fds_arrive (1 ∷ []) (7 ∷ 8 ∷ []) 128
      (record { rc = pos 1; control = some two_fds; flagged = false }) (omega arith) (omega arith)
      refl refl refl refl

-- a client that asks for the streams, a client that sends nothing, and the end
abbrev asking : Round
asking = record {
  exiting = false;
  polled = pos 1;
  retryable = false;
  woken = false;
  pending = true;
  accepted = pos 9;
  received = pos 4;
  request = stream_list;
  leaving = false;
  sent = pos 0;
}

abbrev mute : Round
mute = record asking { received = pos 0; accepted = pos 10 }

abbrev bare_server : Server
bare_server = record { server_id = 1; streams = [] }

listen_loop-ends_example :
    (deeds : List Deed) × (listen_loop bare_server
        (asking ∷ mute ∷ record asking { exiting = true } ∷ [])
      ≡ done deeds)
    × (takes deeds ≡ drops deeds)
unfolding stream_types
listen_loop-ends_example =
    listen_loop-ends bare_server (asking ∷ mute ∷ []) (record asking { exiting = true }) tt
      (((9, refl), refl), (((10, refl), refl), tt)) refl

answers_both :
    listen_loop bare_server (asking ∷ mute ∷ record asking { exiting = true } ∷ [])
    ≡ done (took 9 ∷ answered 9 (types []) ∷ dropped 9 ∷ took 10 ∷ dropped 10 ∷ [])
unfolding listen_loop one_round serve answer respond stream_types
answers_both = refl
