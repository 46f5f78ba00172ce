-- ===== src/Vision/Packets.antt =====
-- That the bytes of a packet of msgq/visionipc give the packet back.
use msgq.Vision.{Packet, flag_byte, to_packet_bytes, packet_size, of_packet_bytes}
use msgq.Memory.{to_bytes, of_bytes}
use msgq.Base.{◌^◌, ◌<◌, ◌≡◌, refl, Bool, true, false, not, [], ◌∷◌, arith, length, ◌==◌, ℕ}

-- what the fields of the C structures can hold
pub record InRange (p : Packet) : Type 0 where
  pub server_id : p.server_id < 2 ^ 64
  pub idx : p.idx < 2 ^ 64
  pub frame_id : p.extra.frame_id < 2 ^ 32
  pub timestamp_sof : p.extra.timestamp_sof < 2 ^ 64
  pub timestamp_eof : p.extra.timestamp_eof < 2 ^ 64

word : (v : ℕ) → v < 2 ^ 64 → of_bytes (to_bytes 8 v) ≡ v
unfolding of_bytes to_bytes
word v h = omega arith

half : (v : ℕ) → v < 2 ^ 32 → of_bytes (to_bytes 4 v) ≡ v
unfolding of_bytes to_bytes
half v h = omega arith

flag : (b : Bool) → not (of_bytes (flag_byte b ∷ []) == 0) ≡ b
unfolding of_bytes
flag true = refl
flag false = refl

abbrev packet_with : ℕ → ℕ → ℕ → ℕ → ℕ → Bool → Packet
packet_with a b c d e f = record {
  server_id = a;
  idx = b;
  extra = record { frame_id = c; timestamp_sof = d; timestamp_eof = e; valid = f };
}

packet_with-eq :
    {a a' b b' c c' d d' e e' : ℕ} {f f' : Bool}
    → a ≡ a'
    → b ≡ b'
    → c ≡ c'
    → d ≡ d'
    → e ≡ e'
    → f ≡ f'
    → packet_with a b c d e f ≡ packet_with a' b' c' d' e' f'
packet_with-eq p q r s t u = rw (p, q, r, s, t, u) refl

-- A packet comes out of its bytes as it went in, if its fields hold what those of the C structures
-- can hold.
pub of_packet_bytes-to_packet_bytes :
    (p : Packet) → InRange p → of_packet_bytes (to_packet_bytes p) ≡ p
unfolding of_packet_bytes to_packet_bytes to_bytes
of_packet_bytes-to_packet_bytes p h =
    packet_with-eq (word _ h.server_id) (word _ h.idx) (half _ h.frame_id) (word _ h.timestamp_sof)
      (word _ h.timestamp_eof) (flag p.extra.valid)

pub length-to_packet_bytes : (p : Packet) → length (to_packet_bytes p) ≡ packet_size
unfolding to_packet_bytes to_bytes
length-to_packet_bytes p = omega arith
