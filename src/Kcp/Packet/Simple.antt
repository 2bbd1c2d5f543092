-- ===== src/Kcp/Packet/Simple.antt =====
-- transport/internet/kcp/crypt.go as the cipher of packets: NewSimpleAuthenticator, NonceSize, Overhead.
use reflex.Prelude.{
  ℕ, ◌^◌, ◌+◌, ◌≤◌, ◌<◌, ◌≡◌, ◌≢◌, refl, ap, ◌∙◌, Option, some, List, [], map, length, All, arith,
}
use reflex.Prelude.Bytes.{Bytes}
use reflex.Kcp.Auth.{seal_in, unseal}
use reflex.Kcp.Auth.RoundTrip.{unseal-seal, length-seal, seal_in-seal}
use reflex.Kcp.Segment.{Segment, buffer_size}
use reflex.Kcp.Segment.RoundTrip.{received, FitsSegment}
use reflex.Kcp.Packet.{Aead, AeadLaws, read_packet, write_packet, with_header}
use reflex.Kcp.Packet.Delivery.{serialize_all, header_room, read_packet-write_packet}

abbrev pub simple_authenticator : (Bytes → ℕ) → Aead
simple_authenticator fnv32a = record {
  nonce_size = 0;
  overhead = 6;
  seal = λ room nonce plain. seal_in fnv32a room plain;
  unseal = λ nonce cipher_text. unseal fnv32a cipher_text;
}

-- With three bytes of room more the bytes that pad the text stay in the array.
simple-AeadLaws :
    (fnv32a : Bytes → ℕ)
    → ((p : Bytes) → fnv32a p < 2 ^ 32)
    → AeadLaws (simple_authenticator fnv32a) 3
simple-AeadLaws fnv32a word = record {
  unseal-seal = λ room nonce plain enough empty short.
      ap (unseal fnv32a) (seal_in-seal fnv32a room plain (omega (arith, enough)))
      ∙ unseal-seal fnv32a plain short word;
  length-seal = λ room nonce plain enough empty.
      ap (λ (b : Bytes). length b) (seal_in-seal fnv32a room plain (omega (arith, enough)))
      ∙ omega (arith, length-seal fnv32a plain);
}

-- The segments of a packet, one or more with fields that fit, go out behind a header or none under the
-- simple authenticator, and are what the peer reads from the packet, up to the sender's notes. The packet
-- leaves three bytes of its buffer free for the padding. The hash gives 32 bits.
pub read_packet-simple :
    (fnv32a : Bytes → ℕ) (header : Option Bytes) (front : Bytes) (segs : List Segment)
    → ((p : Bytes) → fnv32a p < 2 ^ 32)
    → with_header header ≡ some front
    → All FitsSegment segs
    → segs ≢ []
    → length front + length (serialize_all segs) + 9 ≤ buffer_size
    → (packet : Bytes) × (write_packet header
          (some (simple_authenticator fnv32a))
          []
          (serialize_all segs)
        ≡ some packet)
      × (read_packet (header_room header) (some (simple_authenticator fnv32a)) packet
          ≡ map received segs)
read_packet-simple fnv32a header front segs word e fits some_segs room =
    read_packet-write_packet (simple_authenticator fnv32a) 3 (simple-AeadLaws fnv32a word) header
      front [] segs e refl fits some_segs (omega (arith, room)) (omega (arith, room))
