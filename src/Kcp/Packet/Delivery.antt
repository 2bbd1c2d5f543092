-- ===== src/Kcp/Packet/Delivery.antt =====
-- The segments of a packet arrive.
use reflex.Prelude.{
  ℕ, zero, suc, ◌+◌, ◌^◌, ◌≤◌, ◌<◌, ◌≡◌, ◌≢◌, refl, sym, ap, ◌∙◌, false, Option, none, some, List,
  [], ◌∷◌, ◌++◌, length, map, All, leb, le→leb, ◌-◌, arith, length-append, take-length, drop-length,
}
use reflex.Prelude.Bytes.{Bytes}
use reflex.Kcp.Segment.{
  Segment, data_segment, ack_segment, cmd_segment, read_segment, serialize, byte_size, buffer_size,
}
use reflex.Kcp.Segment.RoundTrip.{received, FitsSegment, read_segment-serialize, length-serialize}
use reflex.Kcp.Packet.{
  Aead, AeadLaws, next_segments, read_segments, without_header, decrypted, segments_of,
  decrypted_of, read_packet, encrypted, with_header, encrypted_behind, write_packet,
}

-- Segments one behind the other.
unfoldable pub serialize_all : List Segment → Bytes
serialize_all [] = []
serialize_all (seg ∷ segs) = serialize seg ++ serialize_all segs

byte_size-some : (seg : Segment) → 0 < byte_size seg
unfolding byte_size
byte_size-some (data_segment s) = omega arith
byte_size-some (ack_segment s) = omega arith
byte_size-some (cmd_segment s) = omega arith

serialize-some : (seg : Segment) → 0 < length (serialize seg)
serialize-some seg = omega (arith, length-serialize seg, byte_size-some seg)

read_segments-serialize :
    (segs : List Segment) (fuel : ℕ)
    → All FitsSegment segs
    → length (serialize_all segs) ≤ fuel
    → read_segments fuel (serialize_all segs) ≡ map received segs
unfolding read_segments next_segments serialize_all read_segment
read_segments-serialize [] zero fits enough = refl
read_segments-serialize [] (suc fuel) fits enough = refl
read_segments-serialize (seg ∷ segs) zero fits enough =
    absurd (
      omega (arith, length-append (serialize seg) (serialize_all segs), serialize-some seg, enough))
read_segments-serialize (seg ∷ segs) (suc fuel) (fit, fits) enough =
    ap (λ (x : Option (Segment × Bytes)). next_segments x (λ b'. read_segments fuel b'))
      (read_segment-serialize seg (serialize_all segs) fit)
    ∙ ap (◌∷◌ (received seg)) (
        read_segments-serialize segs fuel fits (
          omega (
            arith,
            length-append (serialize seg) (serialize_all segs),
            serialize-some seg,
            enough,
          )))

serialize_all-some : (segs : List Segment) → segs ≢ [] → 0 < length (serialize_all segs)
unfolding serialize_all
serialize_all-some [] h = absurd (h refl)
serialize_all-some (seg ∷ segs) h =
    omega (arith, length-append (serialize seg) (serialize_all segs), serialize-some seg)

-- The header's room, as the reader is told it.
abbrev pub header_room : Option Bytes → Option ℕ
header_room none = none
header_room (some header) = some (length header)

without_header-front :
    (header : Option Bytes) (front rest : Bytes)
    → with_header header ≡ some front
    → 0 < length rest
    → without_header (header_room header) (front ++ rest) ≡ some rest
unfolding with_header without_header
without_header-front none front rest e some_rest = ground arith
without_header-front (some header) front rest e some_rest =
    ground (arith, length-append header rest, drop-length header rest (length header) refl)

module _ (a : Aead) (slack : ℕ) (laws : AeadLaws a slack) where
  open laws use {unseal-seal, length-seal}

  decrypted-sealed :
      (room : ℕ) (nonce b : Bytes)
      → length b + a.overhead + slack ≤ room
      → length nonce ≡ a.nonce_size
      → 0 < length b
      → length b < 2 ^ 16
      → decrypted (some a) (nonce ++ a.seal room nonce b) ≡ some b
  unfolding decrypted
  decrypted-sealed room nonce b enough size some_data short =
      rw
        (
          longer,
          take-length nonce (a.seal room nonce b) a.nonce_size (sym size),
          drop-length nonce (a.seal room nonce b) a.nonce_size (sym size),
        )
        (unseal-seal room nonce b enough size short)
    where
      longer : leb (length (nonce ++ a.seal room nonce b)) (a.nonce_size + a.overhead) ≡ false
      longer =
          ground
            (arith, length-append nonce (a.seal room nonce b), length-seal room nonce b enough size)

  -- The room that the packet's buffer has behind the header and the nonce.
  room_behind : Bytes → ℕ
  room_behind front = buffer_size - (length front + a.nonce_size)

  -- The packet of a header, a nonce and the bytes of segments leaves so many bytes of the buffer free.
  abbrev pub Fits : Bytes → Bytes → Type 0
  Fits front b = length front + a.nonce_size + length b + a.overhead + slack ≤ buffer_size

  packet_shape :
      (nonce front b : Bytes)
      → Fits front b
      → encrypted (some a) nonce front b
        ≡ some (front ++ (nonce ++ a.seal (room_behind front) nonce b))
  unfolding encrypted room_behind
  packet_shape nonce front b fits =
      rw
        (le→leb (length front + a.nonce_size + a.overhead + length b) buffer_size
          (omega (arith, fits)))
        refl

  sealed_packet :
      (header : Option Bytes) (front nonce packet b : Bytes)
      → length nonce ≡ a.nonce_size
      → 0 < length b
      → length b < 2 ^ 16
      → Fits front b
      → with_header header ≡ some front
      → packet ≡ front ++ (nonce ++ a.seal (room_behind front) nonce b)
      → read_packet (header_room header) (some a) packet ≡ read_segments (length b) b
  unfolding read_packet segments_of decrypted_of room_behind
  sealed_packet header front nonce packet b size some_data short fits e shape = rw (
    shape,
    without_header-front header front (nonce ++ a.seal (room_behind front) nonce b) e (
        omega (
          arith,
          length-append nonce (a.seal (room_behind front) nonce b),
          length-seal (room_behind front) nonce b enough size,
        )),
    decrypted-sealed (room_behind front) nonce b enough size some_data short,
  )
    where
      enough : length b + a.overhead + slack ≤ room_behind front
      enough = omega (arith, fits)

  -- What fits into a packet comes out of it: the segments, one or more, that are written behind a
  -- header or none under a cipher that meets its laws go out, and they are what the peer reads, up to
  -- the sender's notes. The packet leaves the bytes of the buffer free that the cipher asks for.
  pub read_packet-write_packet :
      (header : Option Bytes) (front nonce : Bytes) (segs : List Segment)
      → with_header header ≡ some front
      → length nonce ≡ a.nonce_size
      → All FitsSegment segs
      → segs ≢ []
      → length (serialize_all segs) < 2 ^ 16
      → Fits front (serialize_all segs)
      → (packet : Bytes) × (write_packet header (some a) nonce (serialize_all segs) ≡ some packet)
        × (read_packet (header_room header) (some a) packet ≡ map received segs)
  unfolding write_packet encrypted_behind
  read_packet-write_packet header front nonce segs e size fits some_segs short room = (
    front ++ (nonce ++ a.seal (room_behind front) nonce (serialize_all segs)),
    rw e (packet_shape nonce front (serialize_all segs) room),
    sealed_packet header front nonce _ (serialize_all segs) size (serialize_all-some segs some_segs)
          short room e refl
        ∙ read_segments-serialize segs (length (serialize_all segs)) fits (omega arith),
  )
