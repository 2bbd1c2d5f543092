-- ===== src/Kcp/Packet.antt =====
-- transport/internet/kcp/io.go and output.go: packets of segments, with a header that only takes room
-- and a cipher. A packet is put together in one buffer, and Go panics where it would not fit.
pub mod Delivery
pub mod Simple
use reflex.Prelude.{
  ℕ, zero, suc, ◌+◌, ◌-◌, ◌≡◌, ◌≤◌, ◌<◌, ◌^◌, Bool, true, false, Option, none, some, List, [], ◌∷◌,
  ◌++◌, length, take, drop, ltb, leb, if◌then◌else◌,
}
use reflex.Prelude.Bytes.{Bytes}
use reflex.Kcp.Segment.{Segment, read_segment, serialize, byte_size, buffer_size}

-- `cipher.AEAD`, with no additional data. `seal` gives what stands in the slice that `Seal` was given to
-- append to, whose array has room for so many bytes: the code does not look at what `Seal` returns.
pub record Aead : Type 0 where
  pub nonce_size : ℕ
  pub overhead : ℕ
  pub seal : ℕ → Bytes → Bytes → Bytes
  pub unseal : Bytes → Bytes → Option Bytes

-- What a packet's cipher promises, for plaintexts of less than 64 KiB, in an array with room for the
-- sealed text and so many bytes more.
pub record AeadLaws (a : Aead) (slack : ℕ) : Type 0 where
  pub unseal-seal :
      (room : ℕ) (nonce plain : Bytes)
      → length plain + a.overhead + slack ≤ room
      → length nonce ≡ a.nonce_size
      → length plain < 2 ^ 16
      → a.unseal nonce (a.seal room nonce plain) ≡ some plain
  pub length-seal :
      (room : ℕ) (nonce plain : Bytes)
      → length plain + a.overhead + slack ≤ room
      → length nonce ≡ a.nonce_size
      → length (a.seal room nonce plain) ≡ length plain + a.overhead

next_segments : Option (Segment × Bytes) → (Bytes → List Segment) → List Segment
next_segments none later = []
next_segments (some (seg, b)) later = seg ∷ later b

-- The loop of `Read`, with fuel for the bytes: each segment takes some.
read_segments : ℕ → Bytes → List Segment
unfolding next_segments
read_segments zero b = []
read_segments (suc fuel) b = next_segments (read_segment b) (λ b'. read_segments fuel b')

without_header : Option ℕ → Bytes → Option Bytes
without_header none b = some b
without_header (some size) b = if leb (length b) size then none else some (drop size b)

decrypted : Option Aead → Bytes → Option Bytes
decrypted none b = some b
decrypted (some a) b =
    if leb (length b) (a.nonce_size + a.overhead)
    then none
    else a.unseal (take a.nonce_size b) (drop a.nonce_size b)

segments_of : Option Bytes → List Segment
unfolding read_segments
segments_of none = []
segments_of (some b) = read_segments (length b) b

decrypted_of : Option Aead → Option Bytes → Option Bytes
unfolding decrypted
decrypted_of security none = none
decrypted_of security (some b) = decrypted security b

-- `(*KCPPacketReader).Read`: a packet that is too short, or does not open, has no segments.
unfoldable pub read_packet : Option ℕ → Option Aead → Bytes → List Segment
unfolding segments_of decrypted_of without_header
read_packet header_size security b =
    segments_of (decrypted_of security (without_header header_size b))

-- `bb.Bytes()` when `front` stands in it and `b` comes behind; `nonce` is what the random source gives.
encrypted : Option Aead → Bytes → Bytes → Bytes → Option Bytes
encrypted none nonce front b = some (front ++ take (buffer_size - length front) b)
encrypted (some a) nonce front b =
    if leb (length front + a.nonce_size + a.overhead + length b) buffer_size
    then some (front ++ (nonce ++ a.seal (buffer_size - (length front + a.nonce_size)) nonce b))
    else none

unfoldable pub with_header : Option Bytes → Option Bytes
with_header none = some []
with_header (some header) = if leb (length header) buffer_size then some header else none

encrypted_behind : Option Aead → Bytes → Bytes → Option Bytes → Option Bytes
unfolding encrypted
encrypted_behind security nonce b none = none
encrypted_behind security nonce b (some front) = encrypted security nonce front b

-- `(*KCPPacketWriter).Write`: the packet that goes out.
unfoldable pub write_packet : Option Bytes → Option Aead → Bytes → Bytes → Option Bytes
unfolding encrypted_behind with_header
write_packet header security nonce b = encrypted_behind security nonce b (with_header header)

-- `(*SimpleSegmentWriter).Write`: the bytes of the segment in a buffer.
unfoldable pub write_segment : Segment → Option Bytes
write_segment seg = if leb (byte_size seg) buffer_size then some (serialize seg) else none
