-- ===== src/Lib.antt =====
-- Reflex, a proxy protocol inside Xray-core (xray-core/proxy/reflex), the UUIDs that name its users
-- (xray-core/common/uuid), and from Xray-core itself the buffers (xray-core/common/buf), the pipe
-- of a link (xray-core/transport/pipe) and the KCP transport (xray-core/transport/internet/kcp).
--
-- A connection comes to the inbound handler, which looks at its first bytes. A Reflex connection starts
-- with a magic number or an HTTP POST, and with a handshake; the handler checks its timestamp and
-- nonce, agrees on a key, finds the user, and answers. Behind it the connection carries encrypted
-- frames, which a relay passes on to the destination that the first data frame names; what comes back
-- is cut and timed after a traffic profile. Any other connection goes to a fallback server.
--
-- KCP is a reliable stream on UDP packets. A connection cuts what is written into segments with numbers,
-- its sending worker keeps them until they are acknowledged and writes them again when their timeout has
-- passed, and the peer's receiving worker puts them in order and acknowledges them. Segments travel in
-- packets, under a header and a cipher. The state of a connection moves with the calls of its user and
-- with what the peer says.
--
-- The parts, and the files of xray-core that they model:
--   Replay      proxy/reflex/inbound/session.go, rememberCiphertext: the window of digests
--   Session     proxy/reflex/inbound/session.go, NewSession, ReadFrame, WriteFrame
--   Profile     proxy/reflex/inbound/morphing.go, the profiles, GetPacketSize, GetDelay
--   Morphing    proxy/reflex/inbound/morphing.go, the control frames, and WriteFrameWithMorphing
--   Relay       proxy/reflex/inbound/session.go, handleSession, forwardUpstreamToClient
--   Handshake   proxy/reflex/inbound/handshake.go, the wire format
--   Nonces      proxy/reflex/inbound/handshake.go, the timestamp and the table of nonces
--   Inbound     proxy/reflex/inbound/inbound.go and handshake.go: Process, processHandshake, the users
--   Uuid        common/uuid/uuid.go
--   Config      infra/conf/reflex.go
--   MultiBuffer common/buf/buffer.go, multi_buffer.go
--   Pipe        transport/pipe/impl.go
--   Kcp/Segment     transport/internet/kcp/segment.go
--   Kcp/Auth        transport/internet/kcp/crypt.go, xor.go
--   Kcp/Packet      transport/internet/kcp/io.go, output.go
--   Kcp/Acks        transport/internet/kcp/receiving.go, AckList
--   Kcp/Receiving   transport/internet/kcp/receiving.go, ReceivingWindow, ReceivingWorker
--   Kcp/Sending     transport/internet/kcp/sending.go
--   Kcp/Settings    transport/internet/kcp/config.go
--   Kcp/Timing      transport/internet/kcp/connection.go, RoundTripInfo
--   Kcp/Connection  transport/internet/kcp/connection.go, Connection
--   Kcp/Link        a sender and a receiver with a network between them
-- Prelude has the shared lemmas; Io is Go's readers and writers; Crypto is the AEAD and the hash. Each
-- part's operations stand in the file of its name, and its theorems in the files below it; the tests and
-- the concrete instances of the theorems are in the files Tests.
--
-- State is passed explicitly: an operation takes the state and returns the new one, also when it fails.
-- A mutex of the source makes the operation that it guards one step. A reader is the bytes that will
-- arrive and the error behind them; a writer is what has been sent and how much it still takes.
-- Machine integers keep their wrap-around: the nonce counters modulo 2 ^ 64, the length fields modulo
-- 2 ^ 16, a duration from 64 bits with its sign. Loops with fuel: the shaping loop has a round for each
-- byte of the data, since each round takes one byte at least; the session loop has a round for each byte
-- of the stream and one more, since each frame takes three. In KCP the loop over a packet has a round for
-- each byte, the loop of ReadMultiBuffer one for each segment of the window and one more, and the loop of
-- a write one for each byte and one more. The numbers of segments and the times wrap around modulo 2 ^ 32.
--
-- Parameters: ChaCha20-Poly1305 and SHA-256 (with the laws that what was sealed opens and a tag
-- is sixteen bytes), X25519, HKDF, SHA-1, base64, JSON and HTTP requests, the hash
-- FNV-1a and the cipher of KCP's packets (with the laws of an AEAD that seals in place), float64 arithmetic and the
-- random sources, the clock, and the dispatcher of the host program.
--
-- Not modelled: the copying to the fallback server behind the hand-over, sleeping, logging, the
-- profiles made from observations and the statistic of stats.go, the outbound handler, generated code,
-- and the rest of Xray-core. Of KCP the sockets, the deadlines and the goroutines of the updaters are left
-- out; of the buffers the pools and their ownership. The forwarder's step in the relay is one
-- buffer, so interleavings inside a buffer are not seen.
pub mod Prelude
pub mod Replay
pub mod Io
pub mod Crypto
pub mod Profile
pub mod Session
pub mod Morphing
pub mod Uuid
pub mod Handshake
pub mod Nonces
pub mod Inbound
pub mod Relay
pub mod Config
pub mod MultiBuffer
pub mod Kcp
pub mod Pipe
