-- ===== src/Kcp.antt =====
-- transport/internet/kcp: a reliable stream on UDP packets. Segments on the wire, packets of segments,
-- the window that puts received segments in order, and the window of segments that wait for an
-- acknowledgement.
pub mod Words
pub mod Segment
pub mod Auth
pub mod Packet
pub mod Acks
pub mod Receiving
pub mod Settings
pub mod Timing
pub mod Sending
pub mod Connection
pub mod Link
mod Tests
