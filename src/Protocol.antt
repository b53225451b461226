-- ===== src/Protocol.antt =====
-- include/protocol.hpp: the wire protocol between sender and receiver.
pub mod Codec
mod Tests
pub mod Messages
pub mod Layout
pub mod Parsers
pub mod RoundTrip
pub mod SafePath
