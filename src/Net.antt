-- ===== src/Net.antt =====
-- src/net.cpp: sending and receiving files over a stream socket.
pub mod Socket
pub mod Handshake
pub mod Framing
pub mod Stream
pub mod Receiver
pub mod Sender
pub mod Transfer
pub mod AsyncReceiver
pub mod AsyncSender
pub mod Serving
mod Tests
