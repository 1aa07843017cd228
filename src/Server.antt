-- ===== src/Server.antt =====
-- src/server: connections, how packets are cut out of their bytes, and what is done with a packet.
pub mod Connection
pub mod Extract
pub mod Tcp
pub mod Ws
pub mod System
pub mod Delivery
pub mod Atomic
pub mod Start
mod Samples
mod Tests
