-- ===== src/Protocol/RoundTrip.antt =====
-- src/protocol: what `decode` returns on the wire form of each packet.
pub mod Publish
pub mod Acks
pub mod Subscribe
pub mod Connect
