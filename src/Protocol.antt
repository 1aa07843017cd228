-- ===== src/Protocol.antt =====
-- src/protocol: the MQTT packets, and their binary form.
pub mod Qos
pub mod PacketType
pub mod Types
pub mod Decode
pub mod Encode
pub mod Wire
pub mod RoundTrip
mod Tests
