-- ===== src/Broker.antt =====
-- src/broker: sessions, subscriptions and the handlers of the packets.
pub mod Subscriptions
pub mod Filter
pub mod Session
pub mod Handlers
mod Tests
